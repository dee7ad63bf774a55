-- ===== src/Yadisk/Http.antt =====
-- The requests of pkg/yadisk/client.go and what becomes of their answers: resolveDownloadURL,
-- getPublicResource, detectReadWithoutDownload, formatHTTPError. `net/http`, `encoding/json`,
-- `net/url` and `fmt`'s %q are parameters. An operation makes each of its requests once, so within it
-- the service is a function of the request.
use tgdownloader.Prelude.{
  is_empty, ℕ, ◌*◌, Bool, ◌&&◌, ◌||◌, Option, none, some, List, [], ◌∷◌, ◌++◌, Text, ◌==◌, nat_eq,
  length, take, ltb, leb, if◌then◌else◌, codes, ℤ, ◌⊎◌, inl, inr,
}
use tgdownloader.Prelude.Decimal.{decimal}
use tgdownloader.Renderer.Sanitize.{trim_space}
use tgdownloader.Cmd.History.Sensitive.{contains}
use tgdownloader.Apperr.{Error, auth, network, io, internal, new_error}
use tgdownloader.Yadisk.Names.{to_lower}
use tgdownloader.Yadisk.Media.{ResourceAnswer, VideoStream}

pub data Result {ℓ} (A : Type ℓ) : Type ℓ where
  failed : Error → Result A
  ok : A → Result A

-- A body: the bytes that it yields, whether reading then fails, and whether closing does.
pub record Body : Type 0 where
  pub bytes : Text
  pub read_fails : Bool
  pub close_fails : Bool

-- `http.Response`: what the client reads of it. `disposition` is the trimmed file name of a
-- Content-Disposition header that parses, and `url_path` the path of the request's URL.
pub record Response : Type 0 where
  pub status_code : ℕ
  pub status : Text
  pub content_length : ℤ
  pub disposition : Option Text
  pub url_path : Option Text
  pub body : Body

-- A request: its URL, the offset of its Range header, and the payload of a POST.
pub record Request : Type 0 where
  pub url : Text
  pub range : Option ℕ
  pub payload : Option Text

-- The request is refused by `http.NewRequest`, or fails, or is answered.
pub data Exchange : Type 0 where
  bad_request unreachable : Text → Exchange
  answered : Response → Exchange

abbrev pub Service : Type 0
Service = Request → Exchange

abbrev pub get : Text → Request
get url = record { url = url; range = none; payload = none }

pub record VideoStreams : Type 0 where
  pub api_error : Bool
  pub status_code : ℕ
  pub videos : List VideoStream

-- `url.URL`: its path, and its text with another path and without a query.
pub record ParsedUrl : Type 0 where
  pub path : Text
  pub text_at : Text → Text

-- What the client calls of Go's library. A decoder gives the error's text or the value; `sscan` is
-- `fmt.Sscanf` with "%d"; the two `find` functions are the regular expressions' first groups.
pub record Library : Type 0 where
  pub lower : ℕ → ℕ
  pub quote : Text → Text
  pub query_escape : Text → Text
  pub encode_values : List (Text × Text) → Text
  pub decode_download : Text → Text ⊎ Text
  pub decode_resource : Text → Text ⊎ ResourceAnswer
  pub decode_streams : Text → Text ⊎ VideoStreams
  pub marshal_payload : Text → Text → Text
  pub find_sk : Text → Option Text
  pub find_root_hash : Text → Option Text
  pub parse_url : Text → Text ⊎ ParsedUrl
  pub sscan : Text → Option ℤ

pub record Client : Type 0 where
  pub api_base_url : Text

-- `NewClient`.
abbrev pub new_client : Client
new_client = record { api_base_url = codes "https://cloud-api.yandex.net" }

-- `strings.TrimRight(s, "/")`.
abbrev keep_unless_slash : ℕ → Text → Text
keep_unless_slash c [] = if c == b'/' then [] else c ∷ []
keep_unless_slash c (d ∷ ds) = c ∷ d ∷ ds

trim_right_slashes : Text → Text
trim_right_slashes [] = []
trim_right_slashes (c ∷ cs) = keep_unless_slash c (trim_right_slashes cs)

-- `io.ReadAll(io.LimitReader(body, n))`; none is an error.
unfoldable pub read_limited : ℕ → Body → Option Text
read_limited n body =
    if body.read_fails && ltb (length body.bytes) n then none else some (take n body.bytes)

-- Here the error of the read is dropped.
unfoldable pub format_http_error : Text → Response → Text
format_http_error prefix response =
    let body = trim_space (take 512 response.body.bytes) in
    if is_empty body
    then prefix ++ codes ": " ++ response.status
    else prefix ++ codes ": " ++ response.status ++ codes ": " ++ body

-- `httpClient.Do` with the checks that follow it: the operation's name, the text for another status
-- than 200, and what is done with the answer.
unfoldable pub ok_answer {ℓ} :
    {A : Type ℓ} → Text → Text → (Response → Result A) → Exchange → Result A
unfolding format_http_error
ok_answer op unexpected read (bad_request e) =
    failed (new_error (op ++ codes ".new_request") internal e)
ok_answer op unexpected read (unreachable e) = failed (new_error (op ++ codes ".http") network e)
ok_answer op unexpected read (answered response) =
    if response.status_code == 200
    then read response
    else failed (new_error (op ++ codes ".status") network (format_http_error unexpected response))

abbrev pub decoded {ℓ} : {A : Type ℓ} → Text → Text ⊎ A → Result A
decoded op (inl e) = failed (new_error (op ++ codes ".decode") io e)
decoded op (inr a) = ok a

abbrev pub trimmed : Result Text → Result Text
trimmed (failed e) = failed e
trimmed (ok href) = ok (trim_space href)

abbrev pub forbids_download : Text → Bool
forbids_download text =
    contains text (codes "read_without_download")
    || contains text (codes "read_with_password_without_download")

abbrev pub forbidden : Error
forbidden =
    new_error (codes "yadisk.detect_read_without_download") auth
      (codes "yandex disk public link forbids file download (rights include read_without_download)")

module _ (lib : Library) (client : Client) (service : Service) where
  unfoldable pub download_endpoint : Text → Text → Text
  unfolding trim_right_slashes
  download_endpoint public_url path =
      trim_right_slashes client.api_base_url
      ++ codes "/v1/disk/public/resources/download?public_key="
      ++ lib.query_escape public_url
      ++ (if is_empty (trim_space path) then [] else codes "&path=" ++ lib.query_escape path)

  unfoldable pub resolve_download_url : Text → Text → Result Text
  unfolding ok_answer
  resolve_download_url public_url path =
      ok_answer (codes "yadisk.resolve_download_url") (codes "unexpected yandex disk api status")
        (λ response.
          trimmed (
            decoded (codes "yadisk.resolve_download_url")
              (lib.decode_download response.body.bytes)))
        (service (get (download_endpoint public_url path)))

  -- `limit` is 0 or what a page holds.
  abbrev resource_values : Text → Text → ℕ → ℕ → List (Text × Text)
  resource_values public_url path limit offset =
      ((codes "public_key", public_url) ∷ [])
      ++ (if is_empty (trim_space path) then [] else (codes "path", path) ∷ [])
      ++ (if ltb 0 limit
          then (codes "limit", decimal limit) ∷ (codes "offset", decimal offset) ∷ []
          else [])

  unfoldable pub get_public_resource : Text → Text → ℕ → ℕ → Result ResourceAnswer
  unfolding ok_answer trim_right_slashes
  get_public_resource public_url path limit offset =
      ok_answer (codes "yadisk.get_public_resource")
        (codes "unexpected yandex disk public resource status")
        (λ response.
          decoded (codes "yadisk.get_public_resource") (lib.decode_resource response.body.bytes))
        (service (
          get (
            trim_right_slashes client.api_base_url
            ++ codes "/v1/disk/public/resources?"
            ++ lib.encode_values (resource_values public_url path limit offset))))

  -- What the page says; every failure to get it counts as no restriction.
  unfoldable pub detect_in_page : Response → Option Error
  unfolding read_limited
  detect_in_page response =
      if ltb response.status_code 200 || leb 300 response.status_code
      then none
      else elim (read_limited (2 * 1024 * 1024) response.body) [
        | none ↦ none
        | some body ↦ if forbids_download (to_lower lib.lower body) then some forbidden else none
      ]

  unfoldable pub detect_read_without_download : Text → Option Error
  unfolding detect_in_page
  detect_read_without_download public_url =
      if is_empty (trim_space public_url)
      then none
      else elim (service (get (trim_space public_url))) [
        | bad_request e ↦ none
        | unreachable e ↦ none
        | answered response ↦ detect_in_page response
      ]
