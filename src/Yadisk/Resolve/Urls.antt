-- ===== src/Yadisk/Resolve/Urls.antt =====
-- The URLs that the chains give.
use tgdownloader.Prelude.{
  is_empty, ℕ, ◌≡◌, refl, subst, false, none, some, List, [], ◌∷◌, Text, branches, codes, ◌==◌,
  list_eq, nat_eq, ◌++◌,
}
use tgdownloader.Renderer.Sanitize.{trim_space, trim_left, trim_right}
use tgdownloader.Renderer.Sanitize.Idempotent.{trim_space-trim_space}
use tgdownloader.Apperr.{Error, wrap, new_error, io}
use tgdownloader.Yadisk.Names.{size_rank}
use tgdownloader.Yadisk.Media.{
  PublicResource, ResourceAnswer, ResourceSize, Chosen, chosen_url, outranks, size_step,
  choose_size, choose_resource_size_url, can_use_media_fallback, media_fallback_url,
}
use tgdownloader.Yadisk.Http.{
  Result, failed, ok, Library, Client, Service, Response, Exchange, bad_request, unreachable,
  answered, ok_answer, decoded, trimmed, resolve_download_url, get, download_endpoint,
  get_public_resource, detect_read_without_download,
}
use tgdownloader.Yadisk.Resolve.{
  PublicDownload, try_href, or_url, after_resource, wrapped, no_href, public_op, file_op,
  file_details, resolve_public_download_url, from_metadata, resolve_file_direct_url,
  resolve_public_file_download_url,
}

abbrev pub IsTrimmed : Text → Type 0
IsTrimmed u = trim_space u ≡ u

-- A URL that can be requested: not empty, and without white space around it.
abbrev pub IsUrl : Text → Type 0
IsUrl u = (is_empty u ≡ false) × IsTrimmed u

-- Where there is a result, it has the property.
abbrev pub Gives : (Text → Type 0) → Result Text → Type 0
Gives P r = (u : Text) → r ≡ ok u → P u

abbrev pub GivesUrl : Result Text → Type 0
GivesUrl = Gives IsUrl

failed-Gives : (P : Text → Type 0) (e : Error) → Gives P (failed e)
failed-Gives P e u q = cc

ok-Gives : (P : Text → Type 0) (v : Text) → P v → Gives P (ok v)
ok-Gives P v h u q = let e : v ≡ u = cc in subst P e h

IsTrimmed-nil : IsTrimmed []
unfolding trim_space trim_left trim_right
IsTrimmed-nil = refl

or_url-GivesUrl : (u : Text) (r : Result Text) → IsTrimmed u → GivesUrl r → GivesUrl (or_url u r)
or_url-GivesUrl [] r t h = h
or_url-GivesUrl (c ∷ cs) r t h = ok-Gives IsUrl (c ∷ cs) (refl, t)

try_href-GivesUrl :
    (op : Text) (r rest : Result Text)
    → Gives IsTrimmed r
    → GivesUrl rest
    → GivesUrl (try_href op r rest)
try_href-GivesUrl op (failed e) rest t h = failed-Gives IsUrl (wrap op e)
try_href-GivesUrl op (ok []) rest t h = h
try_href-GivesUrl op (ok (c ∷ cs)) rest t h = ok-Gives IsUrl (c ∷ cs) (refl, t (c ∷ cs) refl)

wrapped-GivesUrl : (op : Text) (r : Result Text) → GivesUrl r → GivesUrl (wrapped op r)
wrapped-GivesUrl op (failed e) h = failed-Gives IsUrl (wrap op e)
wrapped-GivesUrl op (ok u) h = h

after_resource-GivesUrl :
    (op : Text) (r : Result ResourceAnswer) (next : PublicResource → Result Text)
    → ((meta : PublicResource) → GivesUrl (next meta))
    → GivesUrl (after_resource op r next)
after_resource-GivesUrl op (failed e) next h = failed-Gives IsUrl (wrap op e)
after_resource-GivesUrl op (ok a) next h = h a.resource

trimmed-GivesTrimmed : (r : Result Text) → Gives IsTrimmed (trimmed r)
trimmed-GivesTrimmed (failed e) = failed-Gives IsTrimmed e
trimmed-GivesTrimmed (ok u) = ok-Gives IsTrimmed (trim_space u) (trim_space-trim_space u)

ok_answer-GivesTrimmed :
    (op unexpected : Text) (read : Response → Result Text) (e : Exchange)
    → ((response : Response) → Gives IsTrimmed (read response))
    → Gives IsTrimmed (ok_answer op unexpected read e)
unfolding ok_answer
ok_answer-GivesTrimmed op unexpected read (bad_request t) h = failed-Gives IsTrimmed _
ok_answer-GivesTrimmed op unexpected read (unreachable t) h = failed-Gives IsTrimmed _
ok_answer-GivesTrimmed op unexpected read (answered response) h =
    branches (Gives IsTrimmed) (response.status_code == 200) (h response) (failed-Gives IsTrimmed _)

size_step-IsTrimmed :
    (lower : ℕ → ℕ) (c : Chosen) (s : ResourceSize)
    → IsTrimmed (chosen_url c)
    → IsTrimmed (chosen_url (size_step lower c s))
unfolding size_step
size_step-IsTrimmed lower c s h =
    let P : Chosen → Type 0 = λ x. IsTrimmed (chosen_url x) in
    branches P (is_empty (trim_space s.url)) h
      (branches P (outranks (size_rank lower s.name) c) (trim_space-trim_space s.url) h)

choose_size-IsTrimmed :
    (lower : ℕ → ℕ) (c : Chosen) (sizes : List ResourceSize)
    → IsTrimmed (chosen_url c)
    → IsTrimmed (chosen_url (choose_size lower c sizes))
unfolding choose_size
choose_size-IsTrimmed lower c [] h = h
choose_size-IsTrimmed lower c (s ∷ ss) h =
    choose_size-IsTrimmed lower (size_step lower c s) ss (size_step-IsTrimmed lower c s h)

media_fallback_url-IsTrimmed :
    (lower : ℕ → ℕ) (meta : PublicResource) → IsTrimmed (media_fallback_url lower meta)
unfolding media_fallback_url choose_resource_size_url
media_fallback_url-IsTrimmed lower meta =
    branches IsTrimmed (can_use_media_fallback lower meta)
      (branches IsTrimmed (is_empty (choose_resource_size_url lower meta))
        (trim_space-trim_space meta.preview)
        (choose_size-IsTrimmed lower none meta.sizes IsTrimmed-nil))
      IsTrimmed-nil

module _ (lib : Library) (client : Client) (service : Service) (public_url : Text) where
  resolve_download_url-GivesTrimmed :
      (path : Text) → Gives IsTrimmed (resolve_download_url lib client service public_url path)
  unfolding resolve_download_url
  resolve_download_url-GivesTrimmed path =
      ok_answer-GivesTrimmed (codes "yadisk.resolve_download_url")
        (codes "unexpected yandex disk api status") _
        (service (get (download_endpoint lib client service public_url path)))
        (λ response.
          trimmed-GivesTrimmed (
            decoded (codes "yadisk.resolve_download_url")
              (lib.decode_download response.body.bytes)))

  no_href-GivesUrl :
      (op details : Text) (meta : PublicResource)
      → GivesUrl (no_href lib client service public_url op details meta)
  unfolding no_href
  no_href-GivesUrl op details meta =
      branches GivesUrl (meta.resource_type == codes "dir") (failed-Gives IsUrl _)
        (elim (detect_read_without_download lib client service public_url)
          as (λ d. GivesUrl (elim d [
            | some e ↦ failed (wrap (op ++ codes ".detect_rights") e)
            | none ↦ failed (
                new_error (op ++ codes ".empty_href") io
                  (codes "yandex disk api returned empty href" ++ details))
          ])) [ none ↦ failed-Gives IsUrl _ | some e ↦ failed-Gives IsUrl _ ])

  -- Whatever the service answers, a URL that `ResolvePublicDownloadURL` returns is not empty and has
  -- no white space around it.
  pub resolve_public_download_url-GivesUrl :
      GivesUrl (resolve_public_download_url lib client service public_url)
  unfolding resolve_public_download_url
  resolve_public_download_url-GivesUrl =
      try_href-GivesUrl _ (resolve_download_url lib client service public_url []) _
        (resolve_download_url-GivesTrimmed [])
        (after_resource-GivesUrl (public_op ++ codes ".get_resource")
          (get_public_resource lib client service public_url [] 0 0) _
          (λ meta.
            let rest = or_url-GivesUrl _ _ (trim_space-trim_space meta.file) (
              or_url-GivesUrl _ _ (media_fallback_url-IsTrimmed lib.lower meta)
                (no_href-GivesUrl public_op [] meta)) in
            branches GivesUrl (is_empty meta.path) rest (
              try_href-GivesUrl _ (resolve_download_url lib client service public_url meta.path) _
                (resolve_download_url-GivesTrimmed meta.path) rest)))

  from_metadata-GivesUrl :
      (meta : PublicResource) → GivesUrl (from_metadata lib client service public_url meta)
  unfolding from_metadata
  from_metadata-GivesUrl meta =
      let rest =
        or_url-GivesUrl _ _ (media_fallback_url-IsTrimmed lib.lower meta)
          (no_href-GivesUrl file_op (file_details lib meta) meta) in
      branches GivesUrl (is_empty meta.path) rest (
        after_resource-GivesUrl (file_op ++ codes ".get_resource")
          (get_public_resource lib client service public_url meta.path 0 0) _
          (λ file_meta.
            or_url-GivesUrl _ _ (trim_space-trim_space file_meta.file)
              (or_url-GivesUrl _ _ (media_fallback_url-IsTrimmed lib.lower file_meta) rest)))

  pub resolve_file_direct_url-GivesUrl :
      (meta : PublicResource)
      → GivesUrl (resolve_file_direct_url lib client service public_url meta)
  unfolding resolve_file_direct_url
  resolve_file_direct_url-GivesUrl meta =
      let root =
        try_href-GivesUrl _ (resolve_download_url lib client service public_url []) _
          (resolve_download_url-GivesTrimmed [])
          (or_url-GivesUrl _ _ (trim_space-trim_space meta.file) (from_metadata-GivesUrl meta)) in
      branches GivesUrl (is_empty meta.path) root (
        try_href-GivesUrl _ (resolve_download_url lib client service public_url meta.path) _
          (resolve_download_url-GivesTrimmed meta.path) root)

-- Whatever the service answers, a URL that `ResolvePublicFileDownloadURL` returns for a file is not
-- empty and has no white space around it, so that it can be requested.
pub resolve_public_file_download_url-GivesUrl :
    (lib : Library) (client : Client) (first second : Service) (public_url : Text)
    (file : PublicDownload)
    → GivesUrl (resolve_public_file_download_url lib client first second public_url file)
unfolding resolve_public_file_download_url
resolve_public_file_download_url-GivesUrl lib client first second public_url file =
    or_url-GivesUrl _ _ (trim_space-trim_space file.direct_url) (
      after_resource-GivesUrl (codes "yadisk.resolve_public_file_download_url.get_resource")
        (get_public_resource lib client first public_url file.path 0 0) _
        (λ meta.
          wrapped-GivesUrl _ _
            (resolve_file_direct_url-GivesUrl lib client second public_url meta)))
