-- ===== src/Yadisk/Resolve/Fallback.antt =====
-- Where the chain finds no URL: the texts of its errors, and what `ShouldUseHLSFallback` reads in them.
use tgdownloader.Prelude.{
  is_empty, ℕ, ◌≡◌, ◌⊎◌, inl, inr, refl, ap, sym, ◌∙◌, true, ◌||◌, Option, none, some, List, [],
  ◌∷◌, ◌++◌, Text, branches, codes, ◌==◌, list_eq, nat_eq, map, append_assoc, arith, ltb, leb, ◌*◌,
  if◌then◌else◌,
}
use tgdownloader.Renderer.Sanitize.{trim_space}
use tgdownloader.Downloader.FilePath.{has_prefix}
use tgdownloader.Cmd.History.Sensitive.{contains}
use tgdownloader.Apperr.{Error, Kind, wrap, new_error, error_text, io, kind_text, known_kind, auth}
use tgdownloader.Yadisk.Names.{
  to_lower, is_video_file, should_use_hls_fallback, empty_href_text, forbids_text,
}
use tgdownloader.Yadisk.Media.{PublicResource, ResourceAnswer, media_fallback_url}
use tgdownloader.Yadisk.Http.{
  Result, failed, ok, Library, Client, Service, Response, resolve_download_url, get_public_resource,
  detect_read_without_download, detect_in_page, forbidden, forbids_download, get, read_limited,
  bad_request, unreachable, answered,
}
use tgdownloader.Yadisk.Resolve.{
  no_href, from_metadata, resolve_file_direct_url, file_op, file_details,
}

-- The text stands in the other.
abbrev pub HasPart : Text → Text → Type 0
HasPart t m = (a : Text) × ((b : Text) × (m ≡ a ++ (t ++ b)))

has_prefix-append : (t b : Text) → has_prefix (t ++ b) t ≡ true
unfolding has_prefix
has_prefix-append [] b = refl
has_prefix-append (c ∷ t) b = ground (arith, has_prefix-append t b)

contains-append : (a t b : Text) → contains (a ++ (t ++ b)) t ≡ true
unfolding contains has_prefix
contains-append [] [] [] = refl
contains-append [] [] (c ∷ b) = refl
contains-append [] (c ∷ t) b = let p = has_prefix-append (c ∷ t) b in ground (arith, p)
contains-append (c ∷ a) t b = let p = contains-append a t b in ground (arith, p)

map-append {ℓ κ} :
    {A : Type ℓ} {B : Type κ} (f : A → B) (xs ys : List A) → map f (xs ++ ys) ≡ map f xs ++ map f ys
map-append f [] ys = refl
map-append f (x ∷ xs) ys = ap (f x ∷◌) (map-append f xs ys)

contains-to_lower :
    (lower : ℕ → ℕ) (t m : Text)
    → to_lower lower t ≡ t
    → HasPart t m
    → contains (to_lower lower m) t ≡ true
unfolding to_lower
contains-to_lower lower t m keeps (a, (b, e)) =
    let split : map lower m ≡ map lower a ++ (t ++ map lower b) =
      ap (map lower) e
      ∙ map-append lower a (t ++ b)
      ∙ ap (map lower a ++◌) (map-append lower t b ∙ ap (λ x. x ++ map lower b) keeps) in
    rw split (contains-append (map lower a) t (map lower b))

HasPart-append : (x t m : Text) → HasPart t m → HasPart t (x ++ m)
HasPart-append x t m (a, (b, e)) = (x ++ a, (b, ap (x ++◌) e ∙ sym (append_assoc x a (t ++ b))))

new_error-HasPart :
    (op : Text) (kind : Kind) (t m : Text) → HasPart t m → HasPart t (new_error op kind m).message
unfolding new_error error_text
new_error-HasPart op kind t m h =
    HasPart-append (op ++ codes " (" ++ kind_text kind ++ codes "): ") t m h

wrap-HasPart : (op t : Text) (e : Error) → HasPart t e.message → HasPart t (wrap op e).message
unfolding wrap
wrap-HasPart op t e h = new_error-HasPart op (known_kind e.kind) t e.message h

-- An error that mentions one of the two texts makes a video fall back on its streams, also wrapped.
abbrev pub Mentions : Text → Type 0
Mentions m = HasPart empty_href_text m ⊎ HasPart forbids_text m

module _ (lower : ℕ → ℕ) where
  -- The texts are in lower case.
  pub record KeepsLower : Type 0 where
    pub empty_href : to_lower lower empty_href_text ≡ empty_href_text
    pub forbids : to_lower lower forbids_text ≡ forbids_text

  Mentions-fallback :
      (keeps : KeepsLower) (name m : Text)
      → is_video_file lower name ≡ true
      → Mentions m
      → should_use_hls_fallback lower name (some m) ≡ true
  unfolding should_use_hls_fallback
  Mentions-fallback keeps name m v (inl h) =
      let p = contains-to_lower lower empty_href_text m keeps.empty_href h in ground (arith, v, p)
  Mentions-fallback keeps name m v (inr h) =
      let p = contains-to_lower lower forbids_text m keeps.forbids h in ground (arith, v, p)

wrap-Mentions : (op : Text) (e : Error) → Mentions e.message → Mentions (wrap op e).message
wrap-Mentions op e (inl h) = inl (wrap-HasPart op empty_href_text e h)
wrap-Mentions op e (inr h) = inr (wrap-HasPart op forbids_text e h)

empty_href-Mentions :
    (op : Text) (details : Text)
    → Mentions (new_error op io (codes "yandex disk api returned empty href" ++ details)).message
empty_href-Mentions op details =
    inl (
      new_error-HasPart op io empty_href_text _
        (codes "yandex disk api returned ", (details, refl)))

-- The result is an error that mentions one of the texts.
abbrev pub Fails : Result Text → Type 0
Fails r = (e : Error) × ((r ≡ failed e) × Mentions e.message)

forbidden-Mentions : Mentions forbidden.message
forbidden-Mentions = inr (
    new_error-HasPart (codes "yadisk.detect_read_without_download") auth forbids_text _
      (codes "yandex disk public link ", (codes " (rights include read_without_download)", refl)))

abbrev MentionsIf : Option Error → Type 0
MentionsIf none = Unit
MentionsIf (some e) = Mentions e.message

module _ (lib : Library) (client : Client) (service : Service) (public_url : Text) where
  detect_in_page-MentionsIf :
      (response : Response) → MentionsIf (detect_in_page lib client service response)
  unfolding detect_in_page
  detect_in_page-MentionsIf response =
      branches MentionsIf (ltb response.status_code 200 || leb 300 response.status_code) tt
        (elim (read_limited (2 * 1024 * 1024) response.body)
          as (λ o. MentionsIf (elim o [
            | none ↦ none
            | some body ↦
                if forbids_download (to_lower lib.lower body) then some forbidden else none
          ])) [
            | none ↦ tt
            | some body ↦
                branches MentionsIf (forbids_download (to_lower lib.lower body)) forbidden-Mentions
                  tt
          ])

  detect-MentionsIf : MentionsIf (detect_read_without_download lib client service public_url)
  unfolding detect_read_without_download
  detect-MentionsIf =
      branches MentionsIf (is_empty (trim_space public_url)) tt
        (elim (service (get (trim_space public_url)))
          as (λ o. MentionsIf (elim o [
            | bad_request e ↦ none
            | unreachable e ↦ none
            | answered response ↦ detect_in_page lib client service response
          ])) [
            | bad_request e ↦ tt
            | unreachable e ↦ tt
            | answered response ↦ detect_in_page-MentionsIf response
          ])

  no_href-Fails :
      (op details : Text) (meta : PublicResource)
      → Fails (no_href lib client service public_url op details meta)
  unfolding no_href
  no_href-Fails op details meta =
      branches Fails (meta.resource_type == codes "dir")
        (
          _,
          (
            refl,
            empty_href-Mentions (op ++ codes ".empty_href_directory")
                (codes " (public resource is a directory: " ++ lib.quote meta.name ++ codes ")"),
          ),
        )
        (by_page (detect_read_without_download lib client service public_url) detect-MentionsIf)
    where
      by_page :
          (d : Option Error)
          → MentionsIf d
          → Fails (elim d [
            | some e ↦ failed (wrap (op ++ codes ".detect_rights") e)
            | none ↦ failed (
                new_error
                  (op ++ codes ".empty_href")
                  io
                  (codes "yandex disk api returned empty href" ++ details))
          ])
      by_page none h = (_, (refl, empty_href-Mentions (op ++ codes ".empty_href") details))
      by_page (some e) h = (_, (refl, wrap-Mentions (op ++ codes ".detect_rights") e h))

  -- Nothing in the answers can be used as a URL: of every request for a download URL, of the metadata
  -- at hand, and of the metadata under its path.
  pub record NoUrls (meta : PublicResource) : Type 0 where
    pub no_href_of : (path : Text) → resolve_download_url lib client service public_url path ≡ ok []
    pub no_file : trim_space meta.file ≡ []
    pub no_media : media_fallback_url lib.lower meta ≡ []
    pub answer : ResourceAnswer
    pub answered_with : get_public_resource lib client service public_url meta.path 0 0 ≡ ok answer
    pub answer_no_file : trim_space answer.resource.file ≡ []
    pub answer_no_media : media_fallback_url lib.lower answer.resource ≡ []

  -- Where the service answers every request and no answer has a URL, the chain ends in an error that
  -- is read as a reason to fall back: also wrapped as `ResolvePublicFileDownloadURL` does it, it
  -- makes `ShouldUseHLSFallback` hold of every name of a video.
  pub resolve_file_direct_url-fallback :
      (keeps : KeepsLower lib.lower) (meta : PublicResource) (op name : Text)
      → NoUrls meta
      → is_video_file lib.lower name ≡ true
      → (e : Error) × ((resolve_file_direct_url lib client service public_url meta ≡ failed e)
          × (should_use_hls_fallback lib.lower name (some (wrap op e).message) ≡ true))
  unfolding resolve_file_direct_url from_metadata
  resolve_file_direct_url-fallback keeps meta op name none_of v =
      let (e, (q, m)) = no_href-Fails file_op (file_details lib meta) meta in
      (
        e,
        (
          rw
              (
                none_of.no_href_of [],
                none_of.no_href_of meta.path,
                none_of.no_file,
                none_of.no_media,
                none_of.answered_with,
                none_of.answer_no_file,
                none_of.answer_no_media,
              )
              (branches (λ r. r ≡ failed e) (is_empty meta.path)
                (branches (λ r. r ≡ failed e) (is_empty meta.path) q q)
                (branches (λ r. r ≡ failed e) (is_empty meta.path) q q)),
          Mentions-fallback lib.lower keeps name (wrap op e).message v (wrap-Mentions op e m),
        ),
      )
