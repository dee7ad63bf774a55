-- ===== src/Yadisk/Resolve.antt =====
-- The chains of pkg/yadisk/client.go that look for a download URL: ResolvePublicDownloadURL,
-- resolveFileDirectURL and ResolvePublicFileDownloadURL.
pub mod Urls
pub mod Fallback
use tgdownloader.Prelude.{
  is_empty, ℕ, Bool, true, false, Option, none, some, List, [], ◌∷◌, ◌++◌, Text, ◌==◌, nat_eq,
  list_eq, if◌then◌else◌, codes, ℤ,
}
use tgdownloader.Renderer.Sanitize.{trim_space}
use tgdownloader.Apperr.{Error, io, new_error, wrap}
use tgdownloader.Yadisk.Media.{PublicResource, ResourceAnswer, media_fallback_url}
use tgdownloader.Yadisk.Http.{
  Result, failed, ok, Library, Client, Service, resolve_download_url, get_public_resource,
  detect_read_without_download,
}

-- `PublicDownload`.
pub record PublicDownload : Type 0 where
  pub name : Text
  pub size : ℤ
  pub direct_url : Text
  pub path : Text
  pub relative_dir : Text

-- An error ends the chain, an empty URL goes on.
abbrev pub try_href : Text → Result Text → Result Text → Result Text
try_href op (failed e) rest = failed (wrap op e)
try_href op (ok href) rest = if is_empty href then rest else ok href

abbrev pub or_url : Text → Result Text → Result Text
or_url url rest = if is_empty url then rest else ok url

abbrev pub after_resource {ℓ} :
    {A : Type ℓ} → Text → Result ResourceAnswer → (PublicResource → Result A) → Result A
after_resource op (failed e) next = failed (wrap op e)
after_resource op (ok answer) next = next answer.resource

abbrev pub wrapped : Text → Result Text → Result Text
wrapped op (failed e) = failed (wrap op e)
wrapped op (ok url) = ok url

abbrev pub public_op : Text
public_op = codes "yadisk.resolve_public_download_url"

abbrev pub file_op : Text
file_op = codes "yadisk.resolve_file_direct_url"

abbrev pub file_details : Library → PublicResource → Text
file_details lib meta =
    codes " (type="
    ++ lib.quote meta.resource_type
    ++ codes " name="
    ++ lib.quote meta.name
    ++ codes " path="
    ++ lib.quote meta.path
    ++ codes ")"

-- The ends of both chains: the name of the chain, and the text that follows in its last error.
module _ (lib : Library) (client : Client) (service : Service) (public_url : Text) where
  unfoldable pub no_href : Text → Text → PublicResource → Result Text
  no_href op details meta =
      if meta.resource_type == codes "dir"
      then failed (
          new_error (op ++ codes ".empty_href_directory") io (
            codes "yandex disk api returned empty href (public resource is a directory: "
            ++ lib.quote meta.name
            ++ codes ")"))
      else elim (detect_read_without_download lib client service public_url) [
        | some e ↦ failed (wrap (op ++ codes ".detect_rights") e)
        | none ↦ failed (
            new_error (op ++ codes ".empty_href") io
              (codes "yandex disk api returned empty href" ++ details))
      ]

  unfoldable pub resolve_public_download_url : Result Text
  unfolding no_href
  resolve_public_download_url =
      try_href (public_op ++ codes ".resolve_download")
        (resolve_download_url lib client service public_url [])
        (after_resource (public_op ++ codes ".get_resource")
          (get_public_resource lib client service public_url [] 0 0)
          (λ meta.
            let rest =
              or_url (trim_space meta.file)
                (or_url (media_fallback_url lib.lower meta) (no_href public_op [] meta)) in
            if is_empty meta.path
            then rest
            else try_href (public_op ++ codes ".resolve_download_by_path")
                (resolve_download_url lib client service public_url meta.path) rest))

  -- The URLs in the metadata that is fetched by path, and then in the metadata at hand.
  unfoldable pub from_metadata : PublicResource → Result Text
  unfolding no_href
  from_metadata meta =
      let rest =
        or_url (media_fallback_url lib.lower meta) (no_href file_op (file_details lib meta) meta) in
      if is_empty meta.path
      then rest
      else after_resource (file_op ++ codes ".get_resource")
          (get_public_resource lib client service public_url meta.path 0 0)
          (λ file_meta.
            or_url (trim_space file_meta.file)
              (or_url (media_fallback_url lib.lower file_meta) rest))

  unfoldable pub resolve_file_direct_url : PublicResource → Result Text
  unfolding from_metadata
  resolve_file_direct_url meta =
      let root =
        try_href (file_op ++ codes ".resolve_root")
          (resolve_download_url lib client service public_url [])
          (or_url (trim_space meta.file) (from_metadata meta)) in
      if is_empty meta.path
      then root
      else try_href (file_op ++ codes ".resolve_by_path")
          (resolve_download_url lib client service public_url meta.path) root

-- The metadata is fetched before the chain begins, so the service may have changed between.
module _ (lib : Library) (client : Client) (first second : Service) where
  unfoldable pub resolve_public_file_download_url : Text → PublicDownload → Result Text
  unfolding resolve_file_direct_url
  resolve_public_file_download_url public_url file = or_url (trim_space file.direct_url) (
      after_resource (codes "yadisk.resolve_public_file_download_url.get_resource")
        (get_public_resource lib client first public_url file.path 0 0)
        (λ meta.
          wrapped (codes "yadisk.resolve_public_file_download_url.resolve_file_url")
            (resolve_file_direct_url lib client second public_url meta)))
