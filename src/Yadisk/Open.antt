-- ===== src/Yadisk/Open.antt =====
-- openDirectFileAt and its callers in pkg/yadisk/client.go, and FilenameFromResponse. An offset is not
-- negative here, so the check of OpenDirectFileRange does not apply.
use tgdownloader.Prelude.{
  is_empty, ℕ, ◌≡◌, ◌⊎◌, Bool, ◌&&◌, ◌||◌, Option, none, some, [], ◌∷◌, Text, ◌==◌, nat_eq, list_eq,
  ltb, if◌then◌else◌, codes, ℤ, arith,
}
use tgdownloader.Renderer.Sanitize.{trim_space}
use tgdownloader.Downloader.FilePath.{dot, slash}
use tgdownloader.Apperr.{config, network, internal, io, new_error, wrap}
use tgdownloader.Yadisk.Names.{sanitize_filename, base, download_bin}
use tgdownloader.Yadisk.Media.{resolve_download_size}
use tgdownloader.Yadisk.Http.{
  Result, failed, ok, Library, Client, Body, Response, Request, Exchange, bad_request, unreachable,
  answered, Service, format_http_error,
}
use tgdownloader.Yadisk.Resolve.{PublicDownload}
use tgdownloader.Yadisk.Directory.{
  ResolvedPublicResource, resolve_public_resource_downloads, dir_type,
}

pub record PublicFile : Type 0 where
  pub name : Text
  pub size : ℤ
  pub offset : ℕ
  pub direct_url : Text
  pub body : Body

abbrev fallback_name : Text → Text
fallback_name fallback =
    if is_empty (trim_space fallback)
    then sanitize_filename download_bin
    else sanitize_filename (trim_space fallback)

abbrev name_from_url : Option Text → Text → Text
name_from_url none fallback = fallback_name fallback
name_from_url (some url_path) fallback =
    let name = base url_path in
    if is_empty name || name == slash ∷ [] || name == dot ∷ []
    then fallback_name fallback
    else sanitize_filename name

-- `Response.disposition` is the parameter `filename` of a header that parses.
unfoldable pub filename_from_response : Response → Text → Text
filename_from_response response fallback = elim response.disposition [
  | none ↦ name_from_url response.url_path fallback
  | some filename ↦
      if is_empty (trim_space filename)
      then name_from_url response.url_path fallback
      else sanitize_filename (trim_space filename)
]

abbrev pub is_success : Response → Bool
is_success response = response.status_code == 200 || response.status_code == 206

abbrev unexpected_status : ℕ → Text
unexpected_status offset =
    if offset == 0
    then codes "unexpected yandex disk download status"
    else codes "unexpected yandex disk ranged download status"

abbrev status_op : ℕ → Text
status_op offset =
    if offset == 0
    then codes "yadisk.open_direct_file.status"
    else codes "yadisk.open_direct_file.range_status"

-- The offset that the body starts at: a server may ignore the range.
abbrev pub actual_offset : ℕ → Response → ℕ
actual_offset offset response = if ltb 0 offset && response.status_code == 206 then offset else 0

abbrev pub opened_file : PublicDownload → ℕ → Response → PublicFile
opened_file file offset response = record {
  name = filename_from_response response file.name;
  size = resolve_download_size file.size response.content_length offset;
  offset = actual_offset offset response;
  direct_url = trim_space file.direct_url;
  body = response.body;
}

abbrev pub opened : PublicDownload → ℕ → Exchange → Result PublicFile
opened file offset (bad_request e) =
    failed (new_error (codes "yadisk.open_direct_file.new_request") internal e)
opened file offset (unreachable e) =
    failed (new_error (codes "yadisk.open_direct_file.http") network e)
opened file offset (answered response) =
    if is_success response
    then ok (opened_file file offset response)
    else failed (
        new_error (status_op offset) network
          (format_http_error (unexpected_status offset) response))

abbrev pub range_request : PublicDownload → ℕ → Request
range_request file offset = record {
  url = trim_space file.direct_url;
  range = if ltb 0 offset then some offset else none;
  payload = none;
}

unfoldable pub open_direct_file_at : Service → PublicDownload → ℕ → Result PublicFile
open_direct_file_at service file offset =
    if is_empty (trim_space file.direct_url)
    then failed
        (new_error (codes "yadisk.open_direct_file.direct_url") config (codes "empty direct url"))
    else opened file offset (service (range_request file offset))

-- `OpenDirectFile` and `OpenDirectFileRange`.
abbrev pub open_direct_file : Service → PublicDownload → Result PublicFile
open_direct_file service file = open_direct_file_at service file 0

abbrev pub open_direct_file_range : Service → PublicDownload → ℕ → Result PublicFile
open_direct_file_range service file offset = open_direct_file_at service file offset

abbrev open_first : Service → ResolvedPublicResource → Result PublicFile
open_first service resource = elim resource.files [
  | [] ↦ failed (
      new_error (codes "yadisk.open_public_file.empty_files") io
        (codes "yandex disk resource has no files"))
  | file ∷ files ↦
      if resource.resource_type == dir_type
      then failed (
          new_error (codes "yadisk.open_public_file.directory") io
            (codes "yandex disk public resource is a directory"))
      else elim (open_direct_file service file) [
        | failed e ↦ failed (wrap (codes "yadisk.open_public_file.open_direct") e)
        | ok f ↦ ok f
      ]
]

module _ (lib : Library) (client : Client) (service : Service) where
  unfoldable pub open_public_file : ℕ → ℕ → Text → Result PublicFile
  unfolding resolve_public_resource_downloads
  open_public_file depth pages public_url =
      elim (resolve_public_resource_downloads lib client service depth pages public_url) [
        | failed e ↦ failed (wrap (codes "yadisk.open_public_file.resolve_resource") e)
        | ok resource ↦ open_first service resource
      ]

opened-offset :
    (file : PublicDownload) (offset : ℕ) (e : Exchange) (f : PublicFile)
    → opened file offset e ≡ ok f
    → (f.offset ≡ 0) ⊎ (f.offset ≡ offset)
opened-offset file offset (bad_request e) f h = cc
opened-offset file offset (unreachable e) f h = cc
opened-offset file offset (answered response) f h = ground (arith, h)

-- The body starts at the offset that was asked for, or at the start of the file.
pub open_direct_file_at-offset :
    (service : Service) (file : PublicDownload) (offset : ℕ) (f : PublicFile)
    → open_direct_file_at service file offset ≡ ok f
    → (f.offset ≡ 0) ⊎ (f.offset ≡ offset)
unfolding open_direct_file_at
open_direct_file_at-offset service file offset f h =
    let e = service (range_request file offset) in ground (arith, opened-offset file offset e f, h)
