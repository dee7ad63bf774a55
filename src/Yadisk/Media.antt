-- ===== src/Yadisk/Media.antt =====
-- The metadata of a resource in pkg/yadisk/client.go, and what is chosen from it: a URL among the
-- previews, a stream among the qualities of a video, the size of a download.
pub mod Best
use tgdownloader.Prelude.{
  is_empty, ℕ, zero, suc, Bool, true, false, ◌&&◌, ◌||◌, not, Option, none, some, List, [], ◌∷◌,
  Text, ◌==◌, nat_eq, list_eq, any, map, ltb, if◌then◌else◌, codes, ℤ, is_positive,
}
use tgdownloader.Renderer.Sanitize.{trim_space}
use tgdownloader.Downloader.FilePath.{has_prefix, ext}
use tgdownloader.Yadisk.Names.{to_lower, size_rank}

pub record ResourceSize : Type 0 where
  pub url : Text
  pub name : Text
  pub size : Text

-- `publicResourceResponse` without `_embedded`, which is read of the answer to a listing only.
pub record PublicResource : Type 0 where
  pub resource_type : Text
  pub name : Text
  pub path : Text
  pub file : Text
  pub mime_type : Text
  pub preview : Text
  pub sizes : List ResourceSize
  pub size : ℤ

-- `Limit` and `Offset` are not read. `Total` is.
pub record PublicEmbedded : Type 0 where
  pub items : List PublicResource
  pub total : ℤ

-- An answer with its list of items.
pub record ResourceAnswer : Type 0 where
  pub resource : PublicResource
  pub embedded : Option PublicEmbedded

pub record VideoStream : Type 0 where
  pub dimension : Text
  pub width : ℕ
  pub height : ℕ
  pub url : Text

abbrev pub image_extensions : List Text
image_extensions = map codes (
    ".jpg" ∷ ".jpeg" ∷ ".png" ∷ ".gif" ∷ ".webp" ∷ ".bmp" ∷ ".tif" ∷ ".tiff" ∷ ".heic" ∷ ".avif"
    ∷ [])

abbrev pub is_adaptive : VideoStream → Bool
is_adaptive s = s.dimension == codes "adaptive"

-- One round of the loop of `ChooseBestVideoStream`.
abbrev pub better_stream : VideoStream → VideoStream → VideoStream
better_stream best s =
    if is_adaptive s then best else if is_adaptive best || ltb best.height s.height then s else best

unfoldable pub best_stream : VideoStream → List VideoStream → VideoStream
best_stream best [] = best
best_stream best (s ∷ ss) = best_stream (better_stream best s) ss

unfoldable pub choose_best_video_stream : List VideoStream → Option VideoStream
unfolding best_stream
choose_best_video_stream [] = none
choose_best_video_stream (s ∷ ss) = some (best_stream s ss)

-- `resolveDownloadSize`, at an offset that is not negative.
unfoldable pub resolve_download_size : ℤ → ℤ → ℕ → ℤ
resolve_download_size file_size content_length offset =
    if offset == 0 && is_positive content_length
    then content_length
    else if is_positive file_size
    then file_size
    else content_length

-- What the loop of `chooseResourceSizeURL` has chosen: `none` is the rank -1.
abbrev pub Chosen : Type 0
Chosen = Option (ℕ × Text)

abbrev pub outranks : ℕ → Chosen → Bool
outranks r none = true
outranks r (some (best, u)) = ltb best r

abbrev pub chosen_url : Chosen → Text
chosen_url none = []
chosen_url (some (r, u)) = u

module _ (lower : ℕ → ℕ) where
  unfoldable pub size_step : Chosen → ResourceSize → Chosen
  size_step best s =
      let u = trim_space s.url in
      let r = size_rank lower s.name in
      if is_empty u then best else if outranks r best then some (r, u) else best

  unfoldable pub choose_size : Chosen → List ResourceSize → Chosen
  unfolding size_step
  choose_size best [] = best
  choose_size best (s ∷ ss) = choose_size (size_step best s) ss

  unfoldable pub choose_resource_size_url : PublicResource → Text
  unfolding choose_size
  choose_resource_size_url meta = chosen_url (choose_size none meta.sizes)

  unfoldable pub can_use_media_fallback : PublicResource → Bool
  can_use_media_fallback meta =
      let mime_type = to_lower lower (trim_space meta.mime_type) in
      if has_prefix mime_type (codes "image/")
      then true
      else if has_prefix mime_type (codes "video/")
      then false
      else any (λ e. e == to_lower lower (ext (trim_space meta.name))) image_extensions

  -- The URL that the fallback on previews gives, empty where there is none: the two tests that the
  -- chains of `ResolvePublicDownloadURL` and `resolveFileDirectURL` share.
  unfoldable pub media_fallback_url : PublicResource → Text
  unfolding choose_resource_size_url can_use_media_fallback
  media_fallback_url meta =
      if can_use_media_fallback meta
      then if is_empty (choose_resource_size_url meta)
        then trim_space meta.preview
        else choose_resource_size_url meta
      else []

  unfoldable pub direct_url_from_resource_meta : PublicResource → Text
  unfolding choose_resource_size_url can_use_media_fallback
  direct_url_from_resource_meta meta =
      if not (is_empty (trim_space meta.file))
      then trim_space meta.file
      else if not (can_use_media_fallback meta)
      then []
      else if not (is_empty (choose_resource_size_url meta))
      then choose_resource_size_url meta
      else trim_space meta.preview
