-- ===== src/Yadisk/Names.antt =====
-- pkg/yadisk/utils.go and the file names of pkg/yadisk/client.go (sanitizeFilename, sizeRank).
-- `strings.ToLower` maps the runes one by one; the map of a rune is a parameter.
use tgdownloader.Prelude.{
  is_empty, ℕ, Bool, false, ◌&&◌, ◌||◌, not, Option, none, some, List, [], ◌∷◌, ◌++◌, Text, ◌==◌,
  nat_eq, list_eq, any, map, if◌then◌else◌, codes,
}
use mathlib.Core.List.{reverse}
use tgdownloader.Renderer.Sanitize.{trim_space}
use tgdownloader.Downloader.FilePath.{ext, segments, join_segments, clean, slash}
use tgdownloader.Cmd.History.Sensitive.{contains}

abbrev pub backslash : ℕ
backslash = 92

abbrev pub underscore : ℕ
underscore = 95

-- `strings.ReplaceAll` of one rune by another.
unfoldable pub replace_all : ℕ → ℕ → Text → Text
replace_all old new [] = []
replace_all old new (c ∷ cs) = (if c == old then new else c) ∷ replace_all old new cs

abbrev pub download_bin : Text
download_bin = codes "download.bin"

unfoldable pub sanitize_filename : Text → Text
unfolding replace_all
sanitize_filename filename =
    let trimmed = trim_space filename in
    if is_empty trimmed
    then download_bin
    else replace_all backslash underscore (replace_all slash underscore trimmed)

-- The last element that is not empty, from the elements in reverse.
abbrev last_named : List Text → Text
last_named [] = slash ∷ []
last_named ([] ∷ ss) = last_named ss
last_named ((c ∷ cs) ∷ ss) = c ∷ cs

-- `path.Base`: "." for an empty path, and "/" for one of slashes only.
unfoldable pub base : Text → Text
unfolding segments
base [] = codes "."
base (c ∷ cs) = last_named (reverse (segments (c ∷ cs)))

-- `path.Dir`: what stands before the last slash, cleaned.
abbrev pub with_slash : List Text → Text
with_slash [] = []
with_slash (s ∷ ss) = join_segments (reverse ss) ++ (if is_empty ss then [] else slash ∷ [])

unfoldable pub dir : Text → Text
unfolding segments join_segments
dir p = clean (with_slash (reverse (segments p)))

abbrev pub video_extensions : List Text
video_extensions = map codes (
    ".mp4" ∷ ".mov" ∷ ".avi" ∷ ".mkv" ∷ ".wmv" ∷ ".flv" ∷ ".webm" ∷ ".m4v" ∷ ".mpg" ∷ ".mpeg"
    ∷ ".3gp" ∷ [])

abbrev pub system_files : List Text
system_files = codes "thumbs.db" ∷ codes ".ds_store" ∷ codes "desktop.ini" ∷ []

abbrev pub empty_href_text : Text
empty_href_text = codes "empty href"

abbrev pub forbids_text : Text
forbids_text = codes "forbids file download"

-- `BuildSubdirectories`, on the metadata's values where they are of the types it looks for.
unfoldable pub build_subdirectories : Option Text → Option (List Text) → Bool → List Text
build_subdirectories peer hashtags save_by_hashtags =
    elim peer [ none ↦ [] | some p ↦ if is_empty p then [] else p ∷ [] ]
    ++ (if save_by_hashtags then elim hashtags [ none ↦ [] | some tags ↦ tags ] else [])

module _ (lower : ℕ → ℕ) where
  unfoldable pub to_lower : Text → Text
  to_lower = map lower

  unfoldable pub is_video_file : Text → Bool
  unfolding to_lower
  is_video_file name = any (λ e. e == to_lower (ext (trim_space name))) video_extensions

  unfoldable pub is_skippable_yandex_file_name : Text → Bool
  unfolding to_lower
  is_skippable_yandex_file_name name =
      let normalized = trim_space (replace_all backslash slash name) in
      not (is_empty normalized) && any (λ f. f == to_lower (base normalized)) system_files

  -- An error is given by its text.
  unfoldable pub is_skippable_yandex_item : Text → Option Text → Bool
  unfolding to_lower
  is_skippable_yandex_item name none = false
  is_skippable_yandex_item name (some error) =
      contains (to_lower error) empty_href_text && is_skippable_yandex_file_name name

  unfoldable pub should_use_hls_fallback : Text → Option Text → Bool
  unfolding to_lower
  should_use_hls_fallback name none = false
  should_use_hls_fallback name (some error) =
      is_video_file name
      && (contains (to_lower error) forbids_text || contains (to_lower error) empty_href_text)

  -- The rank of a preview's size.
  unfoldable pub size_rank : Text → ℕ
  unfolding to_lower
  size_rank name =
      let n = to_lower (trim_space name) in
      if n == codes "original"
      then 110
      else if n == codes "orig"
      then 100
      else if n == codes "xxxl"
      then 90
      else if n == codes "xxl"
      then 80
      else if n == codes "xl"
      then 70
      else if n == codes "x"
      then 60
      else if n == codes "l"
      then 50
      else if n == codes "m"
      then 40
      else if n == codes "s"
      then 30
      else if n == codes "xs"
      then 20
      else 10
