-- ===== src/Yadisk/Directory.antt =====
-- listDirectoryItems, collectDirectoryFiles and ResolvePublicResourceDownloads of
-- pkg/yadisk/client.go. The pages of a directory and the depth of its tree are read on fuel: the
-- service decides where they end.
pub mod Entry
pub mod Tree
use tgdownloader.Prelude.{
  is_empty, ℕ, zero, suc, ◌+◌, Bool, true, false, ◌&&◌, ◌||◌, Option, none, some, List, [], ◌∷◌,
  ◌++◌, Text, ◌==◌, nat_eq, list_eq, length, leb, if◌then◌else◌, codes, ℤ, pos, negsuc,
}
use tgdownloader.Renderer.Sanitize.{trim_space}
use tgdownloader.Downloader.FilePath.{trim_prefix, dot}
use tgdownloader.Apperr.{Error, wrap, plain_error}
use tgdownloader.Yadisk.Names.{
  sanitize_filename, base, dir, is_skippable_yandex_file_name, download_bin,
}
use tgdownloader.Yadisk.Media.{PublicResource, PublicEmbedded, ResourceAnswer}
use tgdownloader.Yadisk.Http.{Result, failed, ok, Library, Client, Service, get_public_resource}
use tgdownloader.Yadisk.Resolve.{PublicDownload, after_resource, resolve_file_direct_url}

-- The source has no fuel: its loop goes on while the service gives pages.
abbrev pub out_of_fuel : Error
out_of_fuel = plain_error (codes "out of fuel")

abbrev pub page_size : ℕ
page_size = 1000

abbrev pub dir_type : Text
dir_type = codes "dir"

abbrev pub file_type : Text
file_type = codes "file"

-- `offset >= total`.
abbrev pub reaches : ℕ → ℤ → Bool
reaches offset (pos total) = leb total offset
reaches offset (negsuc n) = true

abbrev pub answer_items : Option PublicEmbedded → List PublicResource
answer_items none = []
answer_items (some e) = e.items

abbrev pub answer_total : Option PublicEmbedded → ℤ
answer_total none = pos 0
answer_total (some e) = e.total

abbrev pub prepend {ℓ} : {A : Type ℓ} → List A → Result (List A) → Result (List A)
prepend xs (failed e) = failed e
prepend xs (ok ys) = ok (xs ++ ys)

-- What the loop makes of one answer; `rest` is its next round.
abbrev pub after_page :
    ℕ → Result ResourceAnswer → (ℕ → Result (List PublicResource)) → Result (List PublicResource)
after_page offset (failed e) rest = failed e
after_page offset (ok answer) rest =
    let items = answer_items answer.embedded in
    if is_empty items
    then ok []
    else if reaches (offset + length items) (answer_total answer.embedded)
    then ok items
    else prepend items (rest (offset + length items))

-- The name that a file is stored under.
abbrev pub stored_name : PublicResource → Text
stored_name item =
    let name = sanitize_filename (trim_space item.name) in
    if is_empty name || name == download_bin then sanitize_filename (base item.path) else name

abbrev pub relative_dir : Text → Text → Text
relative_dir root_path path =
    let d = dir (trim_prefix (trim_prefix path root_path) (codes "/")) in
    if d == dot ∷ [] then [] else d

abbrev pub found_file : Text → PublicResource → PublicDownload
found_file root_path item = record {
  name = stored_name item;
  size = item.size;
  direct_url = [];
  path = item.path;
  relative_dir = relative_dir root_path item.path;
}

abbrev pub file_files : (ℕ → ℕ) → Text → PublicResource → List PublicDownload
file_files lower root_path item =
    if is_skippable_yandex_file_name lower (stored_name item)
    then []
    else found_file root_path item ∷ []

abbrev pub both {ℓ} : {A : Type ℓ} → Result (List A) → Result (List A) → Result (List A)
both (failed e) r = failed e
both (ok xs) r = prepend xs r

module _ (lib : Library) (client : Client) (service : Service) (public_url : Text) where
  unfoldable pub list_from : ℕ → Text → ℕ → Result (List PublicResource)
  list_from zero dir_path offset = failed out_of_fuel
  list_from (suc fuel) dir_path offset =
      after_page offset
        (get_public_resource lib client service public_url dir_path page_size offset)
        (λ next. list_from fuel dir_path next)

  unfoldable pub list_directory_items : ℕ → Text → Result (List PublicResource)
  unfolding list_from
  list_directory_items fuel dir_path = list_from fuel dir_path 0

  -- The files of the items in their order; `nested` collects those of a directory.
  unfoldable pub collect_items :
      (Text → Result (List PublicDownload))
      → Text
      → List PublicResource
      → Result (List PublicDownload)
  collect_items nested root_path [] = ok []
  collect_items nested root_path (item ∷ items) =
      let rest = collect_items nested root_path items in
      if item.resource_type == dir_type
      then both (nested item.path) rest
      else if item.resource_type == file_type
      then prepend (file_files lib.lower root_path item) rest
      else rest

  abbrev pub after_items :
      Result (List PublicResource)
      → (List PublicResource → Result (List PublicDownload))
      → Result (List PublicDownload)
  after_items (failed e) next = failed e
  after_items (ok items) next = next items

  -- `depth` bounds the nesting, `pages` the requests for one directory.
  unfoldable pub collect_directory_files : ℕ → ℕ → Text → Text → Result (List PublicDownload)
  unfolding list_directory_items collect_items
  collect_directory_files zero pages root_path dir_path = failed out_of_fuel
  collect_directory_files (suc depth) pages root_path dir_path =
      after_items (list_directory_items pages dir_path)
        (collect_items (λ path. collect_directory_files depth pages root_path path) root_path)

pub record ResolvedPublicResource : Type 0 where
  pub name : Text
  pub resource_type : Text
  pub files : List PublicDownload

abbrev file_name : PublicResource → Text
file_name meta =
    let name = sanitize_filename (trim_space meta.name) in
    if is_empty name || name == download_bin then download_bin else name

abbrev pub resource_name : PublicResource → Text
resource_name meta =
    let name = sanitize_filename (trim_space meta.name) in
    if is_empty name || name == download_bin then codes "yadisk" else name

abbrev resolved_dir : PublicResource → Result (List PublicDownload) → Result ResolvedPublicResource
resolved_dir meta (failed e) =
    failed (wrap (codes "yadisk.resolve_public_resource_downloads.collect_dir") e)
resolved_dir meta (ok files) =
    ok (record { name = resource_name meta; resource_type = dir_type; files = files })

abbrev resolved_file : PublicResource → Result Text → Result ResolvedPublicResource
resolved_file meta (failed e) =
    failed (wrap (codes "yadisk.resolve_public_resource_downloads.resolve_file_url") e)
resolved_file meta (ok direct_url) = ok (record {
  name = resource_name meta;
  resource_type = file_type;
  files =
      record {
        name = file_name meta;
        size = meta.size;
        direct_url = direct_url;
        path = meta.path;
        relative_dir = [];
      }
      ∷ [];
})

module _ (lib : Library) (client : Client) (service : Service) where
  unfoldable pub resolve_public_resource_downloads : ℕ → ℕ → Text → Result ResolvedPublicResource
  unfolding collect_directory_files resolve_file_direct_url
  resolve_public_resource_downloads depth pages public_url =
      after_resource (codes "yadisk.resolve_public_resource_downloads.get_resource")
        (get_public_resource lib client service public_url [] 0 0)
        (λ meta.
          if meta.resource_type == dir_type
          then resolved_dir meta (
              collect_directory_files lib client service public_url depth pages meta.path meta.path)
          else resolved_file meta (resolve_file_direct_url lib client service public_url meta))
