-- ===== src/Yadisk/Directory/Entry.antt =====
-- What the client is to give for an entry of a directory that is no directory itself.
use tgdownloader.Prelude.{
  is_empty, ◌≡◌, refl, ap, ◌∙◌, ℕ, Bool, true, false, List, [], ◌∷◌, ◌++◌, Text, ◌==◌, nat_eq,
  list_eq, map, codes, All, if◌then◌else◌, ◌||◌, arith,
}
use tgdownloader.Renderer.Sanitize.{trim_space}
use tgdownloader.Downloader.FilePath.{slash, segments, trim_prefix-append}
use tgdownloader.Yadisk.Names.{
  backslash, underscore, replace_all, sanitize_filename, base, dir, to_lower,
  is_skippable_yandex_file_name,
}
use tgdownloader.Yadisk.Media.{PublicResource}
use tgdownloader.Yadisk.Resolve.{PublicDownload}
use tgdownloader.Yadisk.Directory.{file_type, stored_name, relative_dir, file_files}

-- The text lacks a rune.
abbrev pub Lacks : ℕ → Text → Type 0
Lacks x t = All (λ c. (c == x) ≡ false) t

-- A name that is stored as it is.
pub record IsPlain (name : Text) : Type 0 where
  pub filled : is_empty name ≡ false
  pub trimmed : trim_space name ≡ name
  pub no_slash : Lacks slash name
  pub no_backslash : Lacks backslash name
  pub no_placeholder : (name == codes "download.bin") ≡ false

-- Whether a name is one of the three of the systems' own files, in whatever case.
unfoldable pub names_system_file : (ℕ → ℕ) → Text → Bool
names_system_file lower name =
    let n = map lower name in
    codes "thumbs.db" == n || (codes ".ds_store" == n || codes "desktop.ini" == n)

-- `path.Dir`, with nothing for the root itself.
abbrev pub directory_of : Text → Text
directory_of below = if dir below == codes "." then [] else dir below

abbrev pub listed_file : PublicResource → Text → PublicDownload
listed_file r below = record {
  name = r.name;
  size = r.size;
  direct_url = [];
  path = r.path;
  relative_dir = directory_of below;
}

-- What is listed of an entry: nothing of what is no file, nothing of a system file, and another file
-- with its name, size and path, and with its directory below the root.
pub data IsListed (lower : ℕ → ℕ) (root : Text) (r : PublicResource)
    : List PublicDownload → Type 0 where
  other_type : (r.resource_type == codes "file") ≡ false → IsListed lower root r []
  system_file :
      (r.resource_type == codes "file") ≡ true
      → IsPlain r.name
      → names_system_file lower r.name ≡ true
      → IsListed lower root r []
  regular_file :
      (below : Text)
      → (r.resource_type == codes "file") ≡ true
      → IsPlain r.name
      → names_system_file lower r.name ≡ false
      → r.path ≡ root ++ (slash ∷ below)
      → IsListed lower root r (listed_file r below ∷ [])

replace_all-Lacks : (old new : ℕ) (t : Text) → Lacks old t → replace_all old new t ≡ t
unfolding replace_all
replace_all-Lacks old new [] h = refl
replace_all-Lacks old new (c ∷ t) (h, hs) = rw (h, replace_all-Lacks old new t hs) refl

sanitize_filename-IsPlain : (name : Text) → IsPlain name → sanitize_filename name ≡ name
unfolding sanitize_filename
sanitize_filename-IsPlain name h =
    rw
      (
        h.trimmed,
        h.filled,
        replace_all-Lacks slash underscore name h.no_slash,
        replace_all-Lacks backslash underscore name h.no_backslash,
      )
      refl

stored_name-IsPlain : (r : PublicResource) → IsPlain r.name → stored_name r ≡ r.name
stored_name-IsPlain r h =
    rw (h.trimmed, sanitize_filename-IsPlain r.name h, h.filled, h.no_placeholder) refl

segments-Lacks : (t : Text) → Lacks slash t → segments t ≡ t ∷ []
unfolding segments
segments-Lacks [] h = refl
segments-Lacks (c ∷ t) (h, hs) = rw (h, segments-Lacks t hs) refl

base-Lacks : (t : Text) → is_empty t ≡ false → Lacks slash t → base t ≡ t
unfolding base
base-Lacks [] f h = cc
base-Lacks (c ∷ t) f h = rw (segments-Lacks (c ∷ t) h) refl

or_false : (a b c : Bool) → (a || (b || (c || false))) ≡ (a || (b || c))
or_false a b c = ground arith

is_skippable_yandex_file_name-IsPlain :
    (lower : ℕ → ℕ) (name : Text)
    → IsPlain name
    → is_skippable_yandex_file_name lower name ≡ names_system_file lower name
unfolding is_skippable_yandex_file_name names_system_file to_lower
is_skippable_yandex_file_name-IsPlain lower name h =
    rw
      (
        replace_all-Lacks backslash slash name h.no_backslash,
        h.trimmed,
        h.filled,
        base-Lacks name h.filled h.no_slash,
      )
      (or_false (codes "thumbs.db" == map lower name) (codes ".ds_store" == map lower name)
        (codes "desktop.ini" == map lower name))

relative_dir-below :
    (root below : Text) → relative_dir root (root ++ (slash ∷ below)) ≡ directory_of below
relative_dir-below root below =
    rw (trim_prefix-append root (slash ∷ below), trim_prefix-append (slash ∷ []) below) refl

-- The files that the client makes of such an entry.
abbrev pub entry_files : (ℕ → ℕ) → Text → PublicResource → List PublicDownload
entry_files lower root r = if r.resource_type == file_type then file_files lower root r else []

pub entry_files-IsListed :
    (lower : ℕ → ℕ) (root : Text) (r : PublicResource) {files : List PublicDownload}
    → IsListed lower root r files
    → entry_files lower root r ≡ files
entry_files-IsListed lower root r (other_type h) = rw h refl
entry_files-IsListed lower root r (system_file h p s) =
    rw (h, stored_name-IsPlain r p, is_skippable_yandex_file_name-IsPlain lower r.name p, s) refl
entry_files-IsListed lower root r (regular_file below h p s e) =
    rw (h, stored_name-IsPlain r p, is_skippable_yandex_file_name-IsPlain lower r.name p, s)
      (ap (λ (d : Text). with_dir d ∷ [])
        (ap (relative_dir root) e ∙ relative_dir-below root below))
  where
    with_dir : Text → PublicDownload
    with_dir d = record {
      name = r.name;
      size = r.size;
      direct_url = [];
      path = r.path;
      relative_dir = d;
    }
