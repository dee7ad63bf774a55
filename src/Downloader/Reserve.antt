-- ===== src/Downloader/Reserve.antt =====
-- internal/downloader/downloader.go, the queue's side: where a file will be stored. The path claims
-- and the manifest are the state; the sizes of the files that exist are a parameter (`fs.Stat`).
pub mod Fresh
pub mod Claims
pub mod Sharing
use tgdownloader.Prelude.{
  ℕ, zero, suc, ◌+◌, Bool, true, false, ◌&&◌, ◌||◌, not, Option, none, some, List, [], ◌∷◌, ◌++◌,
  Text, ◌==◌, nat_eq, list_eq, length, if◌then◌else◌, codes,
}
use tgdownloader.Prelude.Map
use tgdownloader.Prelude.Map.{Map}
use tgdownloader.Prelude.Decimal.{decimal}
use tgdownloader.Downloader.FilePath.{clean, join, ext, trim_prefix, trim_suffix, slash}
use tgdownloader.Downloader.Manifest.{
  FileManifest, lookup, assign, clean_manifest_path, new_file_manifest, load_file_manifest,
  ManifestError, Stored,
}

-- `File`, of this package and of pkg/telegram. `stable` is the second result of `StableIdentity`;
-- a size that is not known is 0.
pub record File : Type 0 where
  pub name : Text
  pub identity : Text
  pub stable : Bool
  pub size : ℕ
  pub subdirs : List Text
  pub output_paths : List Text

-- The fields of `Downloader` that are read and written here.
pub record Queue : Type 0 where
  pub output_dir : Text
  pub dry_run : Bool
  pub path_claims : Map Text Text
  pub manifest : FileManifest
  pub manifest_dirty : Bool

unfoldable pub relative_output_path : Text → Text → Text
relative_output_path output_dir filename =
    trim_prefix (clean filename) (trim_suffix (clean output_dir) (slash ∷ []) ++ slash ∷ [])

unfoldable pub path_with_identity : Text → Text → Text
path_with_identity filename identity =
    let extension = ext filename in
    trim_suffix filename extension ++ (b'_' ∷ (identity ++ extension))

-- `New`: no claims, an empty manifest.
unfoldable pub new_queue : Text → Bool → Queue
unfolding new_file_manifest
new_queue dir dry_run = record {
  output_dir = dir;
  dry_run = dry_run;
  path_claims = [];
  manifest = new_file_manifest;
  manifest_dirty = false;
}

-- The claims of a manifest's entries: a later entry for the same path takes it over.
unfoldable pub claim_entries : Text → Map Text Text → Map Text Text → Map Text Text
claim_entries dir claims [] = claims
claim_entries dir claims ((identity, actual) ∷ rest) =
    claim_entries dir
      (elim (clean_manifest_path actual) [
        | none ↦ claims
        | some path ↦ Map.put claims (join (dir ∷ path ∷ [])) identity
      ])
      rest

unfoldable pub claim_manifest : Text → Map Text Text → Map Text (Map Text Text) → Map Text Text
unfolding claim_entries
claim_manifest dir claims [] = claims
claim_manifest dir claims ((logical, entries) ∷ rest) =
    claim_manifest dir (claim_entries dir claims entries) rest

abbrev apply_loaded :
    Queue → Text → FileManifest × Option ManifestError → Queue × Option ManifestError
apply_loaded q dir (manifest, some error) = (record q { output_dir = dir }, some error)
apply_loaded q dir (manifest, none) = (
  record q {
    output_dir = dir;
    manifest = manifest;
    path_claims = claim_manifest dir q.path_claims manifest.paths;
  },
  none,
)

-- The error is the one that is recorded; the result of creating the directory is not looked at.
unfoldable pub set_output_dir : Queue → Text → Stored → Queue × Option ManifestError
unfolding load_file_manifest claim_manifest
set_output_dir q dir stored = apply_loaded q dir (load_file_manifest stored)

-- `fmt.Sprintf("%s-%d", identity, suffix)`.
unfoldable pub numbered : Text → ℕ → Text
numbered identity suffix = identity ++ (b'-' ∷ decimal suffix)

abbrev pub is_free : Option Text → Text → Bool
is_free none identity = true
is_free (some claimed_by) identity = claimed_by == identity

-- The loop of `claimIdentifiedPath` on fuel; `none` is that the fuel ran out.
unfoldable pub claim_loop :
    ℕ → Map Text Text → Text → Text → Text → ℕ → Option (Text × Map Text Text)
claim_loop zero claims output_path identity candidate suffix = none
claim_loop (suc fuel) claims output_path identity candidate suffix =
    elim (is_free (Map.get claims candidate) identity) [
      | true ↦ some (candidate, Map.put claims candidate identity)
      | false ↦
          claim_loop fuel claims output_path identity
            (path_with_identity output_path (numbered identity suffix)) (suffix + 1)
    ]

-- One round more than there are claims.
unfoldable pub claim_identified_path : Map Text Text → Text → Text → Option (Text × Map Text Text)
unfolding claim_loop
claim_identified_path claims output_path identity =
    claim_loop (suc (length claims)) claims output_path identity
      (path_with_identity output_path identity) 2

-- `os.Stat` by path: the size of the file that is there.
abbrev pub Stat : Type 0
Stat = Text → Option ℕ

abbrev size_differs : Option ℕ → ℕ → Bool
size_differs none size = false
size_differs (some n) size = not (n == size)

unfoldable pub has_ambiguous_existing_file : Stat → Text → File → Bool
has_ambiguous_existing_file stat output_path file =
    if not file.stable || file.size == 0 then false else size_differs (stat output_path) file.size

abbrev pub is_claimed : Option Text → Bool
is_claimed none = false
is_claimed (some identity) = true

-- The three branches that choose a path which the manifest does not give.
unfoldable pub choose_path : Stat → Map Text Text → Text → File → Option (Text × Map Text Text)
choose_path stat claims output_path file =
    if not (is_claimed (Map.get claims output_path))
      && has_ambiguous_existing_file stat output_path file
    then claim_identified_path claims output_path file.identity
    else if is_free (Map.get claims output_path) file.identity
    then some (output_path, Map.put claims output_path file.identity)
    else claim_identified_path claims output_path file.identity

abbrev clean_actual : Option Text → Option Text
clean_actual none = none
clean_actual (some actual) = clean_manifest_path actual

-- What the manifest holds for this file, if its path is valid.
unfoldable pub known_path : Queue → Text → Text → Option Text
known_path q logical identity = clean_actual (lookup q.manifest logical identity)

-- The chosen path is entered into the manifest, unless this is a dry run.
unfoldable pub store_choice :
    Queue → Text → File → Option (Text × Map Text Text) → Option (Text × Queue)
store_choice q logical file none = none
store_choice q logical file (some (path, claims)) =
    if q.dry_run
    then some (path, record q { path_claims = claims })
    else some (
      path,
      record q {
        path_claims = claims;
        manifest = assign q.manifest logical file.identity (relative_output_path q.output_dir path);
        manifest_dirty = true;
      },
    )

abbrev reserve_known : Stat → Queue → File → Text → Option Text → Option (Text × Queue)
reserve_known stat q file output_path (some actual) =
    let path = join (q.output_dir ∷ actual ∷ []) in
    some (path, record q { path_claims = Map.put q.path_claims path file.identity })
reserve_known stat q file output_path none =
    store_choice q (relative_output_path q.output_dir output_path) file
      (choose_path stat q.path_claims output_path file)

-- One round of the loop of `reserveOutputPaths`.
unfoldable pub reserve_path : Stat → Queue → File → Text → Option (Text × Queue)
reserve_path stat q file output_path =
    reserve_known stat q file output_path
      (known_path q (relative_output_path q.output_dir output_path) file.identity)

unfoldable pub reserve_paths : Stat → Queue → File → List Text → Option (List Text × Queue)
reserve_paths stat q file [] = some ([], q)
reserve_paths stat q file (p ∷ ps) = elim (reserve_path stat q file p) [
  | none ↦ none
  | some (path, q') ↦ elim (reserve_paths stat q' file ps) [
    | none ↦ none
    | some (paths, q'') ↦ some (path ∷ paths, q'')
  ]
]

abbrev or_in_output_dir : Text → Text → List Text → List Text
or_in_output_dir dir name [] = join (dir ∷ name ∷ []) ∷ []
or_in_output_dir dir name (p ∷ ps) = p ∷ ps

unfoldable pub subdir_paths : Text → Text → List Text → List Text
subdir_paths dir name [] = []
subdir_paths dir name (s ∷ ss) = join (dir ∷ s ∷ name ∷ []) ∷ subdir_paths dir name ss

unfoldable pub reserve_output_paths : Stat → Queue → File → Option (File × Queue)
reserve_output_paths stat q file =
    elim (reserve_paths stat q file (
      or_in_output_dir q.output_dir file.name (subdir_paths q.output_dir file.name file.subdirs))) [
        | none ↦ none
        | some (paths, q') ↦ some (record file { output_paths = paths }, q')
      ]

-- The loop of `AddDownloadQueue`: the files of a channel in order, each with what `fs.Stat` answers
-- at that moment.
unfoldable pub reserve_all : Queue → List (Stat × File) → Option (List File × Queue)
reserve_all q [] = some ([], q)
reserve_all q ((stat, file) ∷ rest) = elim (reserve_output_paths stat q file) [
  | none ↦ none
  | some (reserved, q') ↦ elim (reserve_all q' rest) [
    | none ↦ none
    | some (files, q'') ↦ some (reserved ∷ files, q'')
  ]
]
