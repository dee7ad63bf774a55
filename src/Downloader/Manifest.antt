-- ===== src/Downloader/Manifest.antt =====
-- internal/downloader/manifest.go: the file manifest, from the logical path and the identity of a
-- file to the path that it was stored under. The JSON text is not modelled: a stored manifest is
-- what decoding gives, or the reason why it gives nothing.
use tgdownloader.Prelude.{
  ℕ, ◌≡◌, refl, ◌||◌, Option, none, some, [], ◌∷◌, Text, ◌==◌, nat_eq, list_eq, Bool-cases,
  list_beq_iff, inl, inr, ◌&&◌, if◌then◌else◌,
}
use tgdownloader.Prelude.Map
use tgdownloader.Prelude.Map.{Map}
use tgdownloader.Downloader.FilePath.{clean, is_abs, has_prefix, dot, slash}

abbrev pub file_manifest_version : ℕ
file_manifest_version = 1

pub record FileManifest : Type 0 where
  pub version : ℕ
  pub paths : Map Text (Map Text Text)

unfoldable pub new_file_manifest : FileManifest
new_file_manifest = record { version = file_manifest_version; paths = [] }

-- What reading and decoding the file gives.
pub data Stored : Type 0 where
  missing : Stored
  unreadable : Stored
  malformed : Stored
  decoded : FileManifest → Stored

pub data ManifestError : Type 0 where
  read_failed decode_failed : ManifestError
  unsupported_version : ℕ → ManifestError

unfoldable pub load_file_manifest : Stored → FileManifest × Option ManifestError
unfolding new_file_manifest
load_file_manifest missing = (new_file_manifest, none)
load_file_manifest unreadable = (new_file_manifest, some read_failed)
load_file_manifest malformed = (new_file_manifest, some decode_failed)
load_file_manifest (decoded m) =
    if m.version == file_manifest_version
    then (m, none)
    else (new_file_manifest, some (unsupported_version m.version))

abbrev pub inner : Option (Map Text Text) → Map Text Text
inner none = []
inner (some m) = m

unfoldable pub lookup : FileManifest → Text → Text → Option Text
lookup m logical identity = Map.get (inner (Map.get m.paths logical)) identity

unfoldable pub assign : FileManifest → Text → Text → Text → FileManifest
assign m logical identity actual = record m {
  paths = Map.put m.paths logical (Map.put (inner (Map.get m.paths logical)) identity actual);
}

abbrev dot_path : Text
dot_path = dot ∷ []

unfoldable pub clean_manifest_path : Text → Option Text
clean_manifest_path filename =
    let cleaned = clean filename in
    if cleaned == dot ∷ []
      || cleaned == dot ∷ dot ∷ []
      || is_abs cleaned
      || has_prefix cleaned (dot ∷ dot ∷ slash ∷ [])
    then none
    else some cleaned

-- An assignment is seen under its own logical path and identity and nowhere else.
pub lookup-assign :
    (m : FileManifest) (logical identity actual logical' identity' : Text)
    → lookup (assign m logical identity actual) logical' identity' ≡ (
        if logical == logical' && identity == identity'
        then some actual
        else lookup m logical' identity')
unfolding lookup assign
lookup-assign m l i a l' i' = elim (Bool-cases (l == l')) [
  | inl e ↦ rw (Map.get-put, e, Map.get-put, (list_beq_iff l l').0 e) refl
  | inr e ↦ rw (Map.get-put, e) refl
]
