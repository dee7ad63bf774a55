-- ===== src/Cmd/History.antt =====
-- cmd/cmd/prompt_history.go: the history of the prompt, its file and what is kept out of it. The
-- file's content is a text, or nothing where there is no file. Each write of the file takes what
-- the file system does with it as an outcome. `bufio.Scanner` and `strings.ToLower` are parameters.
pub mod File
pub mod Sensitive
pub mod Secrets
use tgdownloader.Prelude.{
  is_empty, ℕ, zero, suc, ◌+◌, ◌-◌, Bool, true, false, ◌&&◌, ◌||◌, Option, none, some, List, [],
  ◌∷◌, ◌++◌, Text, ◌==◌, nat_eq, list_eq, ltb, codes, ◌⊎◌, inl, inr, map, any, if◌then◌else◌,
  length, drop, take,
}
use tgdownloader.Renderer.Sanitize.{trim_space}
use tgdownloader.Downloader.FilePath.{has_prefix, join}

abbrev pub default_filename : Text
default_filename = codes ".tgdownloader_history"

abbrev pub default_max_entries : ℕ
default_max_entries = 1000

pub record HistoryStore : Type 0 where
  pub path : Text
  pub max_entries : ℕ
  pub entries : List Text
  pub last_entry : Text

pub data HistoryError : Type 0 where
  read_error write_error : HistoryError

-- What `append` meets: the directory or the file is refused, the write stops after some bytes, or
-- all goes well.
pub data AppendOutcome : Type 0 where
  append_refused : AppendOutcome
  append_short : ℕ → AppendOutcome
  append_done : AppendOutcome

-- What `rewrite` meets: an error before the old file is removed, an error of the rename behind it,
-- or all goes well.
pub data RewriteOutcome : Type 0 where
  rewrite_refused rewrite_removed rewrite_done : RewriteOutcome

pub record Outcomes : Type 0 where
  pub appending : AppendOutcome
  pub rewriting : RewriteOutcome

-- The path, where none is configured: in the home directory when there is one.
unfoldable pub history_path : Option Text → Text → Text
history_path home (c ∷ cs) = c ∷ cs
history_path none [] = default_filename
history_path (some home) [] =
    if is_empty home then default_filename else join (home ∷ default_filename ∷ [])

abbrev pub newline : ℕ
newline = 10

unfoldable pub file_line : Text → Text
file_line entry = entry ++ newline ∷ []

unfoldable pub file_lines : List Text → Text
unfolding file_line
file_lines [] = []
file_lines (e ∷ es) = file_line e ++ file_lines es

abbrev content : Option Text → Text
content none = []
content (some t) = t

unfoldable pub append : AppendOutcome → Option Text → Text → Option Text × Option HistoryError
unfolding file_line
append append_refused file entry = (file, some write_error)
append (append_short n) file entry =
    (some (content file ++ take n (file_line entry)), some write_error)
append append_done file entry = (some (content file ++ file_line entry), none)

unfoldable pub rewrite :
    RewriteOutcome → Option Text → List Text → Option Text × Option HistoryError
unfolding file_lines
rewrite rewrite_refused file entries = (file, some write_error)
rewrite rewrite_removed file entries = (none, some write_error)
rewrite rewrite_done file entries = (some (file_lines entries), none)

-- The lines of a file without the spaces around them and the empty ones.
unfoldable pub trimmed_lines : List Text → List Text
trimmed_lines [] = []
trimmed_lines (l ∷ ls) =
    let rest = trimmed_lines ls in if is_empty (trim_space l) then rest else trim_space l ∷ rest

unfoldable pub last_or_empty : List Text → Text
last_or_empty [] = []
last_or_empty (e ∷ []) = e
last_or_empty (e ∷ f ∷ fs) = last_or_empty (f ∷ fs)

-- The last `n` of a list.
unfoldable pub keep_last : ℕ → List Text → List Text
keep_last n es = drop (length es - n) es

-- `scan` is `bufio.Scanner`: the lines of a text, or an error (a line that is too long).
module _ (scan : Text → Option (List Text)) where
  unfoldable pub load_prompt_history : Option Text → Option (List Text)
  unfolding trimmed_lines
  load_prompt_history none = some []
  load_prompt_history (some text) = elim (scan text) [
    | none ↦ none
    | some ls ↦ some (trimmed_lines ls)
  ]

  abbrev or_default : ℕ → ℕ
  or_default n = if ltb 0 n then n else default_max_entries

  opened : Text → ℕ → List Text → HistoryStore
  unfolding last_or_empty
  opened path n es = record {
    path = path;
    max_entries = n;
    entries = es;
    last_entry = last_or_empty es;
  }

  trimmed_store :
      Text
      → ℕ
      → RewriteOutcome
      → Option Text
      → List Text
      → Option Text × (HistoryError ⊎ HistoryStore)
  trimmed_store path n out file es =
      let kept : List Text = keep_last n es in
      let (file', error) = rewrite out file kept in
      elim error [ none ↦ (file', inr (opened path n kept)) | some e ↦ (file', inl e) ]

  -- The file afterwards, and the store or the error.
  unfoldable pub new_prompt_history_store :
      Option Text
      → Text
      → ℕ
      → RewriteOutcome
      → Option Text
      → Option Text × (HistoryError ⊎ HistoryStore)
  unfolding opened trimmed_store
  new_prompt_history_store home path n out file = elim (load_prompt_history file) [
    | none ↦ (file, inl read_error)
    | some es ↦
        if ltb (or_default n) (length es)
        then trimmed_store (history_path home path) (or_default n) out file es
        else (file, inr (opened (history_path home path) (or_default n) es))
  ]

pub record Recorded : Type 0 where
  pub store : HistoryStore
  pub file : Option Text
  pub recorded : Bool
  pub error : Option HistoryError

saved : HistoryStore → Option Text × Option HistoryError → Recorded
saved s (file, error) = record { store = s; file = file; recorded = true; error = error }

abbrev pub unchanged : HistoryStore → Option Text → Recorded
unchanged s file = record { store = s; file = file; recorded = false; error = none }

store_entry : HistoryStore → Outcomes → Option Text → Text → Recorded
unfolding saved
store_entry s out file entry =
    let es : List Text = s.entries ++ entry ∷ [] in
    if ltb s.max_entries (length es)
    then (let kept : List Text = keep_last s.max_entries es in
        saved (record s { entries = kept; last_entry = entry }) (rewrite out.rewriting file kept))
    else saved (record s { entries = es; last_entry = entry }) (append out.appending file entry)

-- `Record`, where the store has a test for the entries to skip.
unfoldable pub record_entry :
    (Text → List Text → Bool) → HistoryStore → Outcomes → Option Text → Text → List Text → Recorded
unfolding store_entry
record_entry should_skip s out file raw args =
    let entry : Text = trim_space raw in
    if is_empty entry || entry == s.last_entry
    then unchanged s file
    else if should_skip entry args
    then unchanged s file
    else store_entry s out file entry
