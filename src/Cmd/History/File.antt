-- ===== src/Cmd/History/File.antt =====
-- The file of the history holds the entries of the store, as long as the writes succeed.
use tgdownloader.Prelude.{
  is_empty, ℕ, zero, suc, ◌-◌, ◌≤◌, ◌<◌, ◌≡◌, refl, sym, ap, ◌∙◌, Bool, false, ◌||◌, Option, none,
  some, List, [], ◌∷◌, ◌++◌, Text, Bool-cases, inl, inr, ◌==◌, nat_eq, list_eq, ltb, any, arith,
  length, drop, All, All-append, All-drop, append_assoc, append-nil, length-append, length-drop,
}
use tgdownloader.Renderer.Sanitize.{trim_space}
use tgdownloader.Renderer.Sanitize.Idempotent.{trim_space-trim_space}
use tgdownloader.Cmd.History.{
  HistoryStore, Outcomes, record_entry, content, file_line, file_lines, append, append_done,
  rewrite, rewrite_done, RewriteOutcome, trimmed_lines, last_or_empty, keep_last,
  load_prompt_history, or_default, opened, new_prompt_history_store, history_path, saved,
  store_entry, newline,
}

-- An entry as the store keeps it, short enough for the scanner: below 2^14 runes, which are at
-- most 2^16 bytes.
pub record IsEntry (e : Text) : Type 0 where
  pub trimmed : trim_space e ≡ e
  pub filled : is_empty e ≡ false
  pub one_line : any (λ (c : ℕ). c == newline) e ≡ false
  pub short : length e < 16384

-- The store and its file agree.
pub record IsSaved (s : HistoryStore) (file : Option Text) : Type 0 where
  pub positive : 0 < s.max_entries
  pub bounded : length s.entries ≤ s.max_entries
  pub are_entries : All IsEntry s.entries
  pub last : s.last_entry ≡ last_or_empty s.entries
  pub stored : content file ≡ file_lines s.entries
  pub has_path : is_empty s.path ≡ false

trimmed_lines-IsEntry : (es : List Text) → All IsEntry es → trimmed_lines es ≡ es
unfolding trimmed_lines
trimmed_lines-IsEntry [] h = refl
trimmed_lines-IsEntry (e ∷ es) (h, hs) =
    rw (h.trimmed, h.filled) (ap (e ∷◌) (trimmed_lines-IsEntry es hs))

file_lines-append :
    (es : List Text) (e : Text) → file_lines (es ++ e ∷ []) ≡ file_lines es ++ file_line e
unfolding file_lines file_line
file_lines-append [] e = append-nil (file_line e)
file_lines-append (x ∷ es) e =
    rw (file_lines-append es e) (sym (append_assoc (file_line x) (file_lines es) (file_line e)))

last_or_empty-append : (es : List Text) (e : Text) → last_or_empty (es ++ e ∷ []) ≡ e
unfolding last_or_empty
last_or_empty-append [] e = refl
last_or_empty-append (x ∷ []) e = refl
last_or_empty-append (x ∷ y ∷ ys) e = last_or_empty-append (y ∷ ys) e

last_or_empty-drop :
    (n : ℕ) (es : List Text) → n < length es → last_or_empty (drop n es) ≡ last_or_empty es
unfolding last_or_empty
last_or_empty-drop zero es h = refl
last_or_empty-drop (suc n) [] h = cc
last_or_empty-drop (suc n) (e ∷ []) h = ground arith
last_or_empty-drop (suc n) (e ∷ f ∷ fs) h = last_or_empty-drop n (f ∷ fs) (omega arith)

lines_of-none : (es : List Text) → [] ≡ file_lines es → es ≡ []
unfolding file_lines file_line
lines_of-none [] h = refl
lines_of-none ([] ∷ es) h = cc
lines_of-none ((c ∷ cs) ∷ es) h = cc

store_entry-IsSaved :
    (s : HistoryStore) (out : Outcomes) (file : Option Text) (e : Text)
    → out.appending ≡ append_done
    → out.rewriting ≡ rewrite_done
    → IsEntry e
    → IsSaved s file
    → IsSaved (store_entry s out file e).store (store_entry s out file e).file
unfolding store_entry saved append rewrite keep_last
store_entry-IsSaved s out file e ha hr he h =
    elim (Bool-cases (ltb s.max_entries (length (s.entries ++ e ∷ [])))) [
      | inl q ↦
          rw (q, hr)
            (record {
              positive = h.positive;
              bounded = grind (
                arith,
                length-append s.entries (e ∷ []),
                length-drop (length (s.entries ++ e ∷ []) - s.max_entries) (s.entries ++ e ∷ []),
              );
              are_entries =
                  All-drop IsEntry _ _
                    (All-append IsEntry s.entries (e ∷ []) h.are_entries (he, tt));
              last = sym (
                  last_or_empty-drop _ (s.entries ++ e ∷ [])
                    (grind (arith, length-append s.entries (e ∷ [])))
                  ∙ last_or_empty-append s.entries e);
              stored = refl;
              has_path = h.has_path;
            })
      | inr q ↦
          rw (q, ha)
            (record {
              positive = h.positive;
              bounded = grind (arith, length-append s.entries (e ∷ []));
              are_entries = All-append IsEntry s.entries (e ∷ []) h.are_entries (he, tt);
              last = sym (last_or_empty-append s.entries e);
              stored = rw (h.stored) (sym (file_lines-append s.entries e));
              has_path = h.has_path;
            })
    ]

module _ (scan : Text → Option (List Text)) where
  load-stored :
      (es : List Text) (file : Option Text)
      → scan (file_lines es) ≡ some es
      → All IsEntry es
      → content file ≡ file_lines es
      → load_prompt_history scan file ≡ some es
  unfolding load_prompt_history
  load-stored es none hs ha hc = rw (lines_of-none es hc) refl
  load-stored es (some t) hs ha hc =
      rw (hc, hs, load_prompt_history, trimmed_lines-IsEntry es ha) refl

  path-filled : (home : Option Text) (p : Text) → is_empty p ≡ false → history_path home p ≡ p
  unfolding history_path
  path-filled home [] h = cc
  path-filled home (c ∷ cs) h = refl

  -- A store that agrees with its file comes back as it is when the program starts again with the
  -- same settings, for a scanner that reads back the lines of the file; nothing is written then.
  pub new_prompt_history_store-IsSaved :
      (home : Option Text) (s : HistoryStore) (out : RewriteOutcome) (file : Option Text)
      → scan (file_lines s.entries) ≡ some s.entries
      → IsSaved s file
      → new_prompt_history_store scan home s.path s.max_entries out file ≡ (file, inr s)
  unfolding new_prompt_history_store opened
  new_prompt_history_store-IsSaved home s out file hs h =
      let p = load-stored s.entries file hs h.are_entries h.stored in
      let d : or_default scan s.max_entries ≡ s.max_entries = ground arith in
      let q : ltb s.max_entries (length s.entries) ≡ false = ground arith in
      rw (p, new_prompt_history_store, d, q, path-filled home s.path h.has_path, h.last) refl

-- Where the store agrees with its file and the writes succeed, recording an entry of one line of
-- less than 2^14 runes, skipped or not, leaves a store within its bound of entries that agrees with
-- its file.
pub record_entry-IsSaved :
    (skip : Text → List Text → Bool) (s : HistoryStore) (out : Outcomes) (file : Option Text)
    (raw : Text) (args : List Text)
    → out.appending ≡ append_done
    → out.rewriting ≡ rewrite_done
    → any (λ (c : ℕ). c == newline) (trim_space raw) ≡ false
    → length (trim_space raw) < 16384
    → IsSaved s file
    → IsSaved
        (record_entry skip s out file raw args).store
        (record_entry skip s out file raw args).file
unfolding record_entry
record_entry-IsSaved skip s out file raw args ha hr hn hl h =
    elim (Bool-cases (is_empty (trim_space raw) || trim_space raw == s.last_entry)) [
      | inl q ↦ rw q h
      | inr q ↦ rw q (elim (Bool-cases (skip (trim_space raw) args)) [
        | inl r ↦ rw r h
        | inr r ↦ rw r (
            store_entry-IsSaved s out file (trim_space raw) ha hr
              (record {
                trimmed = trim_space-trim_space raw;
                filled = ground arith;
                one_line = hn;
                short = hl;
              })
              h)
      ])
    ]
