-- ===== src/Cmd/History/Secrets.antt =====
-- What never reaches the history: commands with a secret among their arguments.
use tgdownloader.Prelude.{
  ◌≡◌, refl, Bool, true, false, ◌||◌, Option, List, [], ◌∷◌, ◌++◌, Text, nat_eq, list_eq, ltb,
  arith, length,
}
use tgdownloader.Renderer.Sanitize.{trim_space}
use tgdownloader.Downloader.FilePath.{has_prefix}
use tgdownloader.Cmd.History.{HistoryStore, Outcomes, record_entry, unchanged}
use tgdownloader.Cmd.History.Sensitive.{
  dash, flag_name, is_sensitive_prompt_token, sensitive_args_loop, has_sensitive_prompt_args,
  should_skip_prompt_history_entry,
}

module _ (to_lower : Text → Text) where
  loop-sensitive :
      (expects : Bool) (before after : List Text) (arg : Text)
      → has_prefix arg (dash ∷ []) ≡ true
      → is_sensitive_prompt_token to_lower (flag_name to_lower arg).0 ≡ true
      → ((flag_name to_lower arg).1 || ltb 0 (length after)) ≡ true
      → sensitive_args_loop to_lower expects (before ++ arg ∷ after) ≡ true
  unfolding sensitive_args_loop
  loop-sensitive true [] after arg hp hs hv = refl
  loop-sensitive false [] [] arg hp hs hv = ground arith
  loop-sensitive false [] (x ∷ after) arg hp hs hv = ground arith
  loop-sensitive true (x ∷ before) after arg hp hs hv = refl
  loop-sensitive false (x ∷ before) after arg hp hs hv = ground (
    arith,
    loop-sensitive false before after arg hp hs hv,
    loop-sensitive true before after arg hp hs hv,
  )

  skip-sensitive :
      (entry : Text) (args : List Text)
      → has_sensitive_prompt_args to_lower args ≡ true
      → should_skip_prompt_history_entry to_lower entry args ≡ true
  unfolding should_skip_prompt_history_entry
  skip-sensitive entry [] h = refl
  skip-sensitive entry (x ∷ xs) h = ground arith

  -- A command with a flag of a sensitive name, and a value for it behind `=` or as the next argument,
  -- leaves the store and its file as they are, wherever the flag stands among the arguments.
  pub record_entry-sensitive :
      (s : HistoryStore) (out : Outcomes) (file : Option Text) (raw : Text)
      (before after : List Text) (arg : Text)
      → has_prefix arg (dash ∷ []) ≡ true
      → is_sensitive_prompt_token to_lower (flag_name to_lower arg).0 ≡ true
      → ((flag_name to_lower arg).1 || ltb 0 (length after)) ≡ true
      → record_entry
          (should_skip_prompt_history_entry to_lower)
          s
          out
          file
          raw
          (before ++ arg ∷ after)
        ≡ unchanged s file
  unfolding record_entry has_sensitive_prompt_args
  record_entry-sensitive s out file raw before after arg hp hs hv =
      let h =
        skip-sensitive (trim_space raw) (before ++ arg ∷ after)
          (loop-sensitive false before after arg hp hs hv) in
      rw h (ground arith)
