-- ===== src/Cmd/History/Sensitive.antt =====
-- What is kept out of the history: the test for secrets of cmd/cmd/prompt_history.go.
use tgdownloader.Prelude.{
  is_empty, ℕ, Bool, true, false, ◌||◌, List, [], ◌∷◌, Text, ◌==◌, nat_eq, list_eq, codes, any,
  if◌then◌else◌,
}
use tgdownloader.Renderer.Sanitize.{trim_space}
use tgdownloader.Downloader.FilePath.{has_prefix}

unfoldable pub contains : Text → Text → Bool
contains [] token = is_empty token
contains (c ∷ cs) token = has_prefix (c ∷ cs) token || contains cs token

abbrev pub dash : ℕ
dash = 45

abbrev pub equals : ℕ
equals = 61

unfoldable pub trim_left_dashes : Text → Text
trim_left_dashes [] = []
trim_left_dashes (c ∷ cs) = let rest = trim_left_dashes cs in if c == dash then rest else c ∷ cs

-- `strings.Cut(flag, "=")`: the name, and whether a value follows.
abbrev push_name : ℕ → Text × Bool → Text × Bool
push_name c (name, found) = (c ∷ name, found)

unfoldable pub cut_equals : Text → Text × Bool
cut_equals [] = ([], false)
cut_equals (c ∷ cs) = if c == equals then ([], true) else push_name c (cut_equals cs)

abbrev sensitive_tokens : List Text
sensitive_tokens =
    codes "password"
    ∷ codes "passwd"
    ∷ codes "pass"
    ∷ codes "token"
    ∷ codes "secret"
    ∷ codes "apikey"
    ∷ codes "api-key"
    ∷ codes "api_key"
    ∷ codes "authorization"
    ∷ codes "cookie"
    ∷ []

abbrev sensitive_words : List Text
sensitive_words =
    codes "password"
    ∷ codes "passwd"
    ∷ codes "token"
    ∷ codes "secret"
    ∷ codes "apikey"
    ∷ codes "api-key"
    ∷ codes "api_key"
    ∷ codes "authorization"
    ∷ codes "cookie"
    ∷ []

module _ (to_lower : Text → Text) where
  unfoldable pub is_sensitive_prompt_token : Text → Bool
  is_sensitive_prompt_token name = any (contains (to_lower (trim_space name))) sensitive_tokens

  unfoldable pub has_sensitive_prompt_text : Text → Bool
  has_sensitive_prompt_text entry =
      any (λ (token : Text). contains (to_lower entry) (dash ∷ dash ∷ token)) sensitive_words

  abbrev pub flag_name : Text → Text × Bool
  flag_name arg = cut_equals (trim_left_dashes arg)

  -- The loop, with `expectsValue`.
  unfoldable pub sensitive_args_loop : Bool → List Text → Bool
  sensitive_args_loop expects [] = false
  sensitive_args_loop true (arg ∷ args) = true
  sensitive_args_loop false (arg ∷ args) =
      let rest = sensitive_args_loop false args in
      let rest' = sensitive_args_loop true args in
      if has_prefix arg (dash ∷ [])
      then (if is_sensitive_prompt_token (flag_name arg).0
          then (if (flag_name arg).1 then true else rest')
          else rest)
      else rest

  unfoldable pub has_sensitive_prompt_args : List Text → Bool
  has_sensitive_prompt_args args = sensitive_args_loop false args

  unfoldable pub should_skip_prompt_history_entry : Text → List Text → Bool
  should_skip_prompt_history_entry entry [] = true
  should_skip_prompt_history_entry entry (arg ∷ args) =
      arg == codes "exit"
      || (has_sensitive_prompt_args (arg ∷ args) || has_sensitive_prompt_text entry)
