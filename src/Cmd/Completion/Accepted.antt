-- ===== src/Cmd/Completion/Accepted.antt =====
-- An accepted completion, from the range that it replaces to the token that is read back.
use tgdownloader.Prelude.{
  ◌+◌, ◌≡◌, Bool, ◌&&◌, some, [], ◌∷◌, ◌++◌, Text, length, if◌then◌else◌, get_elem?,
}
use tgdownloader.Cmd.Prompt.{PromptModel, PromptCandidate, quote, accept_completion}
use tgdownloader.Cmd.Completion.Encoded.{ReadsAs}

-- The quotes that the token has in the line.
abbrev pub opening : Bool → Text
opening quoted = if quoted then quote ∷ [] else []

abbrev pub closing : Bool → Bool → Text
closing quoted closed = if quoted && closed then quote ∷ [] else []

-- The line holds the token `old` between its quotes, the completion's range is what stands between
-- them, and the completion `c` is selected.
pub record Completes (m : PromptModel) (c : PromptCandidate) (pre old rest : Text) : Type 0 where
  pub selected : get_elem? m.completions m.selected ≡ some c
  pub line :
      m.editor_value
      ≡ (pre ++ opening m.completion_quoted)
        ++ (old ++ (closing m.completion_quoted m.completion_quote_closed ++ rest))
  pub from : m.completion_start ≡ length (pre ++ opening m.completion_quoted)
  pub to : m.completion_end ≡ length (pre ++ opening m.completion_quoted) + length old

-- The line after a completion holds one token where the old one stood.
pub record ReadsBack (m : PromptModel) (c : PromptCandidate) (pre rest : Text) : Type 0 where
  pub text : Text
  pub line : (accept_completion m).editor_value ≡ pre ++ (text ++ rest)
  pub reads : ReadsAs (length pre) text c.value rest
