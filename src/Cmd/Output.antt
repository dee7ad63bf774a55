-- ===== src/Cmd/Output.antt =====
-- What the two models of cmd/cmd share: the states, the errors and the output blocks of
-- cmd/cmd/prompt_model.go, the rows of progress, and the sanitizers of cmd/cmd/helpers.go.
pub mod Agree
use tgdownloader.Prelude.{
  is_empty, ℕ, ◌+◌, ◌^◌, Bool, true, false, ◌&&◌, ◌||◌, not, Option, none, some, List, [], ◌∷◌,
  ◌++◌, Text, ◌==◌, nat_eq, list_eq, ltb, map, if◌then◌else◌,
}
use tgdownloader.Prelude.Map.{Map}
use tgdownloader.Renderer.Sanitize.{sanitize_terminal_text}
use tgdownloader.Renderer.Events.{Event, TableData, TableColumn}

pub data PromptState : Type 0 where
  starting auth ready failed stopping : PromptState

pub data CommandError : Type 0 where
  canceled : CommandError
  other_error : Text → CommandError

pub data OutputBlock : Type 0 where
  output_text : Text → OutputBlock
  output_table : TableData → OutputBlock
  output_progress : Event → OutputBlock

abbrev pub is_state : PromptState → PromptState → Bool
is_state starting starting = true
is_state auth auth = true
is_state ready ready = true
is_state failed failed = true
is_state stopping stopping = true
is_state _ _ = false

-- `int64`: positive is a bit pattern from 1 to 2^63 - 1.
abbrev pub is_positive : ℕ → Bool
is_positive n = ltb 0 n && ltb n (2 ^ 63)

unfoldable pub rows_unknown : Map Text Event → Bool
rows_unknown [] = false
rows_unknown ((id, e) ∷ rows) = not (is_positive e.total) || rows_unknown rows

unfoldable pub remove_active_row_id : List Text → Text → List Text
remove_active_row_id [] id = []
remove_active_row_id (x ∷ xs) id = if x == id then xs else x ∷ remove_active_row_id xs id

module _ (is_graphic : ℕ → Bool) where
  unfoldable pub sanitize_line : Text → Text
  sanitize_line s = sanitize_terminal_text is_graphic s true

  unfoldable pub sanitize_text : Text → Text
  sanitize_text s = sanitize_terminal_text is_graphic s false

  unfoldable pub sanitize_column : TableColumn → TableColumn
  unfolding sanitize_text
  sanitize_column c = record c { header = sanitize_text c.header }

  unfoldable pub sanitize_table : TableData → TableData
  unfolding sanitize_column sanitize_line
  sanitize_table t = record {
    columns = map sanitize_column t.columns;
    rows = map (λ (row : List Text). map sanitize_line row) t.rows;
  }

  unfoldable pub sanitize_event : Event → Event
  unfolding sanitize_line
  sanitize_event e = record e { text = sanitize_line e.text; label = sanitize_line e.label }
