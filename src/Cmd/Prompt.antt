-- ===== src/Cmd/Prompt.antt =====
-- cmd/cmd/prompt_model.go: the layout of the prompt's panels, the list of completions with its
-- selection and its window, and the walk through the history. Sizes and indices are `int`s that the
-- code keeps at 0 or above; where it computes a difference that may be negative, the case is split.
pub mod Layout
pub mod Completion
use Prim.Native.Nat.{min, max}
use tgdownloader.Prelude.{
  ℕ, ◌+◌, ◌-◌, ◌%◌, Bool, true, false, ◌||◌, ◌&&◌, not, List, [], ◌∷◌, ◌++◌, Text, ◌==◌, nat_eq,
  leb, ltb, length, drop, take, any, get_or, if◌then◌else◌,
}

pub record PromptCandidate : Type 0 where
  pub value : Text
  pub display : Text
  pub description : Text

abbrev pub max_prompt_visible_completions : ℕ
max_prompt_visible_completions = 6

abbrev pub prompt_bordered_layout_base_lines : ℕ
prompt_bordered_layout_base_lines = 1 + 2 + 2 + 2 + 1

pub record PromptLayout : Type 0 where
  pub bordered : Bool
  pub output_rows : ℕ
  pub suggestion_rows : ℕ
  pub command_rows : ℕ
  pub show_hint : Bool

-- The layout of a low terminal: one line after another is taken from the output rows.
compact_layout : ℕ → PromptLayout
compact_layout height =
    let rows : ℕ = height - 1 in
    let with_command : ℕ = if leb 2 height then rows - 1 else rows in
    let with_hint : ℕ = if leb 3 height then with_command - 1 else with_command in
    record {
      bordered = false;
      output_rows = max 0 with_hint;
      suggestion_rows = 0;
      command_rows = if leb 2 height then 1 else 0;
      show_hint = leb 3 height;
    }

bordered_layout : ℕ → PromptLayout
bordered_layout height =
    let remaining : ℕ = height - prompt_bordered_layout_base_lines in
    let command : ℕ = min 1 remaining in
    let remaining1 : ℕ = remaining - command in
    let output : ℕ = min 1 remaining1 in
    let remaining2 : ℕ = remaining1 - output in
    let suggestions : ℕ = min max_prompt_visible_completions remaining2 in
    record {
      bordered = true;
      output_rows = output + (remaining2 - suggestions);
      suggestion_rows = suggestions;
      command_rows = command;
      show_hint = true;
    }

unfoldable pub prompt_layout_for_height : ℕ → PromptLayout
unfolding compact_layout bordered_layout
prompt_layout_for_height requested =
    let height : ℕ = max 1 requested in
    if ltb height (prompt_bordered_layout_base_lines + 2)
    then compact_layout height
    else bordered_layout height

-- The fields of `promptModel` that the operations below read and write. The editor is its text, as
-- runes, and its cursor.
pub record PromptModel : Type 0 where
  pub height : ℕ
  pub completions : List PromptCandidate
  pub selected : ℕ
  pub completion_offset : ℕ
  pub completion_start : ℕ
  pub completion_end : ℕ
  pub completion_quoted : Bool
  pub completion_quote_closed : Bool
  pub completion_status : Text
  pub editor_value : Text
  pub editor_cursor : ℕ
  pub history : List Text
  pub history_index : ℕ
  pub history_limit : ℕ

pub clear_completions : PromptModel → PromptModel
clear_completions m = record m {
  completions = [];
  selected = 0;
  completion_offset = 0;
  completion_start = 0;
  completion_end = 0;
  completion_quoted = false;
  completion_quote_closed = false;
  completion_status = [];
}

unfoldable pub visible_completion_count : PromptModel → ℕ
visible_completion_count m = (prompt_layout_for_height m.height).suggestion_rows

-- `m.selected` clamped to the list, then the window moved so that it shows the selection.
clamp_offset : ℕ → ℕ → ℕ → ℕ → ℕ
clamp_offset count total selected offset =
    let moved : ℕ =
      if ltb selected offset
      then selected
      else if leb (offset + count) selected
      then selected + 1 - count
      else offset in
    min (max 0 moved) (max 0 (total - count))

pub ensure_completion_visible : ℕ → PromptModel → PromptModel
unfolding clamp_offset
ensure_completion_visible count m =
    let total : ℕ = length m.completions in
    let selected : ℕ = min (max 0 m.selected) (total - 1) in
    if count == 0 || total == 0 then m else record m {
      selected = selected;
      completion_offset = clamp_offset count total selected m.completion_offset;
    }

-- ((selected - count) % total + total) % total, where Go's `%` truncates towards zero.
page_back : ℕ → ℕ → ℕ → ℕ
page_back selected count total =
    if leb count selected
    then ((selected - count) % total + total) % total
    else (total - (count - selected) % total) % total

pub page_completions : Bool → PromptModel → PromptModel
unfolding page_back
page_completions down m =
    let count : ℕ = visible_completion_count m in
    let total : ℕ = length m.completions in
    if count == 0
    then m
    else ensure_completion_visible count (record m {
      selected = if down then (m.selected + count) % total else page_back m.selected count total;
    })

-- The cases KeyUp and KeyDown of `updateKey` where completions are shown.
pub select_previous : PromptModel → PromptModel
select_previous m =
    let total : ℕ = length m.completions in
    ensure_completion_visible (visible_completion_count m)
      (record m { selected = (m.selected + total - 1) % total })

pub select_next : PromptModel → PromptModel
select_next m =
    let total : ℕ = length m.completions in
    ensure_completion_visible (visible_completion_count m)
      (record m { selected = (m.selected + 1) % total })

abbrev pub quote : ℕ
quote = b'"'

-- `strings.ReplaceAll(value, "\"", "\"\"")`.
unfoldable pub double_quotes : Text → Text
double_quotes [] = []
double_quotes (c ∷ cs) =
    if c == quote then quote ∷ quote ∷ double_quotes cs else c ∷ double_quotes cs

unfoldable pub encode_prompt_completion_value : Text → Bool → Bool → Text
encode_prompt_completion_value text quoted quote_closed =
    let value = double_quotes text in
    if quoted
    then (if not quote_closed then value ++ quote ∷ [] else value)
    else if any (λ c. c == b' ' || c == 9 || c == quote) value
    then (quote ∷ value) ++ quote ∷ []
    else value

replace_runes : PromptModel → PromptCandidate → PromptModel
replace_runes m candidate =
    let runes : Text = m.editor_value in
    let start : ℕ = min (max 0 m.completion_start) (length runes) in
    let end : ℕ = min (max start m.completion_end) (length runes) in
    let value =
      encode_prompt_completion_value candidate.value m.completion_quoted
        m.completion_quote_closed in
    clear_completions (record m {
      editor_value = (take start runes ++ value) ++ drop end runes;
      editor_cursor = start + length value;
    })

abbrev no_candidate : PromptCandidate
no_candidate = record { value = []; display = []; description = [] }

pub accept_completion : PromptModel → PromptModel
unfolding replace_runes
accept_completion m =
    if length m.completions == 0 || leb (length m.completions) m.selected
    then m
    else replace_runes m (get_or m.completions m.selected no_candidate)

-- `SetValue` and `CursorEnd` of the text input.
abbrev set_editor : Text → PromptModel → PromptModel
set_editor value m = record m { editor_value = value; editor_cursor = length value }

pub history_previous : PromptModel → PromptModel
history_previous m =
    let index : ℕ = m.history_index - 1 in
    if length m.history == 0 || m.history_index == 0
    then m
    else set_editor (get_or m.history index []) (record m { history_index = index })

pub history_next : PromptModel → PromptModel
history_next m =
    let index : ℕ = m.history_index + 1 in
    if length m.history == 0 || leb (length m.history) m.history_index
    then m
    else if index == length m.history
    then set_editor [] (record m { history_index = index })
    else set_editor (get_or m.history index []) (record m { history_index = index })

-- The part of `finishCommand` that stores the line; `stored` is `HistoryOK && HistoryStored`.
pub remember : Bool → Text → PromptModel → PromptModel
remember stored line m =
    let grown = m.history ++ line ∷ [] in
    let kept =
      if ltb 0 m.history_limit && ltb m.history_limit (length grown)
      then drop (length grown - m.history_limit) grown
      else grown in
    let history = if stored then kept else m.history in
    record m { history = history; history_index = length history }
