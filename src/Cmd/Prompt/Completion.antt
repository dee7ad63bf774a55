-- ===== src/Cmd/Prompt/Completion.antt =====
-- Moving the selection, accepting a completion, and the walk through the history.
use Prim.Native.Nat.{min, max}
use tgdownloader.Prelude.{
  ℕ, ◌+◌, ◌-◌, ◌%◌, ◌≤◌, ◌<◌, ◌≡◌, refl, ap, Bool, true, false, List, [], ◌∷◌, ◌++◌, Text, arith,
  if◌then◌else◌, length, take, drop, get_elem?, get_or, get_or-length, lt-length_of_get_elem?,
  get_or_of_get_elem?, some, length-append, length-take, length-drop, ◌==◌, nat_eq,
}
use tgdownloader.Cmd.Prompt.{
  PromptModel, PromptCandidate, visible_completion_count, ensure_completion_visible,
  page_completions, select_previous, select_next, no_candidate, clear_completions,
  accept_completion, replace_runes, encode_prompt_completion_value, history_previous, history_next,
  remember,
}

-- The selection is one of the completions and stands inside the window of `count` rows, and the
-- window does not run past the end of the list.
pub record IsShown (count : ℕ) (m : PromptModel) : Type 0 where
  pub in_list : m.selected < length m.completions
  pub below : m.completion_offset ≤ m.selected
  pub above : m.selected < m.completion_offset + count
  pub within : m.completion_offset ≤ length m.completions - count

-- Whatever the selection and the offset were, with a row to show and a completion to select,
-- `ensureCompletionVisible` leaves the selection inside the list and the window.
pub ensure_completion_visible-IsShown :
    (count : ℕ) (m : PromptModel)
    → 0 < count
    → 0 < length m.completions
    → IsShown count (ensure_completion_visible count m)
unfolding ensure_completion_visible
ensure_completion_visible-IsShown count m hc hl = ground arith

-- A selection that is shown is left alone.
pub ensure_completion_visible-IsShown_id :
    (count : ℕ) (m : PromptModel) → IsShown count m → ensure_completion_visible count m ≡ m
unfolding ensure_completion_visible
ensure_completion_visible-IsShown_id count m h = ground arith

completions-ensure :
    (count : ℕ) (m : PromptModel) → (ensure_completion_visible count m).completions ≡ m.completions
unfolding ensure_completion_visible
completions-ensure count m = ground arith

selected-ensure :
    (count : ℕ) (m : PromptModel)
    → m.selected < length m.completions
    → (ensure_completion_visible count m).selected ≡ m.selected
unfolding ensure_completion_visible
selected-ensure count m h = ground arith

mod-wrap : (s t : ℕ) → s < t → ((s + 1) % t + t - 1) % t ≡ s
mod-wrap s t h = grind arith

mod-wrap_back : (s t : ℕ) → s < t → ((s + t - 1) % t + 1) % t ≡ s
mod-wrap_back s t h = grind arith

mod-below : (s t : ℕ) → 0 < t → s % t < t
mod-below s t h = omega arith

selected-select_next :
    (m : PromptModel)
    → 0 < length m.completions
    → (select_next m).selected ≡ (m.selected + 1) % length m.completions
unfolding select_next
selected-select_next m h = selected-ensure _ _ (mod-below (m.selected + 1) (length m.completions) h)

selected-select_previous :
    (m : PromptModel)
    → 0 < length m.completions
    → (select_previous m).selected ≡ (m.selected + length m.completions - 1) % length m.completions
unfolding select_previous
selected-select_previous m h =
    selected-ensure _ _ (mod-below (m.selected + length m.completions - 1) (length m.completions) h)

completions-select_next : (m : PromptModel) → (select_next m).completions ≡ m.completions
unfolding select_next
completions-select_next m = completions-ensure _ _

completions-select_previous : (m : PromptModel) → (select_previous m).completions ≡ m.completions
unfolding select_previous
completions-select_previous m = completions-ensure _ _

-- From any selection in the list, Up after Down and Down after Up select the same completion again,
-- also across both ends of the list.
pub select_previous-select_next :
    (m : PromptModel)
    → m.selected < length m.completions
    → ((select_previous (select_next m)).selected ≡ m.selected)
      × ((select_next (select_previous m)).selected ≡ m.selected)
select_previous-select_next m h = (
  rw
      (
        selected-select_previous (select_next m) (rw completions-select_next (omega arith)),
        completions-select_next,
        selected-select_next m (omega arith),
      )
      (mod-wrap m.selected (length m.completions) h),
  rw
      (
        selected-select_next (select_previous m) (rw completions-select_previous (omega arith)),
        completions-select_previous,
        selected-select_previous m (omega arith),
      )
      (mod-wrap_back m.selected (length m.completions) h),
)

-- A page down or up leaves a selection that is in the list and in the window.
pub page_completions-IsShown :
    (down : Bool) (m : PromptModel)
    → 0 < visible_completion_count m
    → 0 < length m.completions
    → IsShown (visible_completion_count m) (page_completions down m)
unfolding page_completions
page_completions-IsShown down m hc hl =
    rw (count_test (visible_completion_count m) hc)
      (ensure_completion_visible-IsShown (visible_completion_count m) _ hc hl)
  where
    count_test : (c : ℕ) → 0 < c → (c == 0) ≡ false
    count_test c h = ground arith

pub take-append_length {ℓ} : {A : Type ℓ} (xs ys : List A) → take (length xs) (xs ++ ys) ≡ xs
take-append_length [] ys = refl
take-append_length (x ∷ xs) ys = ap (x ∷◌) (take-append_length xs ys)

pub drop-append_length {ℓ} : {A : Type ℓ} (xs ys : List A) → drop (length xs) (xs ++ ys) ≡ ys
drop-append_length [] ys = refl
drop-append_length (x ∷ xs) ys = drop-append_length xs ys

abbrev pub start_of : PromptModel → ℕ
start_of m = min (max 0 m.completion_start) (length m.editor_value)

abbrev pub end_of : PromptModel → ℕ
end_of m = min (max (start_of m) m.completion_end) (length m.editor_value)

abbrev pub inserted : PromptModel → PromptCandidate → Text
inserted m c = encode_prompt_completion_value c.value m.completion_quoted m.completion_quote_closed

front : PromptModel → PromptCandidate → Text
front m c = take (start_of m) m.editor_value ++ inserted m c

length-front :
    (m : PromptModel) (c : PromptCandidate)
    → start_of m + length (inserted m c) ≡ length (front m c)
unfolding front
length-front m c = omega (
  arith,
  length-append {0} (take (start_of m) m.editor_value) (inserted m c),
  length-take {0} (start_of m) m.editor_value,
)

replace_runes_lem :
    (m : PromptModel) (c : PromptCandidate)
    → ((replace_runes m c).editor_cursor ≡ length (front m c))
      × ((replace_runes m c).editor_value ≡ front m c ++ drop (end_of m) m.editor_value)
      × ((replace_runes m c).completions ≡ [])
unfolding replace_runes clear_completions front
replace_runes_lem m c = (length-front m c, refl, refl)

accept-replace_runes :
    (m : PromptModel) (c : PromptCandidate)
    → get_elem? m.completions m.selected ≡ some c
    → accept_completion m ≡ replace_runes m c
unfolding accept_completion
accept-replace_runes m c h =
    let e = get_or_of_get_elem? m.completions m.selected no_candidate h in
    ground (arith, lt-length_of_get_elem? m.completions m.selected h)

pub editor_value-accept_completion :
    (m : PromptModel) (c : PromptCandidate)
    → get_elem? m.completions m.selected ≡ some c
    → (accept_completion m).editor_value
      ≡ (take (start_of m) m.editor_value ++ inserted m c) ++ drop (end_of m) m.editor_value
unfolding front
editor_value-accept_completion m c h = rw (accept-replace_runes m c h) (replace_runes_lem m c).1

-- Accepting a completion that is in the list replaces exactly the completed range, clamped to the
-- text: before the cursor stand the runes in front of the range and the encoded value, behind it the
-- runes behind the range, and the list of completions is empty.
pub accept_completion_lem :
    (m : PromptModel) (c : PromptCandidate)
    → get_elem? m.completions m.selected ≡ some c
    → (take (accept_completion m).editor_cursor (accept_completion m).editor_value
        ≡ take (start_of m) m.editor_value ++ inserted m c)
      × (drop (accept_completion m).editor_cursor (accept_completion m).editor_value
          ≡ drop (end_of m) m.editor_value)
      × ((accept_completion m).completions ≡ [])
unfolding front
accept_completion_lem m c h =
    let (cursor, value, none_left) = replace_runes_lem m c in
    rw (accept-replace_runes m c h, cursor, value)
      (take-append_length (front m c) _, drop-append_length (front m c) _, none_left)

-- The history walk. At a position behind the first line, Up puts the line before it into the editor,
-- and Down after that returns to the position, and to its line or, behind the newest, to an empty
-- editor.
pub history_next-history_previous :
    (m : PromptModel)
    → 0 < m.history_index
    → m.history_index ≤ length m.history
    → ((history_previous m).editor_value ≡ get_or m.history (m.history_index - 1) [])
      × ((history_next (history_previous m)).history_index ≡ m.history_index)
      × ((history_next (history_previous m)).editor_value ≡ get_or m.history m.history_index [])
unfolding history_previous history_next
history_next-history_previous m h k = ground (arith, get_or-length m.history [])

-- Storing a line: with a limit the history holds at most that many lines, it is the end of the old
-- history followed by the line, and the walk starts behind the newest line again.
pub remember_lem :
    (m : PromptModel) (line : Text)
    → (length (remember true line m).history ≡ (
        if m.history_limit == 0
        then length m.history + 1
        else min m.history_limit (length m.history + 1)))
      × ((remember true line m).history
          ≡ drop
              (length m.history + 1 - length (remember true line m).history)
              (m.history ++ line ∷ []))
      × ((remember true line m).history_index ≡ length (remember true line m).history)
unfolding remember
remember_lem m line = ground (
  arith,
  length-append {0} m.history (line ∷ []),
  length-drop {0} (length (m.history ++ line ∷ []) - m.history_limit) (m.history ++ line ∷ []),
)
