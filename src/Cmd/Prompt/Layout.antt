-- ===== src/Cmd/Prompt/Layout.antt =====
-- The panels fill the terminal exactly.
use tgdownloader.Prelude.{ℕ, ◌+◌, ◌≤◌, ◌≡◌, Bool, arith, if◌then◌else◌}
use tgdownloader.Cmd.Prompt.{PromptLayout, prompt_layout_for_height, max_prompt_visible_completions}
use Prim.Native.Nat.{max}

abbrev pub row_if : Bool → ℕ
row_if b = if b then 1 else 0

-- The lines that `render` (`renderCompact` where there are no borders) puts out: the header, the
-- rows of the panels, two border lines for each of the three panels, and the hint.
abbrev pub rendered_rows : PromptLayout → ℕ
rendered_rows l =
    1
    + l.output_rows
    + l.suggestion_rows
    + l.command_rows
    + row_if l.show_hint
    + (if l.bordered then 6 else 0)

-- For every height from 1 on the header, the panels with their borders and the hint take exactly
-- that many lines; a bordered layout always has a command row and an output row; at most six
-- suggestions are shown.
pub layout_fills_height :
    (height : ℕ)
    → (rendered_rows (prompt_layout_for_height height) ≡ max 1 height)
      × (row_if (prompt_layout_for_height height).bordered
          ≤ (prompt_layout_for_height height).command_rows)
      × (row_if (prompt_layout_for_height height).bordered
          ≤ (prompt_layout_for_height height).output_rows)
      × ((prompt_layout_for_height height).suggestion_rows ≤ max_prompt_visible_completions)
unfolding prompt_layout_for_height
layout_fills_height height = ground arith
