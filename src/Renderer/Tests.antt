-- ===== src/Renderer/Tests.antt =====
-- The theorems about internal/renderer at concrete inputs.
mod Format
use tgdownloader.Prelude.{
  ℕ, ◌≡◌, refl, Bool, false, List, [], ◌∷◌, ◌++◌, Text, codes, All, map, ltb,
}
use tgdownloader.Renderer.Sanitize.{
  sanitize_terminal_text, trim_space, trim_right, trim_left, scan, rune_step, class_step, classify,
  escape_step, is_terminal_bidi_control, is_space, is_control,
}
use tgdownloader.Renderer.Sanitize.Idempotent.{
  sanitize-sanitize, IsDisplayable, sanitize-IsDisplayable,
}
use tgdownloader.Renderer.Events.{
  EventWriter, write, emit_lines, cut_newline, line_event, trim_carriage_return,
}
use tgdownloader.Prelude.{◌↔◌, ◌⊎◌, true, nat_eq}
use tgdownloader.Renderer.Progress.{
  Call, units_tracker, bytes_tracker, increment, fail, new_tui_progress, wait_returns,
}
use tgdownloader.Prelude.Map
use tgdownloader.Renderer.Progress.{tracker_id}
use tgdownloader.Renderer.Progress.Ends.{ends, over, run-ends}
use tgdownloader.Renderer.Progress.Active.{live, run, run-wait_returns}
use tgdownloader.Renderer.Events.Lines.{write_content, HasNoNewline, unlines}

-- The letters and signs of ASCII.
abbrev ascii_graphic : ℕ → Bool
ascii_graphic r = ltb 31 r

-- A colour sequence around a word, a tab and a bell.
abbrev coloured : Text
coloured = 27 ∷ codes "[31mred" ++ (27 ∷ codes "[0m" ++ (9 ∷ 7 ∷ codes "x"))

coloured_text : sanitize_terminal_text ascii_graphic coloured false ≡ codes "red x"
unfolding sanitize_terminal_text trim_space trim_right trim_left scan rune_step class_step classify
    escape_step is_terminal_bidi_control is_space is_control
coloured_text = refl

sanitize-sanitize_example :
    sanitize_terminal_text ascii_graphic (sanitize_terminal_text ascii_graphic coloured false) false
    ≡ sanitize_terminal_text ascii_graphic coloured false
sanitize-sanitize_example = sanitize-sanitize ascii_graphic coloured false

sanitize-IsDisplayable_example :
    All (IsDisplayable ascii_graphic) (sanitize_terminal_text ascii_graphic coloured false)
sanitize-IsDisplayable_example = sanitize-IsDisplayable ascii_graphic coloured false

abbrev half_line : EventWriter
half_line = record { sink = []; pending = codes "ab" }

abbrev two_lines : Text
two_lines = 99 ∷ 13 ∷ 10 ∷ 100 ∷ 10 ∷ 101 ∷ []

written :
    (write half_line two_lines).0
    ≡ record { sink = line_event (codes "abc") ∷ line_event (codes "d") ∷ []; pending = codes "e" }
unfolding write emit_lines cut_newline trim_carriage_return
written = refl

write_content_example :
    (ls : List Text) × (rest : Text) × (write half_line two_lines
      ≡ (record { sink = map (λ l. line_event (trim_carriage_return l)) ls; pending = rest }, 6))
    × (unlines (ls, rest) ≡ codes "ab" ++ two_lines)
    × All HasNoNewline ls
    × HasNoNewline rest
write_content_example = write_content half_line two_lines

-- Two trackers, of which one fails twice and the other is still running.
abbrev calls : List (ℕ × Call)
calls =
    (0, units_tracker (codes "files") 2)
    ∷ (0, bytes_tracker (codes "a") 5)
    ∷ (1, increment 8 1)
    ∷ (2, fail 9)
    ∷ (3, fail 9)
    ∷ []

run-wait_returns_example : (wait_returns (run (new_tui_progress 7) calls) ≡ true) ↔ (
    (live (run (new_tui_progress 7) calls).trackers ≡ 0)
    ⊎ ((run (new_tui_progress 7) calls).stopped ≡ true))
run-wait_returns_example = run-wait_returns 7 calls

run-ends_example :
    ends (tracker_id 9) (run (new_tui_progress 7) calls).sink
    ≡ over (Map.get (run (new_tui_progress 7) calls).trackers 9)
run-ends_example = run-ends 7 calls 9
