-- ===== src/Renderer/Tests/Format.antt =====
-- The theorems about progress_format.go and table.go of internal/renderer on a terminal without styles, of which every
-- code point takes a cell.
use tgdownloader.Prelude.{
  ℕ, Bool, true, false, none, ◌+◌, ◌*◌, ◌/◌, ◌≡◌, refl, true, none, [], ◌∷◌, ◌++◌, length, map,
  codes, arith, pos, negsuc,
}
use Prim.Native.Nat.{max, min}
use tgdownloader.Prelude.Decimal.{decimal}
use tgdownloader.Renderer.Events.{TableData, Event, progress_update, count}
use tgdownloader.Renderer.Sanitize.{
  sanitize_terminal_text, trim_space, trim_right, trim_left, scan, rune_step, class_step, classify,
  escape_step, is_terminal_bidi_control, is_space, is_control, keep_unless_blank,
}
use tgdownloader.Renderer.Table.{TableLayoutColumn, table_layout}
use tgdownloader.Renderer.Bar.{
  Terminal, progress_bar, progress_indeterminate_bar, indicator_position, repeat,
}
use tgdownloader.Renderer.Format.{
  take_clusters, truncate_progress_with_suffix, truncate_progress_text,
}
use tgdownloader.Renderer.Format.Bars.{length-progress_bar}

abbrev terminal : Terminal
terminal = record {
  width = length;
  clusters = map (λ c. c ∷ []);
  render = λ style t. t;
  percent = λ current total. decimal (current * 100 / total) ++ codes "%";
  filled = λ current total width. min width (current * width / total);
  two_places = λ value scale. decimal (value / scale);
  duration = λ d done. codes "1s";
  eta = λ current total elapsed. (codes "2s", true);
}

abbrev event : Event
event = record {
  kind = progress_update;
  id = [];
  text = [];
  label = codes "video.mp4";
  current = 50;
  total = 100;
  unit = count;
  elapsed = 1;
  table = none;
}

length-progress_bar_example : length (progress_bar terminal event 8 (negsuc 0)) ≡ max 1 8 + 2
length-progress_bar_example =
    length-progress_bar terminal (λ current total width. omega arith) event 8 (negsuc 0)

bars :
    (progress_bar terminal event 10 (pos 0) ≡ codes "[#####.....]")
    × (progress_indeterminate_bar 8 (pos 7) ≡ codes "[...<#>..]")
    × (progress_indeterminate_bar 8 (negsuc 0) ≡ codes "[.<#>....]")
unfolding progress_bar progress_indeterminate_bar indicator_position repeat
bars = (refl, refl, refl)

truncated : truncate_progress_text terminal (codes "abcdef") 4 ≡ codes "abc" ++ 0x2026 ∷ []
unfolding truncate_progress_text truncate_progress_with_suffix take_clusters
truncated = refl

abbrev table_data : TableData
table_data = record {
  columns =
      record {
        header = codes "ID";
        min_width = 2;
        priority = 1;
        right_aligned = true;
        required = false;
      }
      ∷ record {
        header = codes "NAME";
        min_width = 4;
        priority = 2;
        right_aligned = false;
        required = true;
      }
      ∷ [];
  rows = (codes "12" ∷ codes "somebody" ∷ []) ∷ [];
}

abbrev ascii : ℕ → Bool
ascii r = true

abbrev width_shown : TableLayoutColumn → ℕ × Bool
width_shown c = (c.width, c.included)

-- The first column goes, and the second is cut to the terminal.
layout_runs :
    map width_shown (table_layout ascii length (λ t. t) table_data 6) ≡ (2, false) ∷ (6, true) ∷ []
unfolding table_layout sanitize_terminal_text trim_space trim_left trim_right scan rune_step
    class_step classify is_space is_control is_terminal_bidi_control keep_unless_blank escape_step
layout_runs = refl
