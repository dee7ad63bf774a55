-- ===== src/Renderer/Format.antt =====
-- internal/renderer/progress_format.go: the text of a progress row, cut to the width of the terminal.
-- `lipgloss.Width`, `uniseg`'s clusters, styles, durations and floating point numbers are parameters.
-- An `int64` is its bit pattern. The width of the terminal is not negative.
pub mod Bars
use tgdownloader.Prelude.{
  is_empty, ℕ, zero, suc, ◌+◌, ◌-◌, ◌*◌, ◌%◌, ◌^◌, Bool, true, false, ◌&&◌, ◌||◌, not, Option, none,
  some, List, [], ◌∷◌, ◌++◌, Text, ◌==◌, nat_eq, leb, ltb, if◌then◌else◌, codes, ℤ, pos, negsuc,
}
use Prim.Native.Nat.{max}
use tgdownloader.Prelude.Decimal.{decimal}
use tgdownloader.Renderer.Events.{
  Event, EventKind, progress_done, progress_fail, ProgressUnit, count, bytes,
}
use tgdownloader.Cmd.Output.{is_positive}
use tgdownloader.Renderer.Bar.{
  Style, Terminal, bar_max_width, bar_min_width, error_style, format_progress_bytes,
  format_progress_eta, format_progress_number, format_progress_scaled, frame_position, full_bar,
  indicator, indicator_position, indicator_width, is_at_least, is_terminal_progress,
  label_max_width, label_min_width, message_style, percent_style, progress_bar,
  progress_indeterminate_bar, reflected, repeat, signed_decimal, stats_style, time_style,
  tracker_style, unknown_bar, value_style,
}

pub record ProgressRow : Type 0 where
  pub label : Text
  pub separator : Text
  pub percentage : Text
  pub bar : Text
  pub status : Text
  pub value : Text
  pub elapsed : Text
  pub eta : Text

-- The text in brackets.
unfoldable pub plain_stats : ProgressRow → Text
plain_stats r =
    if is_empty r.value && is_empty r.elapsed && is_empty r.eta
    then []
    else codes "["
      ++ r.value
      ++ (if not (is_empty r.value) && not (is_empty r.elapsed) then codes " in " else [])
      ++ r.elapsed
      ++ (if is_empty r.eta then [] else codes "; ~ETA: " ++ r.eta)
      ++ codes "]"

abbrev pub spaced_after : Text → Text
spaced_after t = if is_empty t then [] else t ++ codes " "

abbrev pub spaced_before : Text → Text
spaced_before t = if is_empty t then [] else codes " " ++ t

unfoldable pub plain : ProgressRow → Text
unfolding plain_stats
plain r =
    r.label
    ++ r.separator
    ++ spaced_after r.percentage
    ++ r.bar
    ++ spaced_before r.status
    ++ spaced_before (plain_stats r)

abbrev pub ellipsis : Text
ellipsis = 0x2026 ∷ []

module _ (terminal : Terminal) where
  -- The clusters that fit into `limit`, behind those that take `used`.
  unfoldable pub take_clusters : ℕ → ℕ → List Text → Text
  take_clusters limit used [] = []
  take_clusters limit used (c ∷ cs) =
      let rest = take_clusters limit (used + terminal.width c) cs in
      if ltb limit (used + terminal.width c) then [] else c ++ rest

  unfoldable pub truncate_progress_with_suffix : Text → ℕ → Text → Text
  unfolding take_clusters
  truncate_progress_with_suffix value width suffix =
      if width == 0
      then []
      else if leb (terminal.width value) width
      then value
      else if leb width (terminal.width suffix)
      then suffix
      else take_clusters (width - terminal.width suffix) 0 (terminal.clusters value) ++ suffix

  unfoldable pub truncate_progress_text : Text → ℕ → Text
  unfolding truncate_progress_with_suffix
  truncate_progress_text value width = truncate_progress_with_suffix value width ellipsis

  unfoldable pub format_progress_label : Text → ℕ → Text
  unfolding truncate_progress_with_suffix repeat
  format_progress_label value width =
      let cut = truncate_progress_with_suffix value width (codes "~") in
      cut ++ repeat b' ' (width - terminal.width cut)

  abbrev pub status_of : EventKind → Text
  status_of progress_done = codes "done!"
  status_of progress_fail = codes "fail!"
  status_of _ = []

  abbrev value_of : Event → Text
  value_of e = elim e.unit [
    | bytes ↦ format_progress_bytes terminal e.current
    | count ↦
        if is_positive e.current || is_positive e.total
        then format_progress_number terminal e.current
        else []
  ]

  unfoldable pub new_progress_row : Event → ℕ → ℕ → ℤ → ProgressRow
  unfolding format_progress_label progress_bar format_progress_number format_progress_bytes
      format_progress_eta
  new_progress_row e label_width bar_width frame = record {
    label = format_progress_label e.label label_width;
    separator = codes " ... ";
    percentage = if is_positive e.total then terminal.percent e.current e.total else [];
    bar = progress_bar terminal e bar_width frame;
    status = status_of e.kind;
    value = value_of e;
    elapsed = terminal.duration e.elapsed (is_terminal_progress e.kind);
    eta =
        if (format_progress_eta terminal e).1 && not (is_terminal_progress e.kind)
        then (format_progress_eta terminal e).0
        else [];
  }

  abbrev pub render_unless_empty : Style → Text → Text
  render_unless_empty style t = if is_empty t then [] else terminal.render style t

  unfoldable pub styled_stats : ProgressRow → Text
  styled_stats r =
      if is_empty r.value && is_empty r.elapsed && is_empty r.eta
      then []
      else codes " "
        ++ terminal.render stats_style (codes "[")
        ++ render_unless_empty value_style r.value
        ++ (if not (is_empty r.value) && not (is_empty r.elapsed)
            then terminal.render stats_style (codes " in ")
            else [])
        ++ render_unless_empty time_style r.elapsed
        ++ (if is_empty r.eta
            then []
            else terminal.render stats_style (codes "; ~ETA: ") ++ terminal.render time_style r.eta)
        ++ terminal.render stats_style (codes "]")

  abbrev pub status_style : EventKind → Style
  status_style progress_fail = error_style
  status_style _ = message_style

  unfoldable pub styled : ProgressRow → EventKind → Text
  unfolding styled_stats
  styled r kind =
      terminal.render message_style (r.label ++ r.separator)
      ++ (if is_empty r.percentage
          then []
          else terminal.render percent_style r.percentage ++ codes " ")
      ++ terminal.render tracker_style r.bar
      ++ (if is_empty r.status
          then []
          else codes " " ++ terminal.render (status_style kind) r.status)
      ++ styled_stats r

  unfoldable pub row_width : ProgressRow → ℕ
  unfolding plain
  row_width r = terminal.width (plain r)

  -- The two loops: the label and the bar lose a cell in each round, down to their least widths.
  unfoldable pub shrink_label : Event → ℕ → ℕ → ProgressRow → ProgressRow
  unfolding row_width format_progress_label
  shrink_label e width zero row = row
  shrink_label e width (suc n) row =
      let rest = shrink_label e width n (record row { label = format_progress_label e.label n }) in
      if ltb width (row_width row) && ltb label_min_width (suc n) then rest else row

  unfoldable pub shrink_bar : Event → ℕ → ℤ → ℕ → ProgressRow → ProgressRow
  unfolding row_width progress_bar
  shrink_bar e width frame zero row = row
  shrink_bar e width frame (suc n) row =
      let rest =
        shrink_bar e width frame n (record row { bar = progress_bar terminal e n frame }) in
      if ltb width (row_width row) && ltb bar_min_width (suc n) then rest else row

  -- A step that is taken only where the row is too wide.
  abbrev pub if_wide : ℕ → ProgressRow → ProgressRow → ProgressRow
  if_wide width row shorter = if ltb width (row_width row) then shorter else row

  -- The steps of `FormatProgress`, in its order.
  abbrev pub without_eta : ℕ → ProgressRow → ProgressRow
  without_eta width row = if_wide width row (record row { eta = [] })

  abbrev pub without_value : ℕ → ProgressRow → ProgressRow
  without_value width row = if_wide width row (record row { value = [] })

  abbrev pub without_last_elapsed : Event → ℕ → ProgressRow → ProgressRow
  without_last_elapsed e width row =
      if is_terminal_progress e.kind then if_wide width row (record row { elapsed = [] }) else row

  abbrev pub without_rest : ℕ → ProgressRow → ProgressRow
  without_rest width row =
      let a = if_wide width row (record row { percentage = [] }) in
      let b = if_wide width a (record a { elapsed = [] }) in
      if_wide width b (record b { separator = codes " " })

  unfoldable pub fitted_row : Event → ℕ → ℤ → ProgressRow
  unfolding new_progress_row shrink_label shrink_bar
  fitted_row e width frame = without_rest width (
      shrink_bar e width frame bar_max_width (
        shrink_label e width label_max_width (
          without_last_elapsed e width (
            without_value width
              (without_eta width (new_progress_row e label_max_width bar_max_width frame))))))

  abbrev pub shown_row : Event → ℕ → ProgressRow → Text
  shown_row e width row =
      if ltb width (row_width row)
      then truncate_progress_text (plain row) width
      else styled row e.kind

  unfoldable pub format_progress : Event → ℕ → ℤ → Text
  format_progress e width frame =
      if width == 0 then [] else shown_row e width (fitted_row e width frame)
