-- ===== src/Renderer/Bar.antt =====
-- The parts of a progress row in internal/renderer/progress_format.go: the bar, the numbers, the time
-- that remains. Styles, durations and floating point numbers are parameters, with `lipgloss.Width` and
-- `uniseg`'s clusters. An `int64` is its bit pattern.
use tgdownloader.Prelude.{
  ℕ, zero, suc, ◌+◌, ◌-◌, ◌*◌, ◌%◌, ◌^◌, Bool, true, false, ◌&&◌, ◌||◌, not, List, [], ◌∷◌, ◌++◌,
  Text, ◌==◌, nat_eq, leb, ltb, if◌then◌else◌, codes, ℤ, pos, negsuc,
}
use Prim.Native.Nat.{max}
use tgdownloader.Prelude.Decimal.{decimal}
use tgdownloader.Renderer.Events.{Event, EventKind, progress_done, progress_fail}
use tgdownloader.Cmd.Output.{is_positive}

-- The styles of the parts of a row.
pub data Style : Type 0 where
  message_style error_style percent_style tracker_style stats_style time_style value_style : Style

-- `render` is `Style.Render`; `percent` is "%5.1f%%" of the share between 0 and 100, `filled` the floor
-- of the share between 0 and 1 times a width, `two_places` "%.2f" of a quotient, `duration` a rounded
-- `time.Duration`, more coarsely where the row has ended, and `eta` the text of what remains and
-- whether it is more than a second.
pub record Terminal : Type 0 where
  pub width : Text → ℕ
  pub clusters : Text → List Text
  pub render : Style → Text → Text
  pub percent : ℕ → ℕ → Text
  pub filled : ℕ → ℕ → ℕ → ℕ
  pub two_places : ℕ → ℕ → Text
  pub duration : ℕ → Bool → Text
  pub eta : ℕ → ℕ → ℕ → Text × Bool

abbrev pub label_max_width : ℕ
label_max_width = 50

abbrev pub label_min_width : ℕ
label_min_width = 4

abbrev pub bar_max_width : ℕ
bar_max_width = 23

abbrev pub bar_min_width : ℕ
bar_min_width = 3

-- `strings.Repeat` of one byte.
unfoldable pub repeat : ℕ → ℕ → Text
repeat c zero = []
repeat c (suc n) = c ∷ repeat c n

unfoldable pub is_terminal_progress : EventKind → Bool
is_terminal_progress progress_done = true
is_terminal_progress progress_fail = true
is_terminal_progress _ = false

-- `frame % period`, brought between 0 and the period.
abbrev pub frame_position : ℤ → ℕ → ℕ
frame_position (pos n) period = n % period
frame_position (negsuc n) period = let r = (n + 1) % period in if r == 0 then 0 else period - r

-- There and back again.
abbrev pub reflected : ℕ → ℕ → ℕ
reflected max_position p = if ltb max_position p then max_position * 2 - p else p

unfoldable pub indicator_position : ℕ → ℤ → ℕ
indicator_position max_position frame =
    if ltb 0 max_position
    then reflected max_position (frame_position frame (max_position * 2))
    else 0

-- The indicator "<#>" takes three cells, and one where there are fewer.
abbrev pub indicator_width : ℕ → ℕ
indicator_width width = if ltb width 3 then 1 else 3

abbrev pub indicator : ℕ → Text
indicator width = if ltb width 3 then codes "#" else codes "<#>"

unfoldable pub progress_indeterminate_bar : ℕ → ℤ → Text
unfolding repeat indicator_position
progress_indeterminate_bar width frame =
    let position = indicator_position (width - indicator_width width) frame in
    codes "["
    ++ repeat b'.' position
    ++ indicator width
    ++ repeat b'.' (width - position - indicator_width width)
    ++ codes "]"

abbrev pub full_bar : ℕ → ℕ → Text
full_bar c width = codes "[" ++ repeat c width ++ codes "]"

abbrev pub unknown_bar : EventKind → ℕ → ℤ → Text
unknown_bar progress_done width frame = full_bar b'#' width
unknown_bar progress_fail width frame = full_bar b'.' width
unknown_bar _ width frame = progress_indeterminate_bar width frame

-- An `int64` in decimal.
abbrev pub signed_decimal : ℕ → Text
signed_decimal n = if ltb n (2 ^ 63) then decimal n else b'-' ∷ decimal (2 ^ 64 - n)

abbrev pub is_at_least : ℕ → ℕ → Bool
is_at_least value scale = is_positive value && leb scale value

abbrev number_scales : List (ℕ × Text)
number_scales =
    (1_000_000_000_000_000, codes "Q")
    ∷ (1_000_000_000_000, codes "T")
    ∷ (1_000_000_000, codes "B")
    ∷ (1_000_000, codes "M")
    ∷ (1_000, codes "K")
    ∷ []

abbrev byte_scales : List (ℕ × Text)
byte_scales =
    (1_000_000_000_000_000, codes "PB")
    ∷ (1_000_000_000_000, codes "TB")
    ∷ (1_000_000_000, codes "GB")
    ∷ (1_000_000, codes "MB")
    ∷ (1_000, codes "KB")
    ∷ []

module _ (terminal : Terminal) where
  unfoldable pub progress_bar : Event → ℕ → ℤ → Text
  unfolding progress_indeterminate_bar
  progress_bar e width frame =
      let w = max 1 width in
      if is_positive e.total
      then codes "["
        ++ repeat b'#' (terminal.filled e.current e.total w)
        ++ repeat b'.' (w - terminal.filled e.current e.total w)
        ++ codes "]"
      else unknown_bar e.kind w frame

  unfoldable pub format_progress_scaled : ℕ → List (ℕ × Text) → Text
  format_progress_scaled value [] = signed_decimal value
  format_progress_scaled value ((scale, suffix) ∷ scales) =
      let rest = format_progress_scaled value scales in
      if is_at_least value scale then terminal.two_places value scale ++ suffix else rest

  unfoldable pub format_progress_number : ℕ → Text
  unfolding format_progress_scaled
  format_progress_number value = format_progress_scaled value number_scales

  unfoldable pub format_progress_bytes : ℕ → Text
  unfolding format_progress_scaled
  format_progress_bytes value =
      if is_at_least value 1_000
      then format_progress_scaled value byte_scales
      else signed_decimal value ++ codes "B"

  -- What remains, where it can be told.
  unfoldable pub format_progress_eta : Event → Text × Bool
  format_progress_eta e =
      if not (is_positive e.total)
        || not (is_positive e.current)
        || leb e.total e.current
        || not (is_positive e.elapsed)
      then ([], false)
      else terminal.eta e.current e.total e.elapsed
