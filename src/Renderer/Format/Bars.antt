-- ===== src/Renderer/Format/Bars.antt =====
-- The length of the bars, and the way of the indicator.
use tgdownloader.Prelude.{
  ℕ, zero, suc, ◌+◌, ◌-◌, ◌*◌, ◌%◌, ◌≤◌, ◌<◌, ◌≡◌, ◌⊎◌, inl, inr, refl, sym, ap, ◌∙◌, ◌++◌, Text,
  length, length-append, ltb, arith, codes, Bool-cases, ℤ, pos, negsuc, branches, nat_eq,
}
use Prim.Native.Nat.{max}
use native.Mathlib.Nat.{mod-add-mod, mod-eq_of_lt, mod_self, mod-lt}
use tgdownloader.Renderer.Events.{
  Event, EventKind, line, progress_create, progress_update, progress_done, progress_fail, table,
  barrier,
}
use tgdownloader.Cmd.Output.{is_positive}
use tgdownloader.Renderer.Bar.{
  Terminal, repeat, frame_position, indicator_position, indicator_width, indicator,
  progress_indeterminate_bar, full_bar, unknown_bar, progress_bar,
}

length-repeat : (c n : ℕ) → length (repeat c n) ≡ n
unfolding repeat
length-repeat c zero = refl
length-repeat c (suc n) = omega (arith, length-repeat c n)

frame_position-lt : (frame : ℤ) (period : ℕ) → 0 < period → frame_position frame period < period
frame_position-lt (pos n) period h = omega (arith, h)
frame_position-lt (negsuc n) period h = ground (arith, h)

-- The indicator stays in the bar.
indicator_position-le :
    (max_position : ℕ) (frame : ℤ) → indicator_position max_position frame ≤ max_position
unfolding indicator_position
indicator_position-le max_position frame =
    let p = frame_position frame (max_position * 2) in
    elim (Bool-cases (ltb 0 max_position)) [
      | inl q ↦
          let h : p < max_position * 2 =
            frame_position-lt frame (max_position * 2) (ground (arith, q)) in
          rw q (elim (Bool-cases (ltb max_position p)) [
            | inl r ↦ rw r (ground (arith, h, r))
            | inr r ↦ rw r (ground (arith, h, r))
          ])
      | inr q ↦ rw q (omega arith)
    ]

length-indicator : (width : ℕ) → length (indicator width) ≡ indicator_width width
length-indicator width = elim (Bool-cases (ltb width 3)) [ inl q ↦ rw q refl | inr q ↦ rw q refl ]

indicator_width-le : (width : ℕ) → 1 ≤ width → indicator_width width ≤ width
indicator_width-le width h = ground (arith, h)

-- A bar of three pieces between its brackets.
length-pieces :
    (a b c : Text)
    → length (codes "[" ++ a ++ b ++ c ++ codes "]") ≡ length a + length b + length c + 2
length-pieces a b c = omega (
  arith,
  length-append (codes "[" ++ a ++ b ++ c) (codes "]"),
  length-append (codes "[" ++ a ++ b) c,
  length-append (codes "[" ++ a) b,
  length-append (codes "[") a,
)

length-progress_indeterminate_bar :
    (width : ℕ) (frame : ℤ)
    → 1 ≤ width
    → length (progress_indeterminate_bar width frame) ≡ width + 2
unfolding progress_indeterminate_bar
length-progress_indeterminate_bar width frame h =
    let position : ℕ = indicator_position (width - indicator_width width) frame in
    omega (
      arith,
      h,
      length-pieces (repeat b'.' position) (indicator width)
          (repeat b'.' (width - position - indicator_width width)),
      length-repeat b'.' position,
      length-repeat b'.' (width - position - indicator_width width),
      length-indicator width,
      indicator_width-le width h,
      indicator_position-le (width - indicator_width width) frame,
    )

length-full_bar : (c width : ℕ) → length (full_bar c width) ≡ width + 2
length-full_bar c width = omega (
  arith,
  length-append (codes "[" ++ repeat c width) (codes "]"),
  length-append (codes "[") (repeat c width),
  length-repeat c width,
)

length-unknown_bar :
    (kind : EventKind) (width : ℕ) (frame : ℤ)
    → 1 ≤ width
    → length (unknown_bar kind width frame) ≡ width + 2
length-unknown_bar progress_done width frame h = length-full_bar b'#' width
length-unknown_bar progress_fail width frame h = length-full_bar b'.' width
length-unknown_bar line width frame h = length-progress_indeterminate_bar width frame h
length-unknown_bar progress_create width frame h = length-progress_indeterminate_bar width frame h
length-unknown_bar progress_update width frame h = length-progress_indeterminate_bar width frame h
length-unknown_bar table width frame h = length-progress_indeterminate_bar width frame h
length-unknown_bar barrier width frame h = length-progress_indeterminate_bar width frame h

-- Where the share of the bar that is filled is not more than the bar, as the share between 0 and 1 of
-- a width is, every bar takes its width, at least one cell, and two brackets: for a known or an unknown
-- total, a row that runs or has ended, and every frame of the animation, also a negative one.
pub length-progress_bar :
    (terminal : Terminal)
    (filled : (current total width : ℕ) → terminal.filled current total width ≤ width) (e : Event)
    (width : ℕ) (frame : ℤ)
    → length (progress_bar terminal e width frame) ≡ max 1 width + 2
unfolding progress_bar
length-progress_bar terminal filled e width frame =
    let w : ℕ = max 1 width in
    let k : ℕ = terminal.filled e.current e.total w in
    let known : length (codes "[" ++ repeat b'#' k ++ repeat b'.' (w - k) ++ codes "]") ≡ w + 2 =
      omega (
        arith,
        filled e.current e.total w,
        length-append (codes "[" ++ repeat b'#' k ++ repeat b'.' (w - k)) (codes "]"),
        length-append (codes "[" ++ repeat b'#' k) (repeat b'.' (w - k)),
        length-append (codes "[") (repeat b'#' k),
        length-repeat b'#' k,
        length-repeat b'.' (w - k),
      ) in
    branches (λ (b : Text). length b ≡ w + 2) (is_positive e.total) known
      (length-unknown_bar e.kind w frame (omega arith))

mod_next : (n p : ℕ) → 1 < p → ((n + 1) % p ≡ n % p + 1) ⊎ (((n + 1) % p ≡ 0) × (n % p + 1 ≡ p))
mod_next n p h =
    let r : ℕ = n % p in
    let next : (n + 1) % p ≡ (r + 1) % p = sym (mod-add-mod n p 1) in
    elim (Bool-cases (ltb (r + 1) p)) [
      | inl q ↦ inl (next ∙ mod-eq_of_lt (ground (arith, q)))
      | inr q ↦
          let last : r + 1 ≡ p = ground (arith, q, mod-lt n {m = p} (omega (arith, h))) in
          inr (next ∙ ap (λ x. x % p) last ∙ mod_self p, last)
    ]

-- Where the bar has room beside the indicator, each frame moves it by exactly one cell, to the right or
-- to the left: it neither rests nor jumps, also where it turns and where the frames begin anew.
pub indicator_position-moves :
    (max_position n : ℕ)
    → 0 < max_position
    → (indicator_position max_position (pos (n + 1)) ≡ indicator_position max_position (pos n) + 1)
      ⊎ (indicator_position max_position (pos n)
          ≡ indicator_position max_position (pos (n + 1)) + 1)
unfolding indicator_position
indicator_position-moves m n h =
    ground
      (arith, h, mod_next n (m * 2) (omega (arith, h)), mod-lt n {m = m * 2} (omega (arith, h)))
