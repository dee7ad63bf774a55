-- ===== src/Renderer/Sanitize.antt =====
-- internal/renderer/sanitize.go: terminal control sequences are removed from display text. Text is
-- the sequence of runes that Go's `range` yields. `unicode.IsGraphic` is a table of the Unicode
-- standard and a parameter here; `unicode.IsSpace` and `unicode.IsControl` are written out.
pub mod Scan
pub mod Idempotent
use tgdownloader.Prelude.{
  ℕ, Bool, true, false, not, ◌&&◌, ◌||◌, List, [], ◌∷◌, ◌++◌, Text, ◌==◌, nat_eq, leb,
  if◌then◌else◌,
}

abbrev pub space : ℕ
space = b' '

-- `unicode.IsSpace`: the White_Space property.
unfoldable pub is_space : ℕ → Bool
is_space r =
    (leb 0x09 r && leb r 0x0d)
    || r == 0x20
    || r == 0x85
    || r == 0xa0
    || r == 0x1680
    || (leb 0x2000 r && leb r 0x200a)
    || r == 0x2028
    || r == 0x2029
    || r == 0x202f
    || r == 0x205f
    || r == 0x3000

-- `unicode.IsControl`: the category Cc.
unfoldable pub is_control : ℕ → Bool
is_control r = leb r 0x1f || (leb 0x7f r && leb r 0x9f)

unfoldable pub is_terminal_bidi_control : ℕ → Bool
is_terminal_bidi_control r =
    r == 0x061c
    || r == 0x200e
    || r == 0x200f
    || (leb 0x202a r && leb r 0x202e)
    || (leb 0x2066 r && leb r 0x2069)

-- `escapeState`, 0 to 4 in this order.
pub data Escape : Type 0 where
  plain introducer csi osc osc_escape : Escape

-- The cases of the second `switch`, in its order; `other` is a rune that matches none.
pub data Class : Type 0 where
  to_introducer to_csi to_osc bidi blank white control joiner graphic other : Class

pub record State : Type 0 where
  pub escape : Escape
  pub last_was_space : Bool

abbrev pub state : Escape → Bool → State
state e l = record { escape = e; last_was_space = l }

-- The first `switch`: inside a control sequence every rune is dropped.
unfoldable pub escape_step : Escape → ℕ → Escape
escape_step plain r = plain
escape_step introducer r = if r == b'[' then csi else if r == b']' then osc else plain
escape_step csi r = if leb 0x40 r && leb r 0x7e then plain else csi
escape_step osc r = if r == 0x07 then plain else if r == 0x1b then osc_escape else osc
escape_step osc_escape r = if r == 0x5c then plain else osc

module _ (is_graphic : ℕ → Bool) where
  unfoldable pub classify : ℕ → Class
  classify r =
      if r == 0x1b
      then to_introducer
      else if r == 0x9b
      then to_csi
      else if r == 0x9d
      then to_osc
      else if is_terminal_bidi_control r
      then bidi
      else if r == space
      then blank
      else if is_space r
      then white
      else if is_control r
      then control
      else if r == 0x200c || r == 0x200d
      then joiner
      else if is_graphic r
      then graphic
      else other

-- The body of a case: the next state, and what is written.
unfoldable pub class_step : Bool → Bool → Class → ℕ → State × Text
class_step preserve last to_introducer r = (state introducer last, [])
class_step preserve last to_csi r = (state csi last, [])
class_step preserve last to_osc r = (state osc last, [])
class_step preserve last bidi r = (state plain last, [])
class_step preserve last blank r = (state plain true, if preserve || not last then r ∷ [] else [])
class_step preserve last white r = (state plain true, if not last then space ∷ [] else [])
class_step preserve last control r =
    if not preserve && not last then (state plain true, space ∷ []) else (state plain last, [])
class_step preserve last joiner r = (state plain last, r ∷ [])
class_step preserve last graphic r = (state plain false, r ∷ [])
class_step preserve last other r = (state plain last, [])

unfoldable pub trim_left : Text → Text
trim_left [] = []
trim_left (r ∷ rs) = let rest = trim_left rs in if is_space r then rest else r ∷ rs

unfoldable pub keep_unless_blank : ℕ → Text → Text
keep_unless_blank r [] = if is_space r then [] else r ∷ []
keep_unless_blank r (x ∷ xs) = r ∷ x ∷ xs

unfoldable pub trim_right : Text → Text
unfolding keep_unless_blank
trim_right [] = []
trim_right (r ∷ rs) = keep_unless_blank r (trim_right rs)

-- `strings.TrimSpace`.
unfoldable pub trim_space : Text → Text
trim_space value = trim_right (trim_left value)

module _ (is_graphic : ℕ → Bool) where
  -- One round of the loop.
  unfoldable pub rune_step : Bool → Escape → Bool → ℕ → State × Text
  rune_step preserve plain last r = class_step preserve last (classify is_graphic r) r
  rune_step preserve e last r = (state (escape_step e r) last, [])

  -- The loop: what `out` receives.
  unfoldable pub scan : Bool → State → Text → Text
  scan preserve s [] = []
  scan preserve s (r ∷ rs) =
      let (s', written) = rune_step preserve s.escape s.last_was_space r in
      written ++ scan preserve s' rs

  unfoldable pub sanitize_terminal_text : Text → Bool → Text
  sanitize_terminal_text value preserve = trim_space (scan preserve (state plain true) value)
