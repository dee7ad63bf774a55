-- ===== src/Renderer/Sanitize/Scan.antt =====
-- What the loop of sanitize.go writes is settled: a second pass over it writes every rune again.
use tgdownloader.Prelude.{
  ℕ, ◌≡◌, refl, Bool, true, false, not, ◌||◌, Option, none, some, [], ◌∷◌, ◌++◌, ap, arith, Text,
  if◌then◌else◌,
}
use tgdownloader.Renderer.Sanitize.{
  space, is_terminal_bidi_control, Escape, plain, introducer, csi, osc, osc_escape, Class,
  to_introducer, to_csi, to_osc, bidi, blank, white, control, joiner, graphic, other, state,
  classify, class_step, rune_step, scan,
}

-- The next `lastWasSpace` where a rune of this class is written as it is.
abbrev pub accept : Bool → Bool → Class → Option Bool
accept preserve last blank = if preserve || not last then some true else none
accept preserve last joiner = some last
accept preserve last graphic = some false
accept preserve last to_introducer = none
accept preserve last to_csi = none
accept preserve last to_osc = none
accept preserve last bidi = none
accept preserve last white = none
accept preserve last control = none
accept preserve last other = none

module _ (is_graphic : ℕ → Bool) where
  pub class_of : ℕ → Class
  class_of r = classify is_graphic r

  abbrev pub IsSettled : Bool → Bool → Text → Type 0
  IsSettled preserve last [] = Unit
  IsSettled preserve last (r ∷ rs) =
      (next : Bool) × (accept preserve last (classify is_graphic r) ≡ some next)
      × IsSettled preserve next rs

  classify-space : classify is_graphic space ≡ blank
  unfolding classify is_terminal_bidi_control
  classify-space = refl

  -- The rune itself is written, and the state becomes the accepted one.
  class_step-accept :
      (preserve last next : Bool) (c : Class) (r : ℕ)
      → accept preserve last c ≡ some next
      → class_step preserve last c r ≡ (state plain next, r ∷ [])
  unfolding class_step
  class_step-accept preserve last next blank r h = ground arith
  class_step-accept preserve last next joiner r h = ground arith
  class_step-accept preserve last next graphic r h = ground arith
  class_step-accept preserve last next _ r h = cc

  pub scan-IsSettled :
      (preserve last : Bool) (value : Text)
      → IsSettled preserve last value
      → scan is_graphic preserve (state plain last) value ≡ value
  unfolding scan rune_step
  scan-IsSettled preserve last [] h = refl
  scan-IsSettled preserve last (r ∷ rs) (next, a, h) =
      rw (class_step-accept preserve last next (classify is_graphic r) r a)
        (ap (r ∷◌) (scan-IsSettled preserve next rs h))

  -- One class at a time: what a case writes is settled in front of what the rest writes.
  class_step-IsSettled :
      (preserve last : Bool) (r : ℕ) (c : Class) (rest : Text)
      → classify is_graphic r ≡ c
      → IsSettled preserve (class_step preserve last c r).0.last_was_space rest
      → IsSettled preserve last ((class_step preserve last c r).1 ++ rest)
  unfolding class_step
  class_step-IsSettled true last r blank rest e h = (true, rw e refl, h)
  class_step-IsSettled false true r blank rest e h = h
  class_step-IsSettled false false r blank rest e h = (true, rw e refl, h)
  class_step-IsSettled preserve true r white rest e h = h
  class_step-IsSettled true false r white rest e h = (true, rw classify-space refl, h)
  class_step-IsSettled false false r white rest e h = (true, rw classify-space refl, h)
  class_step-IsSettled true last r control rest e h = h
  class_step-IsSettled false true r control rest e h = h
  class_step-IsSettled false false r control rest e h = (true, rw classify-space refl, h)
  class_step-IsSettled preserve last r joiner rest e h = (last, rw e refl, h)
  class_step-IsSettled preserve last r graphic rest e h = (false, rw e refl, h)
  class_step-IsSettled preserve last r _ rest e h = h

  -- Whatever the state and the input, what the loop writes is settled.
  pub IsSettled-scan :
      (preserve last : Bool) (e : Escape) (value : Text)
      → IsSettled preserve last (scan is_graphic preserve (state e last) value)
  unfolding scan rune_step
  IsSettled-scan preserve last e [] = tt
  IsSettled-scan preserve last plain (r ∷ rs) =
      let s = (class_step preserve last (classify is_graphic r) r).0 in
      class_step-IsSettled preserve last r (classify is_graphic r) _ refl
        (IsSettled-scan preserve s.last_was_space s.escape rs)
  IsSettled-scan preserve last introducer (r ∷ rs) = IsSettled-scan preserve last _ rs
  IsSettled-scan preserve last csi (r ∷ rs) = IsSettled-scan preserve last _ rs
  IsSettled-scan preserve last osc (r ∷ rs) = IsSettled-scan preserve last _ rs
  IsSettled-scan preserve last osc_escape (r ∷ rs) = IsSettled-scan preserve last _ rs
