-- ===== src/Renderer/Sanitize/Idempotent.antt =====
-- Trimming a settled text, sanitizing twice, and which runes a terminal can receive.
use tgdownloader.Prelude.{
  ℕ, ◌≡◌, refl, ◌∙◌, Bool, true, false, ◌||◌, some, [], ◌∷◌, ap, arith, Text, All, ◌==◌, nat_eq,
  Bool-cases, inl, inr, ◌⊎◌,
}
use tgdownloader.Renderer.Sanitize.{
  is_space, is_control, is_terminal_bidi_control, plain, Class, blank, joiner, graphic, classify,
  trim_left, trim_right, trim_space, keep_unless_blank, sanitize_terminal_text, space,
}
use tgdownloader.Renderer.Sanitize.Scan.{accept, IsSettled, scan-IsSettled, IsSettled-scan}

module _ (is_graphic : ℕ → Bool) where
  not-is_space-joiner : (r : ℕ) → classify is_graphic r ≡ joiner → is_space r ≡ false
  unfolding classify
  not-is_space-joiner r h = ground arith

  not-is_space-graphic : (r : ℕ) → classify is_graphic r ≡ graphic → is_space r ≡ false
  unfolding classify
  not-is_space-graphic r h = ground arith

  -- A rune that is accepted and is not blank is no white space.
  not-is_space-accept :
      (last next : Bool) (r : ℕ) (c : Class)
      → classify is_graphic r ≡ c
      → accept false true c ≡ some next
      → is_space r ≡ false
  not-is_space-accept last next r joiner e a = not-is_space-joiner r e
  not-is_space-accept last next r graphic e a = not-is_space-graphic r e
  not-is_space-accept last next r _ e a = cc

  accept-change :
      (l l' next : Bool) (c : Class)
      → accept true l c ≡ some next
      → (next' : Bool) × (accept true l' c ≡ some next')
  accept-change l l' next blank a = (true, refl)
  accept-change l l' next joiner a = (l', refl)
  accept-change l l' next graphic a = (false, refl)
  accept-change l l' next _ a = cc

  -- With spaces preserved, being settled does not depend on what stands in front.
  IsSettled-change :
      (l l' : Bool) (xs : Text) → IsSettled is_graphic true l xs → IsSettled is_graphic true l' xs
  IsSettled-change l l' [] h = tt
  IsSettled-change l l' (r ∷ rs) (next, a, h) =
      let (next', a') = accept-change l l' next (classify is_graphic r) a in
      (next', a', IsSettled-change next next' rs h)

  IsSettled-trim_left-true :
      (l : Bool) (xs : Text)
      → IsSettled is_graphic true l xs
      → IsSettled is_graphic true l (trim_left xs)
  unfolding trim_left
  IsSettled-trim_left-true l [] h = tt
  IsSettled-trim_left-true l (r ∷ rs) (next, a, h) = elim (Bool-cases (is_space r)) [
    | inl e ↦ rw e (IsSettled-trim_left-true l rs (IsSettled-change next l rs h))
    | inr e ↦ rw e (next, a, h)
  ]

  IsSettled-trim_left :
      (preserve : Bool) (xs : Text)
      → IsSettled is_graphic preserve true xs
      → IsSettled is_graphic preserve true (trim_left xs)
  unfolding trim_left
  IsSettled-trim_left true xs h = IsSettled-trim_left-true true xs h
  IsSettled-trim_left false [] h = tt
  IsSettled-trim_left false (r ∷ rs) (next, a, h) =
      rw (not-is_space-accept true next r (classify is_graphic r) refl a) (next, a, h)

  IsSettled-keep_unless_blank :
      (preserve last : Bool) (r : ℕ) (rs : Text)
      → IsSettled is_graphic preserve last (r ∷ rs)
      → IsSettled is_graphic preserve last (keep_unless_blank r rs)
  unfolding keep_unless_blank
  IsSettled-keep_unless_blank preserve last r [] h = elim (Bool-cases (is_space r)) [
    | inl e ↦ rw e tt
    | inr e ↦ rw e h
  ]
  IsSettled-keep_unless_blank preserve last r (x ∷ xs) h = h

  IsSettled-trim_right :
      (preserve last : Bool) (xs : Text)
      → IsSettled is_graphic preserve last xs
      → IsSettled is_graphic preserve last (trim_right xs)
  unfolding trim_right
  IsSettled-trim_right preserve last [] h = tt
  IsSettled-trim_right preserve last (r ∷ rs) (next, a, h) =
      IsSettled-keep_unless_blank preserve last r (trim_right rs)
        (next, a, IsSettled-trim_right preserve next rs h)

Text-cases : (xs : Text) → (xs ≡ []) ⊎ ((x : ℕ) × (ys : Text) × (xs ≡ x ∷ ys))
Text-cases [] = inl refl
Text-cases (x ∷ ys) = inr (x, ys, refl)

-- The first rune that is left is no white space.
abbrev StartsClean : Text → Type 0
StartsClean [] = Unit
StartsClean (r ∷ rs) = is_space r ≡ false

StartsClean-trim_left : (xs : Text) → StartsClean (trim_left xs)
unfolding trim_left
StartsClean-trim_left [] = tt
StartsClean-trim_left (r ∷ rs) = elim (Bool-cases (is_space r)) [
  | inl e ↦ rw e (StartsClean-trim_left rs)
  | inr e ↦ rw e e
]

trim_left-StartsClean : (xs : Text) → StartsClean xs → trim_left xs ≡ xs
unfolding trim_left
trim_left-StartsClean [] h = refl
trim_left-StartsClean (r ∷ rs) h = rw h refl

StartsClean-trim_right : (xs : Text) → StartsClean xs → StartsClean (trim_right xs)
unfolding trim_right keep_unless_blank
StartsClean-trim_right [] h = tt
StartsClean-trim_right (r ∷ rs) h = elim (Text-cases (trim_right rs)) [
  | inl e ↦ rw (e, h) h
  | inr (x, xs, e) ↦ rw e h
]

trim_right-keep :
    (r : ℕ) (xs : Text)
    → trim_right xs ≡ xs
    → trim_right (keep_unless_blank r xs) ≡ keep_unless_blank r xs
unfolding keep_unless_blank trim_right
trim_right-keep r [] e = elim (Bool-cases (is_space r)) [
  | inl b ↦ rw b refl
  | inr b ↦ rw (b, b) refl
]
trim_right-keep r (x ∷ xs) e = ap (keep_unless_blank r) e

trim_right-trim_right : (xs : Text) → trim_right (trim_right xs) ≡ trim_right xs
unfolding trim_right
trim_right-trim_right [] = refl
trim_right-trim_right (r ∷ rs) = trim_right-keep r (trim_right rs) (trim_right-trim_right rs)

pub trim_space-trim_space : (xs : Text) → trim_space (trim_space xs) ≡ trim_space xs
unfolding trim_space
trim_space-trim_space xs =
    rw (trim_left-StartsClean _ (StartsClean-trim_right _ (StartsClean-trim_left xs)))
      (trim_right-trim_right (trim_left xs))

module _ (is_graphic : ℕ → Bool) where
  sanitized-IsSettled :
      (value : Text) (preserve : Bool)
      → IsSettled is_graphic preserve true (sanitize_terminal_text is_graphic value preserve)
  unfolding sanitize_terminal_text trim_space
  sanitized-IsSettled value preserve = IsSettled-trim_right is_graphic preserve true _ (
      IsSettled-trim_left is_graphic preserve _
        (IsSettled-scan is_graphic preserve true plain value))

  sanitized-trimmed :
      (value : Text) (preserve : Bool)
      → trim_space (sanitize_terminal_text is_graphic value preserve)
        ≡ sanitize_terminal_text is_graphic value preserve
  unfolding sanitize_terminal_text
  sanitized-trimmed value preserve = trim_space-trim_space _

  -- Sanitizing a sanitized text changes nothing, in either mode and for every table of graphic
  -- runes.
  pub sanitize-sanitize :
      (value : Text) (preserve : Bool)
      → sanitize_terminal_text is_graphic
          (sanitize_terminal_text is_graphic value preserve)
          preserve
        ≡ sanitize_terminal_text is_graphic value preserve
  unfolding sanitize_terminal_text
  sanitize-sanitize value preserve =
      scanned (sanitize_terminal_text is_graphic value preserve)
        (sanitized-IsSettled value preserve) (sanitized-trimmed value preserve)
    where
      scanned :
          (out : Text)
          → IsSettled is_graphic preserve true out
          → trim_space out ≡ out
          → sanitize_terminal_text is_graphic out preserve ≡ out
      scanned out h t = ap trim_space (scan-IsSettled is_graphic preserve true out h) ∙ t

  -- What may stand in the output: a blank, or a joiner or graphic rune that is neither white space
  -- nor a control nor a bidirectional control.
  abbrev pub IsDisplayable : ℕ → Type 0
  IsDisplayable r =
      (r ≡ space)
      ⊎ ((is_space r ≡ false)
          × (is_control r ≡ false)
          × (is_terminal_bidi_control r ≡ false)
          × ((r == 0x200c || r == 0x200d || is_graphic r) ≡ true))

  IsDisplayable-of_class :
      (preserve last next : Bool) (r : ℕ) (c : Class)
      → classify is_graphic r ≡ c
      → accept preserve last c ≡ some next
      → IsDisplayable r
  unfolding classify
  IsDisplayable-of_class preserve last next r blank e a = inl (ground arith)
  IsDisplayable-of_class preserve last next r joiner e a =
      inr (ground arith, ground arith, ground arith, ground arith)
  IsDisplayable-of_class preserve last next r graphic e a =
      inr (ground arith, ground arith, ground arith, ground arith)
  IsDisplayable-of_class preserve last next r _ e a = cc

  All-IsDisplayable :
      (preserve last : Bool) (xs : Text)
      → IsSettled is_graphic preserve last xs
      → All IsDisplayable xs
  All-IsDisplayable preserve last [] h = tt
  All-IsDisplayable preserve last (r ∷ rs) (next, a, h) = (
    IsDisplayable-of_class preserve last next r (classify is_graphic r) refl a,
    All-IsDisplayable preserve next rs h,
  )

  -- Every rune of a sanitized text is displayable: no escape, no other control, no
  -- bidirectional control and no white space but the blank.
  pub sanitize-IsDisplayable :
      (value : Text) (preserve : Bool)
      → All IsDisplayable (sanitize_terminal_text is_graphic value preserve)
  sanitize-IsDisplayable value preserve =
      All-IsDisplayable preserve true _ (sanitized-IsSettled value preserve)
