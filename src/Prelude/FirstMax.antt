-- ===== src/Prelude/FirstMax.antt =====
-- The first of the greatest elements of a list: what a loop finds that replaces its candidate by a
-- strictly greater one.
use tgdownloader.Prelude.{
  ℕ, ◌≡◌, ◌≤◌, ◌<◌, refl, sym, ap, ◌∙◌, true, false, List, [], ◌∷◌, ◌++◌, append-nil, append_assoc,
  arith, ltb, if◌then◌else◌, All, All-append, Bool-cases, inl, inr, subst,
}

module _ {ℓ} {A : Type ℓ} (key : A → ℕ) where
  unfoldable pub first_max : A → List A → A
  first_max best [] = best
  first_max best (x ∷ xs) = first_max (if ltb (key best) (key x) then x else best) xs

  pub first_max-greater :
      (b x : A) (xs : List A) → ltb (key b) (key x) ≡ true → first_max b (x ∷ xs) ≡ first_max x xs
  unfolding first_max
  first_max-greater b x xs h = rw h refl

  pub first_max-others :
      (b x : A) (xs : List A) → ltb (key b) (key x) ≡ false → first_max b (x ∷ xs) ≡ first_max b xs
  unfolding first_max
  first_max-others b x xs h = rw h refl

  -- What stands before it is smaller, and what stands behind it is not greater.
  pub record IsFirstMax (xs : List A) (x : A) : Type ℓ where
    pub before : List A
    pub after : List A
    pub splits : xs ≡ before ++ (x ∷ after)
    pub smaller : All (λ y. key y < key x) before
    pub not_greater : All (λ y. key y ≤ key x) after

  All-lt :
      (xs : List A) (a b : A)
      → key a < key b
      → All (λ y. key y ≤ key a) xs
      → All (λ y. key y < key b) xs
  All-lt [] a b h k = tt
  All-lt (x ∷ xs) a b h k = (omega (arith, h, k.0), All-lt xs a b h k.1)

  All-lt_trans :
      (xs : List A) (a b : A)
      → key a < key b
      → All (λ y. key y < key a) xs
      → All (λ y. key y < key b) xs
  All-lt_trans [] a b h k = tt
  All-lt_trans (x ∷ xs) a b h k = (omega (arith, h, k.0), All-lt_trans xs a b h k.1)

  IsFirstMax-step :
      (seen : List A) (best x : A)
      → IsFirstMax seen best
      → IsFirstMax (seen ++ (x ∷ [])) (if ltb (key best) (key x) then x else best)
  IsFirstMax-step seen best x h = elim (Bool-cases (ltb (key best) (key x))) [
    | inl q ↦ rw q (record {
      before = seen;
      after = [];
      splits = refl;
      smaller = subst (All (λ y. key y < key x)) (sym h.splits) (
          All-append (λ y. key y < key x) h.before (best ∷ h.after)
            (All-lt_trans h.before best x (ground (arith, q)) h.smaller)
            (ground (arith, q), All-lt h.after best x (ground (arith, q)) h.not_greater));
      not_greater = tt;
    })
    | inr q ↦ rw q (record {
      before = h.before;
      after = h.after ++ (x ∷ []);
      splits = ap (λ z. z ++ (x ∷ [])) h.splits ∙ append_assoc h.before (best ∷ h.after) (x ∷ []);
      smaller = h.smaller;
      not_greater =
          All-append (λ y. key y ≤ key best) h.after (x ∷ []) h.not_greater (ground (arith, q), tt);
    })
  ]

  first_max-seen :
      (seen : List A) (best : A) (xs : List A)
      → IsFirstMax seen best
      → IsFirstMax (seen ++ xs) (first_max best xs)
  unfolding first_max
  first_max-seen seen best [] h = rw (append-nil seen) h
  first_max-seen seen best (x ∷ xs) h =
      subst (λ l. IsFirstMax l (first_max best (x ∷ xs))) (append_assoc seen (x ∷ []) xs)
        (first_max-seen (seen ++ (x ∷ [])) _ xs (IsFirstMax-step seen best x h))

  pub first_max-IsFirstMax : (best : A) (xs : List A) → IsFirstMax (best ∷ xs) (first_max best xs)
  first_max-IsFirstMax best xs =
      first_max-seen (best ∷ []) best xs
        (record { before = []; after = []; splits = refl; smaller = tt; not_greater = tt })
