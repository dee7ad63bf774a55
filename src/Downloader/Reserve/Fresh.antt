-- ===== src/Downloader/Reserve/Fresh.antt =====
-- `claimIdentifiedPath` ends: its candidates are all different, so one of them is not claimed.
use tgdownloader.Prelude.{
  ℕ, zero, suc, ◌+◌, ◌<◌, ◌≤◌, ◌≡◌, refl, ap, true, none, some, [], ◌∷◌, ◌++◌, Text, nat_eq,
  list_eq, length, length-append, arith, Bool-cases, Option-cases, inl, inr, Eq, beq_ne,
}
use native.Mathlib.Nat.{add-zero}
use tgdownloader.Prelude.Map
use tgdownloader.Prelude.Map.{Map}
use tgdownloader.Prelude.Decimal.{decimal, decimal_inj}
use tgdownloader.Downloader.FilePath.{trim_suffix, ext}
use tgdownloader.Downloader.Reserve.{
  path_with_identity, numbered, is_free, claim_loop, claim_identified_path,
}

module _ {ℓ κ} {K : Type ℓ} {V : Type κ} ⦃e : Eq K⦄ where
  length-delete_le : (m : Map K V) (k : K) → length (Map.delete m k) ≤ length m
  unfolding Map.delete
  length-delete_le [] k = omega arith
  length-delete_le ((j, w) ∷ m) k = ground (arith, length-delete_le m k)

  length-delete :
      (m : Map K V) (k : K) (v : V) → Map.get m k ≡ some v → length (Map.delete m k) < length m
  unfolding Map.delete Map.get
  length-delete [] k v h = cc
  length-delete ((j, w) ∷ m) k v h = ground (arith, length-delete_le m k, length-delete m k v)

  -- Of more different keys than there are entries one has no entry.
  unused_key :
      (fuel : ℕ) (m : Map K V) (key : ℕ → K)
      → ((i j : ℕ) → key i ≡ key j → i ≡ j)
      → length m < fuel
      → (i : ℕ) × (i < fuel) × (Map.get m (key i) ≡ none)
  unused_key zero m key inj h = absurd (omega arith)
  unused_key (suc fuel) m key inj h = elim (Option-cases (Map.get m (key 0))) [
    | inl e ↦ (0, omega arith, e)
    | inr (v, e) ↦
        let (i, lt, none_left) =
          unused_key fuel (Map.delete m (key 0)) (λ i. key (suc i))
            (λ i j p. omega (arith, inj (suc i) (suc j) p))
            (omega (arith, length-delete m (key 0) v e)) in
        (
          suc i,
          omega arith,
          rw
              (
                Map.get-delete,
                beq_ne (key 0) (key (suc i)) (λ p. absurd (omega (arith, inj 0 (suc i) p))),
              )
              at none_left,
        )
  ]

-- The candidates of the loop: the first has no number, the next have 2, 3, ….
abbrev nth_identity : Text → ℕ → Text
nth_identity identity zero = identity
nth_identity identity (suc n) = numbered identity (n + 2)

abbrev candidate : Text → Text → ℕ → Text
candidate output_path identity n = path_with_identity output_path (nth_identity identity n)

append_cancel_left : (xs ys zs : Text) → xs ++ ys ≡ xs ++ zs → ys ≡ zs
append_cancel_left [] ys zs h = h
append_cancel_left (x ∷ xs) ys zs h = append_cancel_left xs ys zs (cc)

append_cancel_right : (xs ys zs : Text) → xs ++ zs ≡ ys ++ zs → xs ≡ ys
append_cancel_right [] [] zs h = refl
append_cancel_right [] (y ∷ ys) zs h = absurd (omega (arith, ap length h, length-append {0} ys zs))
append_cancel_right (x ∷ xs) [] zs h = absurd (omega (arith, ap length h, length-append {0} xs zs))
append_cancel_right (x ∷ xs) (y ∷ ys) zs h = cc (append_cancel_right xs ys zs (cc))

path_with_identity_inj : (p i j : Text) → path_with_identity p i ≡ path_with_identity p j → i ≡ j
unfolding path_with_identity
path_with_identity_inj p i j h =
    let h' : b'_' ∷ (i ++ ext p) ≡ b'_' ∷ (j ++ ext p) =
      append_cancel_left (trim_suffix p (ext p)) _ _ h in
    append_cancel_right i j (ext p) (cc)

nth_identity_inj : (id : Text) (i j : ℕ) → nth_identity id i ≡ nth_identity id j → i ≡ j
unfolding numbered
nth_identity_inj id zero zero h = refl
nth_identity_inj id zero (suc j) h =
    absurd (omega (arith, ap length h, length-append {0} id (b'-' ∷ decimal (j + 2))))
nth_identity_inj id (suc i) zero h =
    absurd (omega (arith, ap length h, length-append {0} id (b'-' ∷ decimal (i + 2))))
nth_identity_inj id (suc i) (suc j) h =
    let h' : b'-' ∷ decimal (i + 2) ≡ b'-' ∷ decimal (j + 2) = append_cancel_left id _ _ h in
    omega (arith, decimal_inj (i + 2) (j + 2) (cc))

candidate_inj : (p id : Text) (i j : ℕ) → candidate p id i ≡ candidate p id j → i ≡ j
candidate_inj p id i j h = nth_identity_inj id i j (path_with_identity_inj p _ _ h)

-- The result of a round of the loop that can be relied on: the candidate was free, and is claimed.
pub record IsClaimed (claims : Map Text Text) (identity : Text) (r : Text × Map Text Text)
    : Type 0 where
  pub was_free : is_free (Map.get claims r.0) identity ≡ true
  pub now : r.1 ≡ Map.put claims r.0 identity

-- A free candidate ahead of the loop makes it end in time.
claim_loop-ends :
    (fuel : ℕ) (claims : Map Text Text) (p id : Text) (n i : ℕ)
    → i < fuel
    → Map.get claims (candidate p id (n + i)) ≡ none
    → (r : Text × Map Text Text) × (claim_loop fuel claims p id (candidate p id n) (n + 2) ≡ some r)
      × IsClaimed claims id r
unfolding claim_loop
claim_loop-ends zero claims p id n i h e = absurd (omega arith)
claim_loop-ends (suc fuel) claims p id n zero h e =
    let at_n : Map.get claims (candidate p id n) ≡ none = rw add-zero at e in
    let free : is_free (Map.get claims (candidate p id n)) id ≡ true = rw at_n refl in
    (
      (candidate p id n, Map.put claims (candidate p id n) id),
      rw (free, claim_loop) refl,
      record { was_free = free; now = refl },
    )
claim_loop-ends (suc fuel) claims p id n (suc i) h e =
    elim (Bool-cases (is_free (Map.get claims (candidate p id n)) id)) [
      | inl free ↦ (
        (candidate p id n, Map.put claims (candidate p id n) id),
        rw (free, claim_loop) refl,
        record { was_free = free; now = refl },
      )
      | inr taken ↦
          let shift : n + suc i ≡ suc n + i = omega arith in
          let next_suffix : suc n + 2 ≡ n + 2 + 1 = omega arith in
          let (r, ends, claimed) =
            claim_loop-ends fuel claims p id (suc n) i (omega arith) (rw shift at e) in
          (r, rw (taken, claim_loop) (rw next_suffix at ends), claimed)
    ]

-- `claimIdentifiedPath` always returns: among one candidate more than there are claims one is free.
-- The path it returns was free for the identity, and what it changes is that path's claim alone.
pub claim_identified_path-ends :
    (claims : Map Text Text) (output_path identity : Text)
    → (r : Text × Map Text Text) × (claim_identified_path claims output_path identity ≡ some r)
      × IsClaimed claims identity r
unfolding claim_identified_path
claim_identified_path-ends claims p id =
    let (i, lt, free) =
      unused_key (suc (length claims)) claims (candidate p id) (candidate_inj p id) (omega arith) in
    claim_loop-ends (suc (length claims)) claims p id 0 i lt
      (let z : i ≡ 0 + i = omega arith in rw z at free)
