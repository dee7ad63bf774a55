-- ===== src/Prelude/Map.antt =====
-- Go's `map` as an association list. The list's order stands for the iteration order, which Go
-- leaves open.
use tgdownloader.Prelude.{
  ◌≡◌, Bool, true, false, Option, none, some, List, [], ◌∷◌, arith, Eq, ◌==◌, if◌then◌else◌,
}

abbrev pub Map {ℓ κ} : Type ℓ → Type κ → Type (ℓ ⊔ κ)
Map K V = List (K × V)

module _ {ℓ κ} {K : Type ℓ} {V : Type κ} ⦃e : Eq K⦄ where
  unfoldable pub get : Map K V → K → Option V
  get [] k = none
  get ((j, v) ∷ m) k = if j == k then some v else get m k

  unfoldable pub put : Map K V → K → V → Map K V
  put [] k v = (k, v) ∷ []
  put ((j, w) ∷ m) k v = if j == k then (k, v) ∷ m else (j, w) ∷ put m k v

  unfoldable pub delete : Map K V → K → Map K V
  delete [] k = []
  delete ((j, w) ∷ m) k = let rest = delete m k in if j == k then rest else (j, w) ∷ rest

  pub get-put :
      (m : Map K V) (k j : K) (v : V) → get (put m k v) j ≡ (if k == j then some v else get m j)
  unfolding get put
  get-put [] k j v = ground arith
  get-put ((i, w) ∷ m) k j v =
      ground (arith, e.beq_iff k j, e.beq_iff i k, e.beq_iff i j, get-put m k j v)

  pub get-delete : (m : Map K V) (k j : K) → get (delete m k) j ≡ (if k == j then none else get m j)
  unfolding get delete
  get-delete [] k j = ground arith
  get-delete ((i, w) ∷ m) k j =
      ground (arith, e.beq_iff k j, e.beq_iff i k, e.beq_iff i j, get-delete m k j)

  -- What a key holds after a change of another, for `grind`.
  pub ruleset map_laws = (get-put, get-delete)

  abbrev pub has : Map K V → K → Bool
  has m k = elim (get m k) [ none ↦ false | some _ ↦ true ]

  pub get-put_same : (m : Map K V) (k : K) (v : V) → get (put m k v) k ≡ some v
  get-put_same m k v = grind (arith, map_laws, e.beq_iff)

  pub has-put_same : (m : Map K V) (k : K) (v : V) → has (put m k v) k ≡ true
  has-put_same m k v = ground (arith, get-put_same m k v)
