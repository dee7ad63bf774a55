-- ===== src/Prelude/Sorting.antt =====
-- A strict total order as an interface, and insertion sort: Go's `sort.Slice` up to the order of
-- elements that the comparison does not tell apart.
pub mod Permuted
pub mod Sorted
use Prim.Native.Nat.{ℕ, ◌<◌}
use mathlib.Core.Path.{◌≡◌, refl, sym, ap, ◌∙◌}
use mathlib.Core.Bool.{Bool, true, false, ◌&&◌}
use mathlib.Core.List.{List, [], ◌∷◌, map}
use native.Mathlib.Omega.{arith}
use tgdownloader.Prelude.Tests.{ltb, nat_beq, nat_beq_iff, if◌then◌else◌}
use tgdownloader.Prelude.Equality.{Eq, ◌==◌, nat_eq, list_eq, list_beq_iff}

pub record Order {ℓ} (A : Type ℓ) : Type ℓ where
  pub less : A → A → Bool
  pub less_irrefl : (a : A) → less a a ≡ false
  pub less_trans : (a b c : A) → less a b ≡ true → less b c ≡ true → less a c ≡ true
  pub less_total : (a b : A) → less a b ≡ false → less b a ≡ false → a ≡ b

pub ltb_irrefl : (a : ℕ) → ltb a a ≡ false
ltb_irrefl a = ground arith

pub ltb_trans : (a b c : ℕ) → ltb a b ≡ true → ltb b c ≡ true → ltb a c ≡ true
ltb_trans a b c p q = ground (arith, p, q)

pub ltb_total : (a b : ℕ) → ltb a b ≡ false → ltb b a ≡ false → a ≡ b
ltb_total a b p q = ground (arith, p, q)

instance abbrev pub nat_order : Order ℕ
nat_order = record {
  less = ltb;
  less_irrefl = ltb_irrefl;
  less_trans = ltb_trans;
  less_total = ltb_total;
}

module _ {ℓ} {A : Type ℓ} ⦃o : Order A⦄ where
  -- Go's `<` on strings, by code points.
  abbrev pub list_less : List A → List A → Bool
  list_less xs [] = false
  list_less [] (y ∷ ys) = true
  list_less (x ∷ xs) (y ∷ ys) =
      let rest = list_less xs ys in if o.less x y then true else if o.less y x then false else rest

  pub list_less_irrefl : (xs : List A) → list_less xs xs ≡ false
  list_less_irrefl [] = refl
  list_less_irrefl (x ∷ xs) = ground (arith, list_less_irrefl xs, o.less_irrefl x)

  pub list_less_trans :
      (xs ys zs : List A) → list_less xs ys ≡ true → list_less ys zs ≡ true → list_less xs zs ≡ true
  list_less_trans [] [] zs p q = q
  list_less_trans [] (y ∷ ys) [] p q = q
  list_less_trans [] (y ∷ ys) (z ∷ zs) p q = refl
  list_less_trans (x ∷ xs) [] zs p q = ground (arith, p)
  list_less_trans (x ∷ xs) (y ∷ ys) [] p q = q
  list_less_trans (x ∷ xs) (y ∷ ys) (z ∷ zs) p q = ground (
    arith,
    p,
    q,
    list_less_trans xs ys zs,
    o.less_trans x y z,
    o.less_trans z x y,
    o.less_trans y z x,
    o.less_irrefl x,
    o.less_irrefl y,
    o.less_total x y,
    o.less_total y z,
  )

  pub list_less_total :
      (xs ys : List A) → list_less xs ys ≡ false → list_less ys xs ≡ false → xs ≡ ys
  list_less_total [] [] p q = refl
  list_less_total [] (y ∷ ys) p q = ground (arith, p)
  list_less_total (x ∷ xs) [] p q = ground (arith, q)
  list_less_total (x ∷ xs) (y ∷ ys) p q =
      ground (arith, p, q, list_less_total xs ys, o.less_total x y)

  instance abbrev pub list_order : Order (List A)
  list_order = record {
    less = list_less;
    less_irrefl = list_less_irrefl;
    less_trans = list_less_trans;
    less_total = list_less_total;
  }

module _ {ℓ κ} {A : Type ℓ} {K : Type κ} ⦃o : Order K⦄ where
  -- By the key of an element.
  abbrev pub insert_by : (A → K) → A → List A → List A
  insert_by key a [] = a ∷ []
  insert_by key a (x ∷ xs) =
      let rest = insert_by key a xs in if o.less (key x) (key a) then x ∷ rest else a ∷ x ∷ xs

  abbrev pub sort_by : (A → K) → List A → List A
  sort_by key [] = []
  sort_by key (x ∷ xs) = insert_by key x (sort_by key xs)
