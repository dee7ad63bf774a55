-- ===== src/Prelude/Sorting/Sorted.antt =====
-- Sorting sorts, and keeps every element.
use mathlib.Core.Path.{◌≡◌, refl}
use mathlib.Core.Bool.{Bool, true, false, ◌&&◌, not}
use mathlib.Core.List.{List, [], ◌∷◌, Permᴰ}
use mathlib.Core.List.Permᴰ
use native.Mathlib.Omega.{arith}
use tgdownloader.Prelude.Tests.{if◌then◌else◌}
use tgdownloader.Prelude.Lists.{all}
use tgdownloader.Prelude.Sorting.{Order, insert_by, sort_by}

module _ {ℓ κ} {A : Type ℓ} {K : Type κ} ⦃o : Order K⦄ (key : A → K) where
  -- Nothing of the list comes before the element.
  abbrev pub none_before : A → List A → Bool
  none_before a xs = all (λ x. not (o.less (key x) (key a))) xs

  abbrev pub sorted : List A → Bool
  sorted [] = true
  sorted (x ∷ xs) = none_before x xs && sorted xs

  none_before-insert_by :
      (b a : A) (xs : List A)
      → o.less (key a) (key b) ≡ false
      → none_before b xs ≡ true
      → none_before b (insert_by key a xs) ≡ true
  none_before-insert_by b a [] h n = ground (arith, h)
  none_before-insert_by b a (x ∷ xs) h n = ground (arith, h, n, none_before-insert_by b a xs h)

  none_before_trans :
      (a b : A) (xs : List A)
      → o.less (key b) (key a) ≡ false
      → none_before b xs ≡ true
      → none_before a xs ≡ true
  none_before_trans a b [] h n = refl
  none_before_trans a b (x ∷ xs) h n = ground (
    arith,
    h,
    n,
    none_before_trans a b xs h,
    o.less_trans (key x) (key a) (key b),
    o.less_total (key b) (key a),
    o.less_total (key a) (key b),
    o.less_irrefl (key a),
  )

  insert_by-sorted : (a : A) (xs : List A) → sorted xs ≡ true → sorted (insert_by key a xs) ≡ true
  insert_by-sorted a [] h = refl
  insert_by-sorted a (x ∷ xs) h = ground (
    arith,
    h,
    insert_by-sorted a xs,
    none_before-insert_by x a xs,
    none_before_trans a x xs,
    o.less_trans (key a) (key x) (key a),
    o.less_irrefl (key a),
  )

  pub sort_by-sorted : (xs : List A) → sorted (sort_by key xs) ≡ true
  sort_by-sorted [] = refl
  sort_by-sorted (x ∷ xs) = insert_by-sorted x (sort_by key xs) (sort_by-sorted xs)

  if_perm :
      (b : Bool) (a x : A) (xs rest : List A)
      → Permᴰ (a ∷ xs) rest
      → Permᴰ (a ∷ x ∷ xs) (if b then x ∷ rest else a ∷ x ∷ xs)
  if_perm true a x xs rest p = Permᴰ.trans (Permᴰ.swap refl refl) (Permᴰ.cons refl p)
  if_perm false a x xs rest p = Permᴰ.refl _

  perm-insert_by : (a : A) (xs : List A) → Permᴰ (a ∷ xs) (insert_by key a xs)
  perm-insert_by a [] = Permᴰ.refl _
  perm-insert_by a (x ∷ xs) =
      if_perm (o.less (key x) (key a)) a x xs (insert_by key a xs) (perm-insert_by a xs)

  pub perm-sort_by : (xs : List A) → Permᴰ xs (sort_by key xs)
  perm-sort_by [] = Permᴰ.nil
  perm-sort_by (x ∷ xs) =
      Permᴰ.trans (Permᴰ.cons refl (perm-sort_by xs)) (perm-insert_by x (sort_by key xs))
