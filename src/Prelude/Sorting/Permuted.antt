-- ===== src/Prelude/Sorting/Permuted.antt =====
-- Sorting forgets the order of its input: what it gives, seen by the keys, is the same for a
-- permutation, and is sorted.
use mathlib.Core.Path.{◌≡◌, refl, sym, ap, ◌∙◌}
use mathlib.Core.List.{List, [], ◌∷◌, map, Permᴰ, Memᴰ}
use native.Mathlib.Omega.{arith}
use tgdownloader.Prelude.Sorting.{Order, insert_by, sort_by}

pub mem-permuted {ℓ} : {A : Type ℓ} {a : A} {xs ys : List A} → Permᴰ xs ys → Memᴰ a xs → Memᴰ a ys
mem-permuted Permᴰ.nil m = m
mem-permuted (Permᴰ.cons e r) (Memᴰ.head p) = Memᴰ.head (p ∙ e)
mem-permuted (Permᴰ.cons e r) (Memᴰ.tail m) = Memᴰ.tail (mem-permuted r m)
mem-permuted (Permᴰ.swap p q) (Memᴰ.head e) = Memᴰ.tail (Memᴰ.head (e ∙ p))
mem-permuted (Permᴰ.swap p q) (Memᴰ.tail (Memᴰ.head e)) = Memᴰ.head (e ∙ q)
mem-permuted (Permᴰ.swap p q) (Memᴰ.tail (Memᴰ.tail m)) = Memᴰ.tail (Memᴰ.tail m)
mem-permuted (Permᴰ.trans r s) m = mem-permuted s (mem-permuted r m)

module _ {ℓ} {K : Type ℓ} ⦃o : Order K⦄ where
  abbrev id_key : K → K
  id_key k = k

  insert_by_comm :
      (a b : K) (xs : List K)
      → insert_by id_key a (insert_by id_key b xs) ≡ insert_by id_key b (insert_by id_key a xs)
  insert_by_comm a b [] = ground (arith, o.less_total a b, o.less_trans a b a, o.less_irrefl a)
  insert_by_comm a b (x ∷ xs) = ground (
    arith,
    insert_by_comm a b xs,
    o.less_total a b,
    o.less_irrefl a,
    o.less_irrefl b,
    o.less_trans a b a,
    o.less_trans x a b,
    o.less_trans x b a,
    o.less_total a x,
    o.less_total b x,
  )

  module _ {κ} {A : Type κ} (key : A → K) where
    map-insert_by :
        (a : A) (xs : List A) → map key (insert_by key a xs) ≡ insert_by id_key (key a) (map key xs)
    map-insert_by a [] = refl
    map-insert_by a (x ∷ xs) = ground (arith, map-insert_by a xs)

    pub map-sort_by : (xs : List A) → map key (sort_by key xs) ≡ sort_by id_key (map key xs)
    map-sort_by [] = refl
    map-sort_by (x ∷ xs) =
        map-insert_by x (sort_by key xs) ∙ ap (insert_by id_key (key x)) (map-sort_by xs)

    sort_by-permuted :
        {xs ys : List A} → Permᴰ xs ys → sort_by id_key (map key xs) ≡ sort_by id_key (map key ys)
    sort_by-permuted Permᴰ.nil = refl
    sort_by-permuted (Permᴰ.cons p q) = λ i. insert_by id_key (key (p i)) (sort_by-permuted q i)
    sort_by-permuted (Permᴰ.swap {a} {b} {l = l} p q) =
        insert_by_comm (key a) (key b) (sort_by id_key (map key l)) ∙ (λ i.
          insert_by id_key (key (q i)) (insert_by id_key (key (p i)) (sort_by id_key (map key l))))
    sort_by-permuted (Permᴰ.trans p q) = sort_by-permuted p ∙ sort_by-permuted q

    pub map-sort_by-permuted :
        {xs ys : List A} → Permᴰ xs ys → map key (sort_by key xs) ≡ map key (sort_by key ys)
    map-sort_by-permuted {xs} {ys} p = map-sort_by xs ∙ sort_by-permuted p ∙ sym (map-sort_by ys)
