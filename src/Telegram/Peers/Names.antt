-- ===== src/Telegram/Peers/Names.antt =====
-- The names under which a peer is searched for.
use tgdownloader.Prelude.{
  is_empty, ℕ, ◌≡◌, refl, Bool, true, ◌&&◌, ◌||◌, not, List, [], ◌∷◌, ◌++◌, map, Text, nat_eq,
  list_eq, beq_refl, any, all, arith,
}
use tgdownloader.Renderer.Sanitize.{trim_space}
use tgdownloader.Telegram.Peers.{DialogPeer, aliases, equal_fold, add_name, add_names, search_names}

any-append :
    {A : Type 0} (p : A → Bool) (xs ys : List A) → any p (xs ++ ys) ≡ (any p xs || any p ys)
any-append p [] ys = refl
any-append p (x ∷ xs) ys = ground (arith, any-append p xs ys)

all-append :
    {A : Type 0} (p : A → Bool) (xs ys : List A) → all p (xs ++ ys) ≡ (all p xs && all p ys)
all-append p [] ys = refl
all-append p (x ∷ xs) ys = ground (arith, all-append p xs ys)

abbrev pub has_name : Text → Bool
has_name n = not (is_empty n)

module _ (fold : ℕ → ℕ) where
  abbrev pub lists_name : List Text → Text → Bool
  lists_name names n = any (λ existing. equal_fold fold existing n) names

  abbrev pub distinct_names : List Text → Bool
  distinct_names [] = true
  distinct_names (x ∷ xs) = not (any (λ y. equal_fold fold x y) xs) && distinct_names xs

  -- The aliases that are not blank have their names.
  abbrev pub names_all : List Text → List Text → Bool
  names_all result raw =
      all (λ alias. is_empty (trim_space alias) || lists_name result (trim_space alias)) raw

  distinct_names-append :
      (xs : List Text) (a : Text)
      → distinct_names (xs ++ a ∷ []) ≡ (distinct_names xs && not (lists_name xs a))
  distinct_names-append [] a = refl
  distinct_names-append (x ∷ xs) a =
      ground (arith, distinct_names-append xs a, any-append (λ y. equal_fold fold x y) xs (a ∷ []))

  record Grows (result names : List Text) : Type 0 where
    named : all has_name names ≡ true
    distinct : distinct_names names ≡ true
    kept : (n : Text) → lists_name result n ≡ true → lists_name names n ≡ true

  add_name-Grows :
      (result : List Text) (r : Text)
      → all has_name result ≡ true
      → distinct_names result ≡ true
      → Grows result (add_name fold result r)
  unfolding add_name
  add_name-Grows result r h d = record {
    named = ground (arith, h, all-append has_name result (trim_space r ∷ []));
    distinct = ground (arith, d, distinct_names-append result (trim_space r));
    kept = λ n q.
        ground (
          arith,
          q,
          any-append (λ existing. equal_fold fold existing n) result (trim_space r ∷ []),
        );
  }

  add_name-lists :
      (result : List Text) (r : Text)
      → (is_empty (trim_space r) || lists_name (add_name fold result r) (trim_space r)) ≡ true
  unfolding add_name
  add_name-lists result r = ground (
    arith,
    beq_refl (map fold (trim_space r)),
    any-append (λ existing. equal_fold fold existing (trim_space r)) result (trim_space r ∷ []),
  )

  add_names-Grows :
      (result raw : List Text)
      → all has_name result ≡ true
      → distinct_names result ≡ true
      → Grows result (add_names fold result raw)
  unfolding add_names
  add_names-Grows result [] h d = record { named = h; distinct = d; kept = λ n q. q }
  add_names-Grows result (r ∷ raw) h d =
      let one = add_name-Grows result r h d in
      let rest = add_names-Grows (add_name fold result r) raw one.named one.distinct in
      record {
        named = rest.named;
        distinct = rest.distinct;
        kept = λ n q. rest.kept n (one.kept n q);
      }

  add_names-names_all :
      (result raw : List Text)
      → all has_name result ≡ true
      → distinct_names result ≡ true
      → names_all (add_names fold result raw) raw ≡ true
  unfolding add_names
  add_names-names_all result [] h d = refl
  add_names-names_all result (r ∷ raw) h d =
      let one = add_name-Grows result r h d in
      let rest = add_names-Grows (add_name fold result r) raw one.named one.distinct in
      ground (
        arith,
        add_name-lists result r,
        rest.kept (trim_space r),
        add_names-names_all (add_name fold result r) raw one.named one.distinct,
      )

  -- The names under which a peer is searched for are not empty, no two of them are the same up to case
  -- folding, and each alias of the peer that is not blank is among them up to case folding.
  pub search_names-distinct :
      (p : DialogPeer)
      → (all has_name (search_names fold p) ≡ true)
        × (distinct_names (search_names fold p) ≡ true)
        × (names_all (search_names fold p) (aliases p) ≡ true)
  unfolding search_names
  search_names-distinct p =
      let grows = add_names-Grows [] (aliases p) refl refl in
      (grows.named, grows.distinct, add_names-names_all [] (aliases p) refl refl)
