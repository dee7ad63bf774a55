-- ===== src/Dropbox/Listing/First.antt =====
-- The first listing of a directory: what it returns.
use tgdownloader.Prelude.{
  ℕ, zero, suc, ◌+◌, ◌-◌, ◌≤◌, ◌≡◌, refl, sym, ap, ◌∙◌, Bool, true, false, ◌&&◌, not, some, List,
  [], ◌∷◌, ◌++◌, Text, ltb, leb, length, take, drop, arith, append-nil, append_assoc, length-append,
  length-take, Bool-cases, inl, inr,
}
use tgdownloader.Dropbox.Listing.{
  Page, ListingService, DirListing, Listed, listed, fetch_page, read_dir, refilled, moved,
  readdir_loop, readdir, new_listing,
}

abbrev no_pages : {A : Type 0} → List (List A) → Bool
no_pages [] = true
no_pages (p ∷ ps) = false

abbrev pub entries_of : {A : Type 0} → List (List A) → List A
entries_of [] = []
entries_of (p ∷ ps) = p ++ entries_of ps

take_all : {A : Type 0} (k : ℕ) (xs : List A) → length xs ≤ k → take k xs ≡ xs
take_all zero [] h = refl
take_all (suc k) [] h = refl
take_all zero (x ∷ xs) h = ground (arith, h)
take_all (suc k) (x ∷ xs) h = ap (x ∷◌) (take_all k xs (omega (arith, h)))

drop_all : {A : Type 0} (k : ℕ) (xs : List A) → length xs ≤ k → drop k xs ≡ []
drop_all zero [] h = refl
drop_all (suc k) [] h = refl
drop_all zero (x ∷ xs) h = ground (arith, h)
drop_all (suc k) (x ∷ xs) h = drop_all k xs (omega (arith, h))

take-append :
    {A : Type 0} (k : ℕ) (xs ys : List A) → take k (xs ++ ys) ≡ take k xs ++ take (k - length xs) ys
take-append zero [] ys = refl
take-append zero (x ∷ xs) ys = let n : 0 - suc (length xs) ≡ 0 = omega arith in rw n refl
take-append (suc k) [] ys = let n : suc k - 0 ≡ suc k = omega arith in rw n refl
take-append (suc k) (x ∷ xs) ys =
    let n : suc k - suc (length xs) ≡ k - length xs = omega arith in
    rw n (ap (x ∷◌) (take-append k xs ys))

take_nothing : {A : Type 0} (list ys : List A) (k : ℕ) → take k ys ≡ [] → list ++ take k ys ≡ list
take_nothing list ys k q = rw q (append-nil list)

take_nil : {A : Type 0} (k : ℕ) → take {A = A} k [] ≡ []
take_nil zero = refl
take_nil (suc k) = refl

-- A page that fits is taken whole, and the rest of the count from what follows; of one that does not,
-- its first entries are all.
take_page :
    {A : Type 0} (list p rest : List A) (count : ℕ)
    → length list ≤ count
    → length p ≤ count - length list
    → (list ++ take (count - length list) p)
        ++ take (count - length (list ++ take (count - length list) p)) rest
      ≡ list ++ take (count - length list) (p ++ rest)
take_page list p rest count h fits =
    let k : ℕ = count - length list in
    let all : take k p ≡ p = take_all k p fits in
    let left : count - length (list ++ p) ≡ k - length p =
      omega (arith, length-append list p, h, fits) in
    rw (all, left) (append_assoc list p _ ∙ ap (list ++◌) (rw (take-append k p rest, all) refl))

take_part : {A : Type 0} (p rest : List A) (k : ℕ) → k ≤ length p → take k (p ++ rest) ≡ take k p
take_part p rest k h =
    let n : k - length p ≡ 0 = omega (arith, h) in
    take-append k p rest ∙ rw n (append-nil (take k p))

module _ {A : Type 0} (service : ListingService A) where
  -- From a cursor, the service answers with the pages in order, and says with each whether there are
  -- more.
  pub record Answers (cursor : Text) (entries : List A) (more : Bool) : Type 0 where
    pub page : Page A
    pub fetched : fetch_page service cursor ≡ some page
    pub has_entries : page.entries ≡ entries
    pub says_more : page.has_more ≡ more

  abbrev pub Serves : Text → List (List A) → Type 0
  Serves cursor [] = Unit
  Serves cursor (p ∷ ps) = (a : Answers cursor p (not (no_pages ps))) × Serves a.page.cursor ps

  abbrev Returns : Listed A → List A → Type 0
  Returns r list = (s : DirListing A) × (r ≡ listed s list)

  stops :
      (fuel count : ℕ) (s : DirListing A) (list : List A)
      → (ltb (length list) count && not s.dir_list_done) ≡ false
      → readdir_loop service (suc fuel) count s list ≡ listed s list
  unfolding readdir_loop
  stops fuel count s list h = rw h refl

  stops_at :
      (fuel count : ℕ) (s : DirListing A) (list : List A)
      → 1 ≤ fuel
      → length list ≡ count
      → readdir_loop service fuel count s list ≡ listed s list
  stops_at zero count s list f q = ground (arith, f)
  stops_at (suc fuel) count s list f q = stops fuel count s list (ground (arith, q))

  abbrev page_of : Page A → DirListing A
  page_of page = record {
    dir_list = page.entries;
    dir_list_cursor = page.cursor;
    dir_list_done = not page.has_more;
  }

  page_filled :
      (s : DirListing A) (page : Page A)
      → s.dir_list ≡ []
      → fetch_page service s.dir_list_cursor ≡ some page
      → refilled service s ≡ some (page_of page)
  unfolding refilled read_dir
  page_filled s page e f = ground (arith, e, f)

  goes_on :
      (fuel count : ℕ) (s s' : DirListing A) (list : List A)
      → (ltb (length list) count && not s.dir_list_done) ≡ true
      → refilled service s ≡ some s'
      → readdir_loop service (suc fuel) count s list
        ≡ readdir_loop service fuel count
            (moved service count s' list).0
            (moved service count s' list).1
  unfolding readdir_loop
  goes_on fuel count s s' list h f = rw (h, f) refl

  readdir_loop-pages :
      (fuel count : ℕ) (pages : List (List A)) (s : DirListing A) (list : List A)
      → s.dir_list ≡ []
      → s.dir_list_done ≡ no_pages pages
      → Serves s.dir_list_cursor pages
      → length list ≤ count
      → suc (length pages) ≤ fuel
      → Returns
          (readdir_loop service fuel count s list)
          (list ++ take (count - length list) (entries_of pages))
  readdir_loop-pages zero count pages s list e d serves h f = ground (arith, f)
  readdir_loop-pages (suc fuel) count [] s list e d serves h f = (
    s,
    stops fuel count s list (ground (arith, d))
        ∙ ap (listed s)
            (sym (take_nothing list [] (count - length list) (take_nil (count - length list)))),
  )
  readdir_loop-pages (suc fuel) count (p ∷ ps) s list e d (a, serves) h f =
      elim (Bool-cases (ltb (length list) count)) [
        | inl q ↦
            let step =
              goes_on fuel count s (page_of a.page) list (ground (arith, q, d))
                (page_filled s a.page e a.fetched) in
            let k : ℕ = count - length list in
            let m = moved service count (page_of a.page) list in
            let kept : length m.1 ≤ count = omega (
              arith,
              h,
              length-append list (take k a.page.entries),
              length-take k a.page.entries,
            ) in
            let same : list ++ take k (a.page.entries ++ entries_of ps)
                ≡ list ++ take k (p ++ entries_of ps) =
              ap (λ x. list ++ take k (x ++ entries_of ps)) a.has_entries in
            elim (Bool-cases (leb (length a.page.entries) k)) [
              | inl fits ↦
                  let rest =
                    readdir_loop-pages fuel count ps m.0 m.1
                      (drop_all k a.page.entries (ground (arith, fits)))
                      (ground (arith, a.says_more)) serves kept (omega (arith, f)) in
                  (
                    rest.0,
                    step
                        ∙ rest.1
                        ∙ ap (listed rest.0) (
                            take_page list a.page.entries (entries_of ps) count h
                              (ground (arith, fits))
                            ∙ same),
                  )
              | inr full ↦
                  let more : k ≤ length a.page.entries = ground (arith, full) in
                  let whole : length m.1 ≡ count = omega (
                    arith,
                    h,
                    more,
                    length-append list (take k a.page.entries),
                    length-take k a.page.entries,
                  ) in
                  (
                    m.0,
                    step
                        ∙ stops_at fuel count m.0 m.1 (omega (arith, f)) whole
                        ∙ ap (listed m.0) (
                            ap (list ++◌) (sym (take_part a.page.entries (entries_of ps) k more))
                            ∙ same),
                  )
            ]
        | inr q ↦
            let n : count - length list ≡ 0 = ground (arith, q) in
            (
              s,
              stops fuel count s list (ground (arith, q))
                  ∙ ap (listed s) (
                      sym
                        (take_nothing list (p ++ entries_of ps) (count - length list) (rw n refl))),
            )
      ]

  -- Where Dropbox answers every request of a listing, page after page, a first `Readdir(count)` returns:
  -- with as many rounds as there are pages and one more, it gives the first `count` entries of the
  -- directory in their order, or all of them where there are fewer.
  pub readdir-new_listing :
      (fuel count : ℕ) (page : List A) (pages : List (List A))
      → Serves [] (page ∷ pages)
      → length pages + 2 ≤ fuel
      → (s : DirListing A) × (readdir service fuel count new_listing
          ≡ listed s (take count (entries_of (page ∷ pages))))
  unfolding readdir
  readdir-new_listing fuel count page pages serves f =
      let result =
        readdir_loop-pages fuel count (page ∷ pages) new_listing [] refl refl serves (omega arith)
          (omega (arith, f)) in
      let n : count - 0 ≡ count = omega arith in
      (result.0, result.1 ∙ ap (λ x. listed result.0 (take x (entries_of (page ∷ pages)))) n)
