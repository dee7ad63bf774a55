-- ===== src/Renderer/Table/Excluded.antt =====
-- Columns are left out until the table fits, or until none may go. Each round leaves out one that is
-- shown, so that there are rounds enough.
use tgdownloader.Prelude.{
  ℕ, zero, suc, ◌+◌, ◌≤◌, ◌≡◌, ◌⊎◌, inl, inr, refl, ap, Bool, true, false, ◌&&◌, not, Option, none,
  some, List, [], ◌∷◌, length, leb, arith, Bool-cases, All, list_order, nat_order, if◌then◌else◌,
}
use mathlib.Core.List.{Permᴰ, Memᴰ}
use mathlib.Core.List.Permᴰ
use mathlib.Core.List.Memᴰ
use tgdownloader.Prelude.Sorting.Permuted.{mem-permuted}
use tgdownloader.Prelude.Sorting.Sorted.{perm-sort_by}
use tgdownloader.Renderer.Table.{
  TableLayoutColumn, count_included, table_layout_width, Optional, optional_columns, first_position,
  optional_table_column, exclude_at, exclude_loop,
}

-- Leaving out the column at a position leaves one less.
abbrev Excludes : List TableLayoutColumn → ℕ → Type 0
Excludes cs q = count_included (exclude_at q cs) + 1 ≡ count_included cs

mem-optional :
    (i : ℕ) (cs : List TableLayoutColumn) (o : Optional)
    → Memᴰ o (optional_columns i cs)
    → (q : ℕ) × ((o.0 ≡ i + q) × Excludes cs q)
unfolding optional_columns exclude_at count_included
mem-optional i [] o m = absurd (Memᴰ.not-nil m)
mem-optional i (c ∷ cs) o m =
    by_test (c.included && not c.column.required) refl (λ n. later (mem-optional (suc i) cs o n)) m
  where
    later :
        (q : ℕ) × ((o.0 ≡ suc i + q) × Excludes cs q)
        → (q : ℕ) × ((o.0 ≡ i + q) × Excludes (c ∷ cs) q)
    later (q, (e, x)) = (suc q, (omega (arith, e), omega (arith, x)))

    by_test :
        (b : Bool)
        → (c.included && not c.column.required) ≡ b
        → (Memᴰ o (optional_columns (suc i) cs) → (q : ℕ) × ((o.0 ≡ i + q) × Excludes (c ∷ cs) q))
        → Memᴰ o (
            if b
            then (i, c.column.priority ∷ c.index ∷ []) ∷ optional_columns (suc i) cs
            else optional_columns (suc i) cs)
        → (q : ℕ) × ((o.0 ≡ i + q) × Excludes (c ∷ cs) q)
    by_test true h rest (Memᴰ.head e) =
        let place : o.0 ≡ i = ap (λ (x : Optional). x.0) e in
        (0, (omega (arith, place), ground (arith, h)))
    by_test true h rest (Memᴰ.tail n) = rest n
    by_test false h rest n = rest n

-- Every column that is shown is required.
abbrev pub AllRequired : List TableLayoutColumn → Type 0
AllRequired cs = All (λ (c : TableLayoutColumn). c.included ≡ true → c.column.required ≡ true) cs

optional_columns-nil :
    (i : ℕ) (cs : List TableLayoutColumn) → optional_columns i cs ≡ [] → AllRequired cs
unfolding optional_columns
optional_columns-nil i [] h = tt
optional_columns-nil i (c ∷ cs) h = elim (Bool-cases (c.included && not c.column.required)) [
  | inl q ↦ absurd (ground (arith, h, q))
  | inr q ↦ (λ e. ground (arith, e, q), optional_columns-nil (suc i) cs (ground (arith, h, q)))
]

nil_of_perm {ℓ} : {A : Type ℓ} (xs : List A) → Permᴰ xs [] → xs ≡ []
nil_of_perm [] p = refl
nil_of_perm (x ∷ xs) p = absurd (Memᴰ.not-nil (mem-permuted p (Memᴰ.head refl)))

-- What the choice of a column says: its place, or why none may go.
abbrev IsChoice : List TableLayoutColumn → Option ℕ → Type 0
IsChoice cs none = (count_included cs ≤ 1) ⊎ AllRequired cs
IsChoice cs (some i) = Excludes cs i

first_position-IsChoice :
    (cs : List TableLayoutColumn) (os : List Optional)
    → Permᴰ (optional_columns 0 cs) os
    → IsChoice cs (first_position os)
first_position-IsChoice cs [] p =
    let none_optional : optional_columns 0 cs ≡ [] = nil_of_perm (optional_columns 0 cs) p in
    inr (optional_columns-nil 0 cs none_optional)
first_position-IsChoice cs (o ∷ os) p =
    let (q, (e, x)) = mem-optional 0 cs o (mem-permuted (Permᴰ.symm p) (Memᴰ.head refl)) in
    let same : o.0 ≡ q = omega (arith, e) in rw same x

optional_table_column-IsChoice :
    (cs : List TableLayoutColumn) → IsChoice cs (optional_table_column cs)
unfolding optional_table_column
optional_table_column-IsChoice cs = elim (Bool-cases (leb (count_included cs) 1)) [
  | inl q ↦ rw q (inl (ground (arith, q)))
  | inr q ↦
      rw q (
        first_position-IsChoice cs _ (perm-sort_by (λ (c : Optional). c.1) (optional_columns 0 cs)))
]

-- The table fits, or no column may go: one is left, or all that are shown are required.
abbrev pub IsExcluded : ℕ → List TableLayoutColumn → Type 0
IsExcluded width cs = (table_layout_width cs ≤ width) ⊎ ((count_included cs ≤ 1) ⊎ AllRequired cs)

exclude_loop-IsExcluded :
    (fuel width : ℕ) (cs : List TableLayoutColumn)
    → count_included cs ≤ fuel
    → IsExcluded width (exclude_loop fuel width cs)
unfolding exclude_loop
exclude_loop-IsExcluded zero width cs h = inr (inl (omega (arith, h)))
exclude_loop-IsExcluded (suc fuel) width cs h =
    elim (Bool-cases (leb (table_layout_width cs) width)) [
      | inl q ↦ rw q (inl (ground (arith, q)))
      | inr q ↦ rw q (
          by_choice (optional_table_column cs) (optional_table_column-IsChoice cs)
            (λ i x. exclude_loop-IsExcluded fuel width (exclude_at i cs) (omega (arith, h, x))))
    ]
  where
    by_choice :
        (choice : Option ℕ)
        → IsChoice cs choice
        → ((i : ℕ) → Excludes cs i → IsExcluded width (exclude_loop fuel width (exclude_at i cs)))
        → IsExcluded width
            (elim choice [ none ↦ cs | some i ↦ exclude_loop fuel width (exclude_at i cs) ])
    by_choice none c rest = inr c
    by_choice (some i) c rest = rest i c

count_included-length : (cs : List TableLayoutColumn) → count_included cs ≤ length cs
unfolding count_included
count_included-length [] = omega arith
count_included-length (c ∷ cs) = ground (arith, count_included-length cs)

-- With as many rounds as there are columns.
pub exclude_loop-all_rounds :
    (width : ℕ) (cs : List TableLayoutColumn) → IsExcluded width (exclude_loop (length cs) width cs)
exclude_loop-all_rounds width cs =
    exclude_loop-IsExcluded (length cs) width cs (count_included-length cs)
