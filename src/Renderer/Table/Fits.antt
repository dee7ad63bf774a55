-- ===== src/Renderer/Table/Fits.antt =====
-- The columns are shrunk until the table fits, or until nothing is left to shrink.
use tgdownloader.Prelude.{
  ℕ, zero, suc, ◌+◌, ◌-◌, ◌*◌, ◌≤◌, ◌≡◌, ◌⊎◌, inl, inr, refl, true, ◌&&◌, none, some, List, [], ◌∷◌,
  leb, ltb, arith, Bool-cases, All, branches, ◌<◌,
}
use Prim.Native.Nat.{max}
use tgdownloader.Renderer.Table.{
  TableLayoutColumn, sum_widths, count_included, table_layout_width, Candidate, is_wider,
  widest_column, shrink_at, shrink_loop, min_width_of, one_cell, shrink_table_columns,
}

abbrev no_candidate : Candidate
no_candidate = none

module _ (least : TableLayoutColumn → ℕ) where
  -- Nothing that is shown can be shrunk.
  abbrev pub IsLeast : TableLayoutColumn → Type 0
  IsLeast c = c.included ≡ true → c.width ≤ least c

  -- The column at a position is shown and wider than it must be.
  unfoldable pub Wide : List TableLayoutColumn → ℕ → Type 0
  Wide [] q = ⊥
  Wide (c ∷ cs) zero = (c.included ≡ true) × (least c < c.width)
  Wide (c ∷ cs) (suc q) = Wide cs q

  -- Taking a cell from the column takes one from the sum.
  abbrev pub Shrinks : List TableLayoutColumn → ℕ → Type 0
  Shrinks cs q =
      (sum_widths (shrink_at q cs) + 1 ≡ sum_widths cs)
      × (count_included (shrink_at q cs) ≡ count_included cs)
      × Wide cs q

  Shrinks-first :
      (c : TableLayoutColumn) (cs : List TableLayoutColumn)
      → c.included ≡ true
      → least c < c.width
      → Shrinks (c ∷ cs) 0
  unfolding shrink_at sum_widths count_included Wide
  Shrinks-first c cs i w = (ground (arith, i, w), ground (arith, i, w), (i, w))

  Shrinks-next :
      (c : TableLayoutColumn) (cs : List TableLayoutColumn) (q : ℕ)
      → Shrinks cs q
      → Shrinks (c ∷ cs) (suc q)
  unfolding shrink_at sum_widths count_included Wide
  Shrinks-next c cs q (s, n, w) = (omega (arith, s), omega (arith, n), w)

  widest_column-some :
      (i : ℕ) (best : Candidate) (cs : List TableLayoutColumn) (p w : ℕ)
      → widest_column least i best cs ≡ some (p, w)
      → (best ≡ some (p, w)) ⊎ ((q : ℕ) × ((p ≡ i + q) × Shrinks cs q))
  unfolding widest_column
  widest_column-some i best [] p w h = inl h
  widest_column-some i best (c ∷ cs) p w h = elim (widest_column-some (suc i) _ cs p w h) [
    | inr (q, (e, s)) ↦ inr (suc q, (omega (arith, e), Shrinks-next c cs q s))
    | inl e ↦ elim (Bool-cases (c.included && ltb (least c) c.width && is_wider c.width best)) [
      | inl t ↦
          inr
            (0, (ground (arith, e, t), Shrinks-first c cs (ground (arith, t)) (ground (arith, t))))
      | inr t ↦ inl (ground (arith, e, t))
    ]
  ]

  widest_column-none :
      (i : ℕ) (best : Candidate) (cs : List TableLayoutColumn)
      → widest_column least i best cs ≡ none
      → (best ≡ none) × All IsLeast cs
  unfolding widest_column
  widest_column-none i best [] h = (h, tt)
  widest_column-none i best (c ∷ cs) h =
      let (e, rest) = widest_column-none (suc i) _ cs h in
      elim (Bool-cases (c.included && ltb (least c) c.width && is_wider c.width best)) [
        | inl t ↦ absurd (ground (arith, e, t))
        | inr t ↦
            let b : best ≡ none = ground (arith, e, t) in (b, (λ i. ground (arith, i, b, t), rest))
      ]

  no_cells : (cs : List TableLayoutColumn) → sum_widths cs ≡ 0 → All IsLeast cs
  unfolding sum_widths
  no_cells [] h = tt
  no_cells (c ∷ cs) h = (λ i. ground (arith, h, i), no_cells cs (omega (arith, h)))

  -- The table fits, or every shown column is as narrow as it may be.
  abbrev pub IsShrunk : ℕ → List TableLayoutColumn → Type 0
  IsShrunk width cs = (table_layout_width cs ≤ width) ⊎ All IsLeast cs

  pub shrink_loop-IsShrunk :
      (fuel width : ℕ) (cs : List TableLayoutColumn)
      → sum_widths cs ≤ fuel
      → IsShrunk width (shrink_loop fuel least width cs)
  unfolding shrink_loop
  shrink_loop-IsShrunk zero width cs h = inr (no_cells cs (omega (arith, h)))
  shrink_loop-IsShrunk (suc fuel) width cs h =
      elim (Bool-cases (leb (table_layout_width cs) width)) [
        | inl q ↦ rw q (inl (ground (arith, q)))
        | inr q ↦ rw q (
            by_candidate (widest_column least 0 none cs) (widest_column-some 0 none cs)
              (widest_column-none 0 none cs)
              (λ q s. shrink_loop-IsShrunk fuel width (shrink_at q cs) (omega (arith, h, s.0))))
      ]
    where
      by_candidate :
          (candidate : Candidate)
          → ((p w : ℕ)
              → candidate ≡ some (p, w)
              → (no_candidate ≡ some (p, w)) ⊎ ((q : ℕ) × ((p ≡ 0 + q) × Shrinks cs q)))
          → (candidate ≡ none → (no_candidate ≡ none) × All IsLeast cs)
          → ((q : ℕ)
              → Shrinks cs q
              → IsShrunk width (shrink_loop fuel least width (shrink_at q cs)))
          → IsShrunk width (elim candidate [
            | none ↦ cs
            | some (i, w) ↦ shrink_loop fuel least width (shrink_at i cs)
          ])
      by_candidate none found missing rest = inr (missing refl).1
      by_candidate (some (p, w)) found missing rest = elim (found p w refl) [
        | inl e ↦ cc
        | inr (q, (e, s)) ↦ let same : p ≡ q = omega (arith, e) in rw same (rest q s)
      ]

  -- What every round keeps, the loop keeps.
  pub shrink_loop-keeps :
      (P : List TableLayoutColumn → Type 0)
      → ((cs : List TableLayoutColumn) (q : ℕ) → Shrinks cs q → P cs → P (shrink_at q cs))
      → (fuel width : ℕ) (cs : List TableLayoutColumn) → P cs
      → P (shrink_loop fuel least width cs)
  unfolding shrink_loop
  shrink_loop-keeps P keeps zero width cs p = p
  shrink_loop-keeps P keeps (suc fuel) width cs p =
      branches P (leb (table_layout_width cs) width) p (
        by_candidate (widest_column least 0 none cs) (widest_column-some 0 none cs)
          (λ q s. shrink_loop-keeps P keeps fuel width (shrink_at q cs) (keeps cs q s p)))
    where
      by_candidate :
          (candidate : Candidate)
          → ((p w : ℕ)
              → candidate ≡ some (p, w)
              → (no_candidate ≡ some (p, w)) ⊎ ((q : ℕ) × ((p ≡ 0 + q) × Shrinks cs q)))
          → ((q : ℕ) → Shrinks cs q → P (shrink_loop fuel least width (shrink_at q cs)))
          → P (elim candidate [
            | none ↦ cs
            | some (i, w) ↦ shrink_loop fuel least width (shrink_at i cs)
          ])
      by_candidate none found rest = p
      by_candidate (some (i, w)) found rest = elim (found i w refl) [
        | inl e ↦ cc
        | inr (q, (e, s)) ↦ let same : i ≡ q = omega (arith, e) in rw same (rest q s)
      ]

one_cell_each :
    (cs : List TableLayoutColumn)
    → All (λ (c : TableLayoutColumn). c.included ≡ true → c.width ≤ one_cell c) cs
    → sum_widths cs ≤ count_included cs
unfolding sum_widths count_included
one_cell_each [] h = omega arith
one_cell_each (c ∷ cs) (h, hs) = elim (Bool-cases c.included) [
  | inl q ↦ rw q (omega (arith, h q, one_cell_each cs hs))
  | inr q ↦ rw q (omega (arith, one_cell_each cs hs))
]

-- The least width of so many columns: a cell for each and two between two.
abbrev pub least_table_width : ℕ → ℕ
least_table_width count = count + (count - 1) * 2

IsShrunk-width :
    (width : ℕ) (cs : List TableLayoutColumn)
    → IsShrunk one_cell width cs
    → table_layout_width cs ≤ max width (least_table_width (count_included cs))
unfolding table_layout_width
IsShrunk-width width cs (inl h) = omega (arith, h)
IsShrunk-width width cs (inr h) = omega (arith, one_cell_each cs h)

pub shrink_table_columns-width :
    (width : ℕ) (cs : List TableLayoutColumn)
    → table_layout_width (shrink_table_columns width cs)
      ≤ max width (least_table_width (count_included (shrink_table_columns width cs)))
unfolding shrink_table_columns
shrink_table_columns-width width cs =
    let first = shrink_loop (sum_widths cs) min_width_of width cs in
    IsShrunk-width width (shrink_loop (sum_widths first) one_cell width first)
      (shrink_loop-IsShrunk one_cell (sum_widths first) width first (omega arith))
