-- ===== src/Renderer/Table.antt =====
-- The layout of internal/renderer/table.go: which columns are shown, and how wide. `lipgloss.Width` and
-- `strings.ToUpper` are parameters. The loops run on fuel: Table/Excluded.antt and Table/Fits.antt show it to be enough.
pub mod Fits
pub mod Excluded
pub mod Layout
use tgdownloader.Prelude.{
  is_empty, ℕ, zero, suc, ◌+◌, ◌-◌, ◌*◌, Bool, true, false, ◌&&◌, ◌||◌, not, Option, none, some,
  List, [], ◌∷◌, ◌++◌, Text, ◌==◌, nat_eq, length, leb, ltb, get_elem?, if◌then◌else◌, sort_by,
  list_order, nat_order,
}
use Prim.Native.Nat.{max}
use tgdownloader.Renderer.Sanitize.{sanitize_terminal_text}
use tgdownloader.Renderer.Events.{TableColumn, TableData}

pub record TableLayoutColumn : Type 0 where
  pub index : ℕ
  pub column : TableColumn
  pub width : ℕ
  pub included : Bool

abbrev pub included_width : TableLayoutColumn → ℕ
included_width c = if c.included then c.width else 0

abbrev pub included_count : TableLayoutColumn → ℕ
included_count c = if c.included then 1 else 0

unfoldable pub sum_widths : List TableLayoutColumn → ℕ
sum_widths [] = 0
sum_widths (c ∷ cs) = included_width c + sum_widths cs

unfoldable pub count_included : List TableLayoutColumn → ℕ
count_included [] = 0
count_included (c ∷ cs) = included_count c + count_included cs

-- Two spaces between two columns.
unfoldable pub table_layout_width : List TableLayoutColumn → ℕ
unfolding sum_widths count_included
table_layout_width columns = sum_widths columns + (count_included columns - 1) * 2

-- A candidate of the loop: its position and its width. Only a wider one takes its place.
abbrev pub Candidate : Type 0
Candidate = Option (ℕ × ℕ)

abbrev pub is_wider : ℕ → Candidate → Bool
is_wider width none = true
is_wider width (some (i, w)) = ltb w width

-- `least` is what a column is not shrunk below.
unfoldable pub widest_column :
    (TableLayoutColumn → ℕ) → ℕ → Candidate → List TableLayoutColumn → Candidate
widest_column least i best [] = best
widest_column least i best (c ∷ cs) =
    widest_column least (suc i)
      (if c.included && ltb (least c) c.width && is_wider c.width best
        then some (i, c.width)
        else best)
      cs

unfoldable pub shrink_at : ℕ → List TableLayoutColumn → List TableLayoutColumn
shrink_at i [] = []
shrink_at zero (c ∷ cs) = record c { width = c.width - 1 } ∷ cs
shrink_at (suc i) (c ∷ cs) = c ∷ shrink_at i cs

-- One of the two loops of `shrinkTableColumns`.
unfoldable pub shrink_loop :
    ℕ → (TableLayoutColumn → ℕ) → ℕ → List TableLayoutColumn → List TableLayoutColumn
unfolding table_layout_width widest_column shrink_at
shrink_loop zero least width columns = columns
shrink_loop (suc fuel) least width columns =
    if leb (table_layout_width columns) width
    then columns
    else elim (widest_column least 0 none columns) [
      | none ↦ columns
      | some (i, w) ↦ shrink_loop fuel least width (shrink_at i columns)
    ]

abbrev pub min_width_of : TableLayoutColumn → ℕ
min_width_of c = max 1 c.column.min_width

abbrev pub one_cell : TableLayoutColumn → ℕ
one_cell c = 1

-- As many rounds as there are cells.
unfoldable pub shrink_table_columns : ℕ → List TableLayoutColumn → List TableLayoutColumn
unfolding shrink_loop
shrink_table_columns width columns =
    let first = shrink_loop (sum_widths columns) min_width_of width columns in
    shrink_loop (sum_widths first) one_cell width first

-- The positions of the shown columns that may be left out, with their priorities and indexes.
abbrev pub Optional : Type 0
Optional = ℕ × List ℕ

unfoldable pub optional_columns : ℕ → List TableLayoutColumn → List Optional
optional_columns i [] = []
optional_columns i (c ∷ cs) =
    let rest = optional_columns (suc i) cs in
    if c.included && not c.column.required
    then (i, c.column.priority ∷ c.index ∷ []) ∷ rest
    else rest

abbrev first_position : List Optional → Option ℕ
first_position [] = none
first_position (c ∷ cs) = some c.0

-- `none` is -1: one column is left, or none may go.
unfoldable pub optional_table_column : List TableLayoutColumn → Option ℕ
unfolding optional_columns count_included
optional_table_column columns =
    if leb (count_included columns) 1
    then none
    else first_position (sort_by (λ (c : Optional). c.1) (optional_columns 0 columns))

unfoldable pub exclude_at : ℕ → List TableLayoutColumn → List TableLayoutColumn
exclude_at i [] = []
exclude_at zero (c ∷ cs) = record c { included = false } ∷ cs
exclude_at (suc i) (c ∷ cs) = c ∷ exclude_at i cs

-- The loop of `FormatTable`, with no more rounds than columns.
unfoldable pub exclude_loop : ℕ → ℕ → List TableLayoutColumn → List TableLayoutColumn
unfolding optional_table_column exclude_at table_layout_width
exclude_loop zero width columns = columns
exclude_loop (suc fuel) width columns =
    if leb (table_layout_width columns) width
    then columns
    else elim (optional_table_column columns) [
      | none ↦ columns
      | some i ↦ exclude_loop fuel width (exclude_at i columns)
    ]

module _ (is_graphic : ℕ → Bool) (text_width : Text → ℕ) (to_upper : Text → Text) where
  abbrev first_column : ℕ → TableColumn → TableLayoutColumn
  first_column i c =
      let header = sanitize_terminal_text is_graphic c.header false in
      record {
        index = i;
        column = record c { header = header };
        width = max 1 (max c.min_width (text_width (to_upper header)));
        included = true;
      }

  unfoldable pub first_columns : ℕ → List TableColumn → List TableLayoutColumn
  first_columns i [] = []
  first_columns i (c ∷ cs) = first_column i c ∷ first_columns (suc i) cs

  -- A row may be shorter or longer than the columns.
  unfoldable pub widen : List TableLayoutColumn → List Text → List TableLayoutColumn
  widen [] row = []
  widen (c ∷ cs) [] = c ∷ cs
  widen (c ∷ cs) (cell ∷ row) =
      record c { width = max c.width (text_width (sanitize_terminal_text is_graphic cell true)) }
      ∷ widen cs row

  unfoldable pub widen_all : List TableLayoutColumn → List (List Text) → List TableLayoutColumn
  unfolding widen
  widen_all columns [] = columns
  widen_all columns (row ∷ rows) = widen_all (widen columns row) rows

  unfoldable pub chosen_columns : TableData → ℕ → List TableLayoutColumn
  unfolding first_columns widen_all exclude_loop
  chosen_columns data_ width =
      let columns = widen_all (first_columns 0 data_.columns) data_.rows in
      exclude_loop (length columns) width columns

  -- The columns as `FormatTable` writes its lines with them.
  unfoldable pub table_layout : TableData → ℕ → List TableLayoutColumn
  unfolding chosen_columns shrink_table_columns
  table_layout data_ width = shrink_table_columns width (chosen_columns data_ width)
