-- ===== src/Renderer/Table/Layout.antt =====
-- The layout of a table, from the columns that are chosen to their widths.
use tgdownloader.Prelude.{ℕ, ◌≤◌, ◌≡◌, ◌⊎◌, true, List, All}
use Prim.Native.Nat.{max}
use tgdownloader.Renderer.Table.{
  TableLayoutColumn, count_included, table_layout_width, shrink_table_columns,
}
use tgdownloader.Renderer.Table.Fits.{least_table_width}
use tgdownloader.Renderer.Table.Excluded.{IsExcluded}

-- Every column has the width that it asks for; every shown column has no more.
abbrev pub AtLeast : List TableLayoutColumn → Type 0
AtLeast cs = All (λ (c : TableLayoutColumn). max 1 c.column.min_width ≤ c.width) cs

abbrev pub AtMost : List TableLayoutColumn → Type 0
AtMost cs =
    All (λ (c : TableLayoutColumn). c.included ≡ true → c.width ≤ max 1 c.column.min_width) cs

-- Every column has a cell.
abbrev pub HasCells : List TableLayoutColumn → Type 0
HasCells cs = All (λ (c : TableLayoutColumn). 1 ≤ c.width) cs

-- What both loops of the shrinking leave of columns that have the widths they ask for.
record IsShared (width : ℕ) (cs : List TableLayoutColumn) : Type 0 where
  same_columns : count_included (shrink_table_columns width cs) ≡ count_included cs
  cells : HasCells (shrink_table_columns width cs)
  shared : AtLeast (shrink_table_columns width cs) ⊎ AtMost (shrink_table_columns width cs)

-- What is laid out of the columns that are chosen: no column is lost, each has a cell, the table fits
-- as far as it can, and where a column has less than it asks for, none that is shown has more.
pub record IsLaidOut (width : ℕ) (chosen shown : List TableLayoutColumn) : Type 0 where
  pub chosen_fit : IsExcluded width chosen
  pub same_columns : count_included shown ≡ count_included chosen
  pub cells : HasCells shown
  pub shared : AtLeast shown ⊎ AtMost shown
  pub fits : table_layout_width shown ≤ max width (least_table_width (count_included shown))
