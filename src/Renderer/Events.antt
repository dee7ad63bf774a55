-- ===== src/Renderer/Events.antt =====
-- internal/renderer/events.go and the data of table.go: the events of the interactive renderer and
-- `EventWriter`, which turns writes of any size into one event for each line. The sink is the list
-- of events emitted so far, the mutex makes each method one step. An `int64` is its bit pattern.
pub mod Lines
use tgdownloader.Prelude.{
  ℕ, zero, suc, Bool, true, false, Option, none, some, List, [], ◌∷◌, ◌++◌, Text, ◌==◌, nat_eq,
  length, if◌then◌else◌, codes, map,
}

pub data ProgressUnit : Type 0 where
  count bytes : ProgressUnit

pub data EventKind : Type 0 where
  line progress_create progress_update progress_done progress_fail table barrier : EventKind

pub record TableColumn : Type 0 where
  pub header : Text
  pub min_width : ℕ
  pub priority : ℕ
  pub right_aligned : Bool
  pub required : Bool

pub record TableData : Type 0 where
  pub columns : List TableColumn
  pub rows : List (List Text)

pub record Event : Type 0 where
  pub kind : EventKind
  pub id : Text
  pub text : Text
  pub label : Text
  pub current : ℕ
  pub total : ℕ
  pub unit : ProgressUnit
  pub elapsed : ℕ
  pub table : Option TableData

-- `Event{Kind: EventLine, Text: line}` and `Event{Kind: EventTable, Table: &clone}`.
abbrev pub line_event : Text → Event
line_event s = record {
  kind = line;
  id = [];
  text = s;
  label = [];
  current = 0;
  total = 0;
  unit = count;
  elapsed = 0;
  table = none;
}

abbrev pub table_event : TableData → Event
table_event t = record {
  kind = table;
  id = [];
  text = [];
  label = [];
  current = 0;
  total = 0;
  unit = count;
  elapsed = 0;
  table = some t;
}

abbrev pub newline : ℕ
newline = 10

abbrev pub carriage_return : ℕ
carriage_return = 13

-- The text before the first newline, and behind it (`strings.IndexByte` and the two slices).
abbrev pub push_cut : ℕ → Option (Text × Text) → Option (Text × Text)
push_cut c none = none
push_cut c (some (before, after)) = some (c ∷ before, after)

unfoldable pub cut_newline : Text → Option (Text × Text)
cut_newline [] = none
cut_newline (c ∷ cs) = if c == newline then some ([], cs) else push_cut c (cut_newline cs)

-- `strings.TrimSuffix(s, "\r")`.
unfoldable pub trim_carriage_return : Text → Text
trim_carriage_return [] = []
trim_carriage_return (c ∷ []) = if c == carriage_return then [] else c ∷ []
trim_carriage_return (c ∷ d ∷ ds) = c ∷ trim_carriage_return (d ∷ ds)

pub record EventWriter : Type 0 where
  pub sink : List Event
  pub pending : Text

-- The `for` loop of `Write`, on fuel: every round takes at least the newline off `pending`.
unfoldable pub emit_lines : ℕ → EventWriter → EventWriter
emit_lines zero w = w
emit_lines (suc fuel) w = elim (cut_newline w.pending) [
  | none ↦ w
  | some (before, after) ↦
      emit_lines fuel
        (record { sink = w.sink ++ line_event (trim_carriage_return before) ∷ []; pending = after })
]

-- The writer and the count that `Write` returns; there is no error.
unfoldable pub write : EventWriter → Text → EventWriter × ℕ
write w p =
    let pending : Text = w.pending ++ p in
    (emit_lines (suc (length pending)) (record w { pending = pending }), length p)

unfoldable pub flush : EventWriter → EventWriter
flush w = elim w.pending [
  | [] ↦ w
  | c ∷ cs ↦ record {
    sink = w.sink ++ line_event (trim_carriage_return (c ∷ cs)) ∷ [];
    pending = [];
  }
]

-- `CloneTableData` copies the slices, so the event holds the table as it was.
unfoldable pub emit_table : EventWriter → TableData → EventWriter
unfolding flush
emit_table w t = let w' = flush w in record w' { sink = w'.sink ++ table_event t ∷ [] }
