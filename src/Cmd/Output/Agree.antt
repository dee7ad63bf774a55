-- ===== src/Cmd/Output/Agree.antt =====
-- The rows of progress: those on display, their order, and those that are over.
use tgdownloader.Prelude.{
  ℕ, ◌+◌, ◌-◌, ◌≡◌, Bool, true, false, ◌&&◌, List, [], ◌∷◌, ◌++◌, Text, ◌==◌, nat_eq, list_eq,
  list_beq_iff, if◌then◌else◌, arith,
}
use tgdownloader.Prelude.Map
use tgdownloader.Prelude.Map.{Map, map_laws}
use tgdownloader.Renderer.Events.{Event}
use tgdownloader.Cmd.Output.{remove_active_row_id}

unfoldable pub occurrences : Text → List Text → ℕ
occurrences id [] = 0
occurrences id (x ∷ xs) = let n = occurrences id xs in if x == id then n + 1 else n

abbrev pub one_if : Bool → ℕ
one_if b = if b then 1 else 0

-- The order lists the rows on display once each and nothing else, and a row that is over is not
-- on display.
unfoldable pub Agree : Map Text Event → List Text → Map Text Bool → Type 0
unfolding occurrences
Agree rows order over =
    (id : Text)
    → (occurrences id order ≡ one_if (Map.has rows id))
      × ((Map.has rows id && Map.has over id) ≡ false)

pub has-put :
    {V : Type 0} (m : Map Text V) (k j : Text) (v : V)
    → Map.has (Map.put m k v) j ≡ (if k == j then true else Map.has m j)
has-put m k j v = grind (arith, map_laws)

pub has-delete :
    {V : Type 0} (m : Map Text V) (k j : Text)
    → Map.has (Map.delete m k) j ≡ (if k == j then false else Map.has m j)
has-delete m k j = grind (arith, map_laws)

pub occurrences-append :
    (id x : Text) (xs : List Text)
    → occurrences id (xs ++ x ∷ []) ≡ occurrences id xs + one_if (x == id)
unfolding occurrences
occurrences-append id x [] = ground arith
occurrences-append id x (y ∷ ys) = ground (arith, occurrences-append id x ys)

pub occurrences-remove :
    (id x : Text) (xs : List Text)
    → occurrences id (remove_active_row_id xs x) ≡ occurrences id xs - one_if (x == id)
unfolding occurrences remove_active_row_id
occurrences-remove id x [] = ground arith
occurrences-remove id x (y ∷ ys) =
    ground
      (arith, occurrences-remove id x ys, list_beq_iff y x, list_beq_iff y id, list_beq_iff x id)

-- A row that is over leaves the display.
pub Agree-finish :
    (rows : Map Text Event) (order : List Text) (over : Map Text Bool) (id : Text)
    → Agree rows order over
    → Agree (Map.delete rows id) (remove_active_row_id order id) (Map.put over id true)
unfolding Agree
Agree-finish rows order over id h j = ground (
  arith,
  h j,
  h id,
  has-delete rows id j,
  has-put over id j true,
  occurrences-remove j id order,
  list_beq_iff id j,
)

-- A row that is not over is shown, once.
pub Agree-show :
    (rows : Map Text Event) (order : List Text) (over : Map Text Bool) (id : Text) (e : Event)
    → Map.has over id ≡ false
    → Agree rows order over
    → Agree (Map.put rows id e) (if Map.has rows id then order else order ++ id ∷ []) over
unfolding Agree
Agree-show rows order over id e n h j =
    ground (arith, h j, h id, has-put rows id j e, occurrences-append j id order, list_beq_iff id j)
