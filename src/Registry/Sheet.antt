-- ===== src/Registry/Sheet.antt =====
-- What the widgets are to the user: a sheet of queries, each with an id and a lock, in the order in
-- which they were added.
pub mod Refine
use workload_simulator.Prelude.{
  ℕ, ◌+◌, ◌==◌, Bool, true, false, none, some, List, [], ◌∷◌, ◌++◌, map, if◌then◌else◌,
}
use workload_simulator.Js.Parse.{Text}
use workload_simulator.Widget.{Widget}
use workload_simulator.Registry.{Registry}
use workload_simulator.Registry.Actions.{
  Action, add, clear, freeze_widgets, unfreeze_widgets, press_close, click_on, type_query, report,
  show_rate,
}

pub record Row : Type 0 where
  pub id : ℕ
  pub query : Text
  pub locked : Bool

pub record Sheet : Type 0 where
  pub next : ℕ
  pub rows : List Row

abbrev pub lock : Bool → Row → Row
lock b row = record row { locked = b }

-- A query is written into a row that is not locked.
abbrev pub write : Text → Row → Row
write q row = if row.locked then row else record row { query = q }

abbrev pub erase : ℕ → List Row → List Row
erase id [] = []
erase id (row ∷ rows) = if id == row.id then rows else row ∷ erase id rows

abbrev pub change : ℕ → (Row → Row) → List Row → List Row
change id g [] = []
change id g (row ∷ rows) = if id == row.id then g row ∷ rows else row ∷ change id g rows

abbrev pub step : Action → Sheet → Sheet
step add s = record {
  next = s.next + 1;
  rows = s.rows ++ record { id = s.next; query = []; locked = false } ∷ [];
}
step clear s = record { next = 0; rows = [] }
step freeze_widgets s = record s { rows = map (lock true) s.rows }
step unfreeze_widgets s = record s { rows = map (lock false) s.rows }
step (press_close id) s = record s { rows = erase id s.rows }
step (type_query id q) s = record s { rows = change id (write q) s.rows }
step (click_on id) s = s
step (report id message) s = s
step (show_rate id v) s = s

abbrev pub replay : List Action → Sheet → Sheet
replay [] s = s
replay (a ∷ actions) s = replay actions (step a s)

-- The sheet that a page shows.
abbrev pub row_of : ℕ → Widget → Row
row_of k w = elim w.codemirror [
  | none ↦ record { id = k; query = []; locked = false }
  | some e ↦ record { id = k; query = e.value; locked = e.read_only }
]

abbrev pub rows_of : List (ℕ × Widget) → List Row
rows_of [] = []
rows_of ((k, w) ∷ m) = row_of k w ∷ rows_of m

abbrev pub sheet_of : Registry → Sheet
sheet_of r = record { next = r.global_query_id; rows = rows_of r.query_widget_map }
