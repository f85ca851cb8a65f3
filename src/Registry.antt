-- ===== src/Registry.antt =====
-- The widgets of the page (app/public/js/query_dial.js): `query_widget_map`, `global_query_id`, and
-- the widgets' elements in the order in which they stand in the page.
pub mod Laws
pub mod Invariant
pub mod Actions
pub mod Sheet
use workload_simulator.Prelude.{
  ℕ, ◌+◌, Option, none, some, List, [], ◌∷◌, ◌++◌, ◌==◌, if◌then◌else◌,
}
use workload_simulator.Js.{Scalar}
use workload_simulator.Js.Parse.{Text}
use workload_simulator.Js.Index.{put, find, remove, map_values}
use workload_simulator.Widget.{Widget, initialize, freeze, unfreeze}

pub record Registry : Type 0 where
  pub global_query_id : ℕ
  pub query_widget_map : List (ℕ × Widget)
  pub elements : List ℕ

abbrev pub registry : ℕ → List (ℕ × Widget) → List ℕ → Registry
registry n m es = record { global_query_id = n; query_widget_map = m; elements = es }

abbrev pub empty : Registry
empty = registry 0 [] []

-- `detach` of a widget's element
unfoldable pub detach : ℕ → List ℕ → List ℕ
detach id [] = []
detach id (e ∷ es) = if id == e then es else e ∷ detach id es

-- `delete` of the widget `w`
unfoldable pub delete_widget : Widget → Registry → Registry
delete_widget w r = record r {
  query_widget_map = remove w.query_id r.query_widget_map;
  elements = detach w.query_id r.elements;
}

-- The handler of the close button that carries the id `id`. An id with no widget is a TypeError.
unfoldable pub close : ℕ → Registry → Option Registry
close id r = elim (find id r.query_widget_map) [ none ↦ none | some w ↦ some (delete_widget w r) ]

-- The loop of `clearQueryWidgets` over the widgets that the map had when it began.
unfoldable pub delete_all : List (ℕ × Widget) → Registry → Registry
delete_all [] r = r
delete_all ((_, w) ∷ ws) r = delete_all ws (delete_widget w r)

unfoldable pub clear_query_widgets : Registry → Registry
clear_query_widgets r = record (delete_all r.query_widget_map r) { global_query_id = 0 }

-- A change of the widget with the id `id`, through a reference to it.
unfoldable pub update : ℕ → (Widget → Widget) → Registry → Registry
update id f r = elim (find id r.query_widget_map) [
  | none ↦ r
  | some w ↦ record r { query_widget_map = put id (f w) r.query_widget_map }
]

module _ (knob : Scalar → Text → Text) (dial_max_value : Scalar) where
  -- `new QueryWidget()`
  unfoldable pub new_widget : Registry → Registry
  new_widget r = record {
    global_query_id = r.global_query_id + 1;
    query_widget_map =
        put r.global_query_id (initialize knob dial_max_value r.global_query_id) r.query_widget_map;
    elements = r.elements ++ r.global_query_id ∷ [];
  }

  unfoldable pub freeze_all : Registry → Registry
  freeze_all r = record r {
    query_widget_map = map_values (freeze knob dial_max_value) r.query_widget_map;
  }

  unfoldable pub unfreeze_all : Registry → Registry
  unfreeze_all r = record r {
    query_widget_map = map_values (unfreeze knob dial_max_value) r.query_widget_map;
  }
