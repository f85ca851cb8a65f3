-- ===== src/Workload.antt =====
-- Reading a workload off the widgets and building the widgets of a workload
-- (app/public/js/common.js, `getWorkload`, `cacheWorkload` and `loadWorkload`).
pub mod Saving
pub mod Sending
pub mod Keys
pub mod Loading
pub mod Validity
pub mod RoundTrip
use workload_simulator.Prelude.{
  ℕ, zero, suc, ℤ, pos, negsuc, Option, none, some, List, [], ◌∷◌, if◌then◌else◌, ltb_ℤ,
}
use workload_simulator.Js.{Scalar, str, num_max}
use workload_simulator.Js.Parse.{Text, Num, nan, int, text_eq}
use workload_simulator.Js.Parse.Decimal.{floor_number}
use workload_simulator.Js.Index.{put, find, map_values}
use workload_simulator.Widget.{Widget, Editor, with_editor, unfreeze}
use workload_simulator.Registry.{Registry, new_widget, update, clear_query_widgets}

pub record Entry : Type 0 where
  pub query : Text
  pub qps : Scalar

-- A workload as an object: its index keys in order, then its other keys; `none` is a `null`.
pub record Workload : Type 0 where
  pub indexed : List (ℕ × Option Entry)
  pub named : List (Text × Option Entry)

abbrev pub entry_of : Editor → Widget → Entry
entry_of e w = record { query = e.value; qps = str w.dial.text }

-- The body of the loop of `getWorkload`: a widget with no editor or an empty query is passed over.
unfoldable pub add_sent : ℕ → Widget → List (ℕ × Entry) → List (ℕ × Entry)
add_sent i w ret = elim w.codemirror [
  | none ↦ ret
  | some e ↦ if text_eq e.value [] then ret else put i (entry_of e w) ret
]

unfoldable pub collect : List (ℕ × Entry) → List (ℕ × Widget) → List (ℕ × Entry)
collect ret [] = ret
collect ret ((i, w) ∷ ws) = collect (add_sent i w ret) ws

unfoldable pub get_workload : Registry → List (ℕ × Entry)
get_workload r = collect [] r.query_widget_map

-- The body of the loop of `cacheWorkload`: empty queries are kept.
unfoldable pub add_cached : ℕ → Widget → List (ℕ × Entry) → List (ℕ × Entry)
add_cached i w all = elim w.codemirror [ none ↦ all | some e ↦ put i (entry_of e w) all ]

unfoldable pub collect_all : List (ℕ × Entry) → List (ℕ × Widget) → List (ℕ × Entry)
collect_all all [] = all
collect_all all ((i, w) ∷ ws) = collect_all (add_cached i w all) ws

-- What `cacheWorkload` hands to `JSON.stringify`.
unfoldable pub cached_workload : Registry → List (ℕ × Entry)
cached_workload r = collect_all [] r.query_widget_map

-- The saved text read back: the same entries under the same keys.
unfoldable pub parsed : List (ℕ × Entry) → Workload
parsed saved = record { indexed = map_values some saved; named = [] }

-- The first loop of `loadWorkload`: the largest key, NaN if a key is not a number. The second loop
-- depends on its whole part only. For the key `Infinity` and no NaN the source's second loop does not
-- end; such a key has no part here.
unfoldable pub max_indexed : Num → List (ℕ × Option Entry) → Num
max_indexed n [] = n
max_indexed n ((i, _) ∷ m) = max_indexed (num_max (int (pos i)) n) m

unfoldable pub max_named : Num → List (Text × Option Entry) → Num
max_named n [] = n
max_named n ((k, _) ∷ m) = max_named (num_max (floor_number k) n) m

unfoldable pub max_index : Workload → Num
max_index w = max_named (max_indexed (int (pos 0)) w.indexed) w.named

-- How often `for (var i = 0; i <= max_index; i++)` runs its body.
unfoldable pub rounds : Num → ℕ
rounds nan = 0
rounds (int (pos n)) = suc n
rounds (int (negsuc n)) = 0

module _ (knob : Scalar → Text → Text) (dial_max_value : Scalar) where
  -- What is done to the new widget `q`.
  unfoldable pub fill : Entry → Widget → Widget
  fill entry q = unfreeze knob dial_max_value (record q {
    codemirror = with_editor (λ e. record e { value = entry.query }) q.codemirror;
    dial_value = entry.qps;
  })

  -- The body of the second loop.
  unfoldable pub load_slot : Option (Option Entry) → Registry → Registry
  load_slot none r = r
  load_slot (some none) r = r
  load_slot (some (some entry)) r =
      update r.global_query_id (fill entry) (new_widget knob dial_max_value r)

  unfoldable pub load_from : ℕ → ℕ → List (ℕ × Option Entry) → Registry → Registry
  load_from zero i w r = r
  load_from (suc n) i w r = load_from n (suc i) w (load_slot (find i w) r)

  unfoldable pub load_workload : Workload → Registry → Registry
  load_workload w r = load_from (rounds (max_index w)) 0 w.indexed (clear_query_widgets r)
