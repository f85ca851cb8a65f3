-- ===== src/Tests/Widgets.antt =====
-- Widgets, workloads and the maximum of the dials at concrete inputs.
use workload_simulator.Prelude.{
  ◌-◌, ◌%◌, negsuc, pos, eq_ℤ, ◌≡◌, refl, none, some, List, [], ◌∷◌, arith, ◌+◌, ◌*◌, ◌/◌, ◌≤◌, All,
}
use workload_simulator.Js.{Scalar, num, str, eq_num, to_num, floor}
use workload_simulator.Js.Parse.{Text, nan, int, codes, show, parse_int, to_number}
use workload_simulator.Js.Parse.Decimal.{floor_number}
use workload_simulator.Js.Index.{find, put, remove}
use workload_simulator.Dial.{KnobKeeps, replace_dial}
use workload_simulator.Widget.{initialize, with_editor}
use workload_simulator.Registry.{Registry, empty, close, update, new_widget, delete_widget}
use workload_simulator.Registry.Invariant.{IsValid, empty-IsValid}
use workload_simulator.Registry.Actions.{
  Action, add, press_close, type_query, type_text, run, run-empty-IsValid,
}
use workload_simulator.Registry.Sheet.{replay, sheet_of}
use workload_simulator.Registry.Sheet.Refine.{run-empty_refines}
use workload_simulator.Workload.Sending.{without_empty, get_workload-without_empty}
use workload_simulator.Layout.Rows.{row_margins, row_margins_bound}
use workload_simulator.Workload.{
  Workload, get_workload, collect_all, add_cached, cached_workload, parsed, load_workload,
}
use workload_simulator.Workload.Loading.{
  present, extended, load_workload_lem, load_workload-bad_key,
}
use workload_simulator.Workload.RoundTrip.{values, InRange, in_range, load_workload-cached_workload}

-- A plug-in that shows every text as it is.
abbrev plain_knob : Scalar → Text → Text
plain_knob limit text = text

plain_knob-KnobKeeps : KnobKeeps plain_knob
plain_knob-KnobKeeps = record { keeps = λ m n h. refl }

abbrev limit : Scalar
limit = num (int (pos 10000))

-- Three widgets, the middle one closed, with a query in the last one.
abbrev session : List Action
session = add ∷ add ∷ add ∷ press_close 1 ∷ type_query 2 (codes "select 1") ∷ []

abbrev page : Registry
page = run plain_knob limit session empty

page-IsValid : IsValid page
page-IsValid = run-empty-IsValid plain_knob limit session

run-empty-IsValid_example : IsValid (run plain_knob limit session empty)
run-empty-IsValid_example = run-empty-IsValid plain_knob limit session

get_workload-without_empty_example : get_workload page ≡ without_empty (cached_workload page)
get_workload-without_empty_example = get_workload-without_empty page page-IsValid

run-empty_refines_example :
    sheet_of (run plain_knob limit session empty) ≡ replay session (record { next = 0; rows = [] })
run-empty_refines_example = run-empty_refines plain_knob limit session

page-InRange : All (InRange 10000) (values (cached_workload page))
unfolding cached_workload collect_all add_cached update find close new_widget put delete_widget
    remove initialize type_text with_editor replace_dial eq_num to_num floor parse_int show eq_ℤ
page-InRange = (in_range 0 (omega arith) refl, (in_range 0 (omega arith) refl, tt))

load_workload-cached_workload_example :
    values (cached_workload (load_workload plain_knob limit (parsed (cached_workload page)) empty))
    ≡ values (cached_workload page)
load_workload-cached_workload_example =
    load_workload-cached_workload plain_knob plain_knob-KnobKeeps 10000 page empty page-IsValid
      empty-IsValid page-InRange

-- Entries under the keys 1 and 5, and a null under 3.
abbrev gaps : Workload
gaps = record {
  indexed =
      (1, some (record { query = codes "a"; qps = num (int (pos 7)) }))
      ∷ (3, none)
      ∷ (5, some (record { query = codes "b"; qps = str (codes "9") }))
      ∷ [];
  named = [];
}

load_workload_lem_example :
    load_workload plain_knob limit gaps page
    ≡ extended plain_knob limit (present gaps.indexed) empty
load_workload_lem_example =
    load_workload_lem plain_knob limit gaps page page-IsValid refl (omega arith)

abbrev misnamed : Workload
misnamed = record gaps { named = (codes "first", none) ∷ [] }

load_workload-bad_key_example : load_workload plain_knob limit misnamed page ≡ empty
unfolding floor_number to_number
load_workload-bad_key_example =
    load_workload-bad_key plain_knob limit misnamed page (codes "first") none [] [] page-IsValid
      refl refl

-- A key with a fraction or an exponent.
spelled_keys :
    (floor_number (codes "1.5") ≡ int (pos 1))
    × (floor_number (codes " 12e1 ") ≡ int (pos 120))
    × (floor_number (codes "-25e-1") ≡ int (negsuc 2))
    × (floor_number (codes "0b101") ≡ int (pos 5))
    × (floor_number (codes ".") ≡ nan)
unfolding floor_number to_number
spelled_keys = (refl, refl, refl, refl, refl)

row_margins_bound_example :
    (row_margins 1000 300 2 (1000 / 300) ≡ (1000 / 300 - 1) * (1000 % 300))
    × (row_margins 1000 300 2 (1000 / 300) + 1000 / 300 * (1000 / 300 * 300) ≤ 1000 / 300 * 1000)
row_margins_bound_example = row_margins_bound 1000 300 2 (omega arith)
