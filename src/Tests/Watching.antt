-- ===== src/Tests/Watching.antt =====
-- Live mode at concrete inputs.
use mathlib.Core.List.{Perm}
use workload_simulator.Prelude.{
  pos, ◌≡◌, refl, none, some, List, [], ◌∷◌, true, arith, reverse, take,
}
use workload_simulator.Js.{Scalar, bool, truthy}
use workload_simulator.Js.Parse.{Text, Num, int, codes, show, text_eq}
use workload_simulator.Registry.{empty}
use workload_simulator.Registry.Invariant.{empty-IsValid}
use workload_simulator.Page.{Page}
use workload_simulator.Metrics.{MetricsValues}
use workload_simulator.Metrics.Chart.{
  categories, parts, mem_usage, tooltip, inner_label, outer_label, to_fixed,
}
use workload_simulator.Live.{
  max_queries, LiveState, LiveStats, insert_rate, sort_rates, on_workload_receive,
}
use workload_simulator.Live.Laws.{IsLive, after, on_workload_receive-IsLive}
use workload_simulator.Live.Descending.{IsDescending}
use workload_simulator.Live.Order.{names, names-on_workload_receive}
use workload_simulator.Tests.Playing.{playing}

abbrev plain_knob : Scalar → Text → Text
plain_knob limit text = text

-- A page of live mode with no widget, where the user has clicked the button that sorts again.
abbrev watching : Page
watching = record playing { livemode = true; registry = empty }

abbrev no_memory : MetricsValues
no_memory = record { array = pos 3; hash = pos 2; buffer = pos 5; cached = pos 4; table = pos 7 }

abbrev fresh : LiveState
fresh = record {
  signature_to_widget = [];
  current_queries = 0;
  resort = 1;
  metrics_values = no_memory;
  chart = none;
  waiting = 0;
}

fresh-IsLive : IsLive (fresh, watching)
fresh-IsLive = record { counted = refl; limited = omega arith; valid = empty-IsValid }

abbrev two_rates : List (Text × Num)
two_rates = (codes "a", int (pos 30)) ∷ (codes "b", int (pos 7)) ∷ []

abbrev answer : LiveStats
answer = record { running = bool true; error = none; metrics = []; plancache = two_rates }

on_workload_receive-IsLive_example :
    IsLive (after (on_workload_receive plain_knob answer (fresh, watching)))
on_workload_receive-IsLive_example =
    on_workload_receive-IsLive plain_knob answer fresh watching fresh-IsLive

names-on_workload_receive_example :
    (rates : List (Text × Num)) × Perm rates two_rates
    × IsDescending rates
    × (names (on_workload_receive plain_knob answer (fresh, watching)).0.signature_to_widget
        ≡ take max_queries (names rates))
unfolding truthy text_eq
names-on_workload_receive_example =
    names-on_workload_receive plain_knob answer fresh watching fresh-IsLive refl refl
      ((refl, tt), (tt, tt)) ((pos 30, refl), ((pos 7, refl), tt))

-- The query with the higher rate comes first.
two_names : take max_queries (names (reverse (sort_rates two_rates))) ≡ codes "a" ∷ codes "b" ∷ []
unfolding sort_rates reverse insert_rate
two_names = refl

-- Each name of the chart has its text.
other_text : tooltip (codes "Other") ≡ codes "Other buffer manager memory."
unfolding tooltip text_eq
other_text = refl

-- The inner ring names its parts by the categories.
first_names :
    names (mem_usage categories parts)
    ≡ codes "Transaction Buffer" ∷ codes "Hash Tables" ∷ codes "Buffer Manager" ∷ []
unfolding mem_usage
first_names = refl

small_label : inner_label (codes "Table") (pos 100) ≡ none
unfolding inner_label
small_label = refl

label_of_two : outer_label (codes "Table") (pos 2) ≡ some (codes "<b>Table:</b> 2.00 MB")
unfolding outer_label to_fixed show
label_of_two = refl
