-- ===== src/Metrics.antt =====
-- The memory chart of live mode (app/public/js/live.js, `updateMetrics` and `reloadMetricsChart`).
pub mod Laws
pub mod Chart
use workload_simulator.Prelude.{
  ℕ, ℤ, pos, ◌+ℤ◌, ◌-ℤ◌, ltb_ℤ, Bool, true, false, Option, none, some, List, [], ◌∷◌, if◌then◌else◌,
}
use workload_simulator.Js.{Scalar, undefined, to_text}
use workload_simulator.Js.Names
use workload_simulator.Js.Parse.{Text, Num, nan, int, codes, parse_float}
use workload_simulator.Settings.{or_undefined}

-- `metricsValues`
pub record MetricsValues : Type 0 where
  pub array : ℤ
  pub hash : ℤ
  pub buffer : ℤ
  pub cached : ℤ
  pub table : ℤ

-- `parseFloat(mets[name])`, or 0
unfoldable pub metric : Text → List (Text × Scalar) → ℤ
metric name mets = elim (parse_float (to_text (or_undefined (Names.find name mets)))) [
  | nan ↦ pos 0
  | int n ↦ n
]

unfoldable pub update_values : List (Text × Scalar) → MetricsValues
update_values mets = record {
  array = metric (codes "Alloc_large_array") mets;
  hash = metric (codes "Alloc_hash_buckets") mets;
  buffer = metric (codes "Buffer_manager_memory") mets;
  cached = metric (codes "Buffer_manager_cached_memory") mets;
  table = metric (codes "Alloc_table_memory") mets;
}

-- The two rings of the chart: the values of `series[0]` and of `series[1]`.
pub record Rings : Type 0 where
  pub inner : List ℤ
  pub outer : List ℤ

unfoldable pub reload_metrics_chart : MetricsValues → Rings
reload_metrics_chart v =
    let other = v.buffer -ℤ (v.cached +ℤ v.table) in
    if ltb_ℤ other (pos 0)
    then record {
      inner = v.array ∷ v.hash ∷ (v.cached +ℤ v.table) ∷ [];
      outer = v.array ∷ v.hash ∷ v.cached ∷ v.table ∷ pos 0 ∷ [];
    }
    else record {
      inner = v.array ∷ v.hash ∷ v.buffer ∷ [];
      outer = v.array ∷ v.hash ∷ v.cached ∷ v.table ∷ other ∷ [];
    }
