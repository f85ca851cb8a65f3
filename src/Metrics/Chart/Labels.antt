-- ===== src/Metrics/Chart/Labels.antt =====
-- Which name each value of the memory chart stands under.
use workload_simulator.Prelude.{
  ℕ, ℤ, pos, ◌+ℤ◌, ◌-ℤ◌, ltb_ℤ, ◌≡◌, refl, Option, none, some, List, ◌∷◌, Bool-cases, inl, inr,
  if◌then◌else◌,
}
use workload_simulator.Js.Parse.{Text, codes, text_eq}
use workload_simulator.Metrics.{MetricsValues, reload_metrics_chart}
use workload_simulator.Metrics.Chart.{parts, submem_usage}

-- The value that stands at the place of the name.
abbrev pub value_under : Text → List (Text × ℕ) → List ℤ → Option ℤ
value_under name ((n, _) ∷ points) (v ∷ vs) =
    let rest = value_under name points vs in if text_eq name n then some v else rest
value_under _ _ _ = none

-- In the outer ring of the memory chart the cached memory stands under the name `Table`, and the memory
-- of the tables under the name `Cached`, whatever the values are.
pub value_under-reload_metrics_chart :
    (v : MetricsValues)
    → (value_under (codes "Table") (submem_usage parts) (reload_metrics_chart v).outer
        ≡ some v.cached)
      × (value_under (codes "Cached") (submem_usage parts) (reload_metrics_chart v).outer
          ≡ some v.table)
unfolding reload_metrics_chart submem_usage text_eq
value_under-reload_metrics_chart v =
    elim (Bool-cases (ltb_ℤ (v.buffer -ℤ (v.cached +ℤ v.table)) (pos 0))) [
      | inl short ↦ rw short (refl, refl)
      | inr enough ↦ rw enough (refl, refl)
    ]
