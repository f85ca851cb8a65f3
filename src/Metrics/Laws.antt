-- ===== src/Metrics/Laws.antt =====
-- The rings of the memory chart.
use workload_simulator.Prelude.{
  ℤ, pos, ◌+ℤ◌, ◌-ℤ◌, ltb_ℤ, ◌≡◌, List, [], ◌∷◌, int_laws, Bool-cases, inl, inr,
}
use workload_simulator.Metrics.{MetricsValues, reload_metrics_chart}

abbrev pub total : List ℤ → ℤ
total [] = pos 0
total (n ∷ ns) = n +ℤ total ns

-- Both rings of the chart add up to the same memory, whatever values they are drawn from, also where
-- the parts of the buffer manager are more than the whole.
pub total-reload_metrics_chart :
    (v : MetricsValues)
    → total (reload_metrics_chart v).inner ≡ total (reload_metrics_chart v).outer
unfolding reload_metrics_chart
total-reload_metrics_chart v =
    elim (Bool-cases (ltb_ℤ (v.buffer -ℤ (v.cached +ℤ v.table)) (pos 0))) [
      | inl short ↦ rw short (omega int_laws)
      | inr enough ↦ rw enough (omega int_laws)
    ]
