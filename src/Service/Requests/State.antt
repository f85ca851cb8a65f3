-- ===== src/Service/Requests/State.antt =====
-- The pauses, polls and questions for the state, and the end, of the earlier server
-- (stress/server.py).
use workload_simulator.Prelude.{
  ℕ, ◌+◌, ◌%◌, ◌==◌, ℤ, pos_part, true, false, not, Option, none, some, List, [], ◌∷◌, ltb,
  if◌then◌else◌,
}
use workload_simulator.QueryTable.{QueryObject}
use workload_simulator.Service.Act.{returned, Act, done, crash, reads, ◌>>=◌, ◌>>◌}
use workload_simulator.Service.State.{Server}
use workload_simulator.Service.Workers.{clear}
use workload_simulator.Service.Requests.Checks.{
  Response, Reply, answer, handled, World, set_workers, check_workers,
}
use workload_simulator.Service.Requests.Play.{pause_workers}

-- `pause`
unfoldable pub pause : World → Server → Reply × Server
pause w = handled (do
  workers ← reads (λ s. s.g_workers)
  elim workers [
    | none ↦ done (answer false)
    | some p ↦
        if p.paused
        then done (answer false)
        else do check_workers w w.alive; pause_workers w.synced; done (answer false)
  ])

-- `get_status`
unfoldable pub get_status : World → Server → Reply × Server
get_status w = handled (do
  workers ← reads (λ s. s.g_workers)
  elim workers [
    | none ↦ done (answer false)
    | some p ↦ do
      check_workers w w.alive
      now ← reads (λ s. s.g_workers)
      elim now [ none ↦ crash | some q ↦ done (answer (not q.paused)) ]
  ])

-- The rates that `get_stats` reads off the memory that the workers share, `qps_array`, with room for
-- 500, by the id of the query; `none` for an IndexError.
unfoldable pub rates_of : (ℕ → ℤ) → List QueryObject → Option (List (ℕ × ℕ))
rates_of qps_array [] = some []
rates_of qps_array (q ∷ workload) =
    let others = rates_of qps_array workload in
    if ltb q.query_id 500
    then elim others [
      | none ↦ none
      | some rates ↦ some ((q.query_id, pos_part (qps_array q.query_id)) ∷ rates)
    ]
    else none

abbrev pub full_check_period : ℕ
full_check_period = 10

abbrev pub count_check : Act Server Unit
count_check s = (returned tt, record s { stat_check_count = s.stat_check_count + 1 })

unfoldable pub answer_rates : (ℕ → ℤ) → Act Server Response
answer_rates qps_array = do
  workload ← reads (λ s. s.g_workload)
  elim workload [
    | none ↦ crash
    | some queries ↦ elim (rates_of qps_array queries) [
      | none ↦ crash
      | some rates ↦ done (record { running = true; error = none; stats = some rates })
    ]
  ]

-- `get_stats`
unfoldable pub get_stats : World → (ℕ → ℤ) → Server → Reply × Server
get_stats w qps_array = handled (do
  workers ← reads (λ s. s.g_workers)
  elim workers [
    | none ↦ done (answer false)
    | some p ↦ do
      count ← reads (λ s. s.stat_check_count)
      if count % full_check_period == 0 then check_workers w w.alive else done tt
      count_check
      answer_rates qps_array
  ])

-- `kill`: the name `g_plancaches` is none of the module's, so it ends with a NameError after the
-- workers are cleared.
unfoldable pub kill : Server → Reply × Server
kill = handled (do
  workers ← reads (λ s. s.g_workers)
  elim workers [ none ↦ crash | some p ↦ set_workers (clear p) >> crash ])
