-- ===== src/Service/Load.antt =====
-- How many queries the workers of the earlier server send in a period, and how they are counted
-- (stress/worker.py). A period is a tenth of a second; the product with `PERIOD` is rounded up exactly,
-- as it is for the floating point numbers of the source.
pub mod Rate
pub mod Counts
use workload_simulator.Prelude.{
  ℕ, zero, suc, ◌+◌, ◌-◌, ◌*◌, ◌/◌, ◌==◌, Bool, true, false, not, Option, none, some, List, [], ◌∷◌,
  map, if◌then◌else◌,
}
use workload_simulator.QueryTable.{QueryObject}
use workload_simulator.Service.Requests.{is_uncaught}

-- The number of periods in a second
abbrev pub periods : ℕ
periods = 10

-- `int(ceil(((query_table.total_qps + 1) / nworkers) * PERIOD))`, with the division of whole numbers.
unfoldable pub worker_qps : ℕ → ℕ → ℕ
worker_qps total nworkers = ((total + 1) / nworkers + (periods - 1)) / periods

-- `qps_query_table`: the queries done, by the id of the query, a number for each worker. The numbers
-- do not reach their 64 bits.
abbrev pub Stats : Type 0
Stats = List (ℕ × List ℕ)

unfoldable pub increment : ℕ → List ℕ → List ℕ
increment index [] = []
increment zero (n ∷ stats) = (n + 1) ∷ stats
increment (suc index) (n ∷ stats) = n ∷ increment index stats

-- `query_gen.stats[index] += 1`
unfoldable pub count_query : ℕ → ℕ → Stats → Stats
count_query index id [] = []
count_query index id ((j, stats) ∷ table) =
    let others = count_query index id table in
    if id == j then (j, increment index stats) ∷ table else (j, stats) ∷ others

abbrev er_server_gone : ℕ
er_server_gone = 2006

-- What becomes of a query that is sent: it succeeds, or it fails with an error of the database, of some
-- number, and with whether the worker then connects again where it tries to; or another exception comes.
pub data Sent : Type 0 where
  succeeded : Sent
  failed : ℕ → Bool → Sent
  broke : Sent

-- Whether the worker counts the query and goes on.
unfoldable pub survives : Sent → Bool
survives succeeded = true
survives (failed n connects) = if n == er_server_gone then connects else not (is_uncaught n)
survives broke = false

-- A round of a worker: what `get_random_query` gives, `none` for an IndexError, and what becomes of it.
pub record Draw : Type 0 where
  pub query : Option QueryObject
  pub sent : Sent

-- One period of a worker: whether it lives on, and what is counted.
unfoldable pub run_period : ℕ → List Draw → Stats → Bool × Stats
run_period index [] table = (true, table)
run_period index (d ∷ draws) table = elim d.query [
  | none ↦ (false, table)
  | some q ↦
      let rest = run_period index draws (count_query index q.query_id table) in
      if survives d.sent then rest else (false, table)
]

unfoldable pub sum : List ℕ → ℕ
sum [] = 0
sum (n ∷ stats) = n + sum stats

-- What `stat_loop` keeps of a query, `prev_qs[i]`, and the differences that it has found, the last one
-- first. It writes each to `qps_array`, divided by the time that has passed.
pub record Counter : Type 0 where
  pub prev : ℕ
  pub diffs : List ℕ

-- One round of `stat_loop` for a query.
unfoldable pub poll_stats : List ℕ → Counter → Counter
poll_stats stats c =
    let diff : ℕ = sum stats - c.prev in record { prev = c.prev + diff; diffs = diff ∷ c.diffs }
