-- ===== src/Tests/Loads.antt =====
-- Visits to the earlier server, and the load that its workers make.
use workload_simulator.Prelude.{
  pos, true, false, ◌++◌, inr, eq_ℤ, ◌-ℤ◌, none, ℕ, ◌+◌, ◌*◌, ◌≤◌, ◌<◌, ◌≡◌, ◌↔◌, refl, some, List,
  [], ◌∷◌, length, leb, arith, if◌then◌else◌,
}
use workload_simulator.Js.Parse.{Text, codes, text_eq}
use workload_simulator.QueryTable.{QueryObject}
use workload_simulator.Service.Presence.{redirect_to_live, player_page, render_index, unload}
use workload_simulator.Service.Presence.Turns.{
  Sign, visit_at, ping_at, turns, guarded, turns-Steady, render_index-unload,
}
use workload_simulator.Service.Load.{
  Stats, worker_qps, Draw, succeeded, failed, survives, run_period,
}
use workload_simulator.Service.Load.Rate.{pool_rate, pool_rate-bounds}
use workload_simulator.Service.Load.Counts.{counted, run_period-counted}
use workload_simulator.Js.Names
use workload_simulator.Service.Plancache.{Row, Plancache, look_all}
use workload_simulator.Service.Plancache.Idle.{track, runs_of, seen_of, seen_of-look_all}

-- A page was given out at one second; its pings come after five seconds each, and a visitor in between.
abbrev signs : List Sign
signs = ping_at 6000000 ∷ visit_at 9000000 ∷ ping_at 11000000 ∷ []

turns-Steady_example : turns signs 1000000 ≡ guarded signs
turns-Steady_example =
    turns-Steady 1000000 signs
      (omega arith, omega arith, (omega arith, omega arith, (omega arith, omega arith, tt)))

render_index-unload_example :
    (render_index ((3 * 86400 + 10) * 1000000 + 500000) (unload 5).1).0
    ≡ (if leb 10 10 then redirect_to_live else player_page)
render_index-unload_example = render_index-unload 3 10 500000 5 (omega arith) (omega arith)

pool_rate-bounds_example :
    (20 + 2 ≤ pool_rate 20 50 + 50)
    × (pool_rate 20 50 ≤ 20 + 1 + 50 * 9)
    × ((worker_qps 20 50 ≡ 0) ↔ (20 + 1 < 50))
pool_rate-bounds_example = pool_rate-bounds 20 50 (omega arith)

abbrev drawn : QueryObject
drawn = record { query_id = 0; query = codes "a"; qps = 5 }

-- A query that succeeds, and one during which the database was started again.
abbrev draws : List Draw
draws =
    record { query = some drawn; sent = succeeded }
    ∷ record { query = some drawn; sent = failed 2006 true }
    ∷ []

-- One whose table is missing.
abbrev last_draws : List Draw
last_draws = record { query = some drawn; sent = failed 1146 true } ∷ []

abbrev memory : Stats
memory = (0, 4 ∷ 7 ∷ []) ∷ []

run_period-counted_example :
    ((run_period 1 (draws ++ last_draws) memory).0 ≡ false)
    × (counted (run_period 1 (draws ++ last_draws) memory).1 ≡ counted memory + length draws)
unfolding survives
run_period-counted_example =
    run_period-counted 1 draws last_draws memory
      ((drawn, refl, omega arith, refl), ((drawn, refl, omega arith, refl), tt))
      (inr (drawn, refl, refl))

-- Two looks: one query runs on, the other does not.
abbrev row : Text → ℕ → Row
row query n = record {
  query_text = query;
  database = codes "db";
  commits = some n;
  rollbacks = none;
}

abbrev looks : List (List Row)
looks =
    (row (codes "a") 3 ∷ row (codes "b") 5 ∷ []) ∷ (row (codes "a") 9 ∷ row (codes "b") 5 ∷ []) ∷ []

abbrev no_plans : Plancache
no_plans = record { prev_pc = []; stats = [] }

seen_of-look_all_example :
    seen_of (codes "a") (look_all (codes "db") looks no_plans)
    ≡ track (runs_of (codes "db") (codes "a") looks) (none, none)
unfolding Names.find
seen_of-look_all_example = seen_of-look_all (codes "db") (codes "a") looks no_plans

-- The counts of `a` were 3 and 9, so its rate is 6; `b` has none.
rate_of_a : track (runs_of (codes "db") (codes "a") looks) (none, none) ≡ (some 9, some (pos 6))
unfolding text_eq ◌-ℤ◌ eq_ℤ
rate_of_a = refl

rate_of_b : track (runs_of (codes "db") (codes "b") looks) (none, none) ≡ (some 5, none)
unfolding text_eq ◌-ℤ◌ eq_ℤ
rate_of_b = refl
