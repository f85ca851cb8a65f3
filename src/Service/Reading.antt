-- ===== src/Service/Reading.antt =====
-- What the parts of a play leave as it is, and what they put into the globals of the earlier server.
use workload_simulator.Prelude.{
  ℕ, ◌≡◌, refl, ap, ◌∙◌, true, Option, some, List, [], ◌∷◌, Option-cases, inl, inr,
}
use workload_simulator.Js.Parse.{Text}
use workload_simulator.QueryTable.{QueryObject, Globals}
use workload_simulator.Service.Act.{returned, done, crash, reads, ◌>>=◌}
use workload_simulator.Service.Act.Keeps.{Keeps}
use workload_simulator.Service.State.{Settings, Server, WorkerPool, eq_settings}
use workload_simulator.Service.Workers.{all, is_alive}
use workload_simulator.Service.Requests.{
  World, Entry, read_entries, set_info, ensure_workers, workers_alive, validate_workload,
  set_globals,
}
use workload_simulator.Service.Validation.{Keeps-validate_workload}
use workload_simulator.Service.Answers.{with_pool}

-- The pool, the workload and the settings of the server are these.
pub record Holds (o : Option WorkerPool) (workload : Option (List QueryObject))
    (settings : Settings) (s : Server) : Type 0 where
  pub pool : s.g_workers ≡ o
  pub loaded : s.g_workload ≡ workload
  pub chosen : s.g_settings ≡ settings

Holds-set_globals :
    {o : Option WorkerPool} {workload : Option (List QueryObject)} {settings : Settings}
    (g : Globals)
    → Keeps (Holds o workload settings) (set_globals g)
Holds-set_globals g = record {
  kept = λ s h. record { pool = h.pool; loaded = h.loaded; chosen = h.chosen };
}

-- The validation leaves them as they are, however it ends.
pub validate_workload-Holds :
    (randint : ℕ → ℕ) (clock : ℕ → Text) (w : World) (s : Server)
    → Holds s.g_workers s.g_workload s.g_settings (validate_workload randint clock w s).1
validate_workload-Holds randint clock w s =
    (Keeps-validate_workload Holds-set_globals randint clock w).kept s
      (record { pool = refl; loaded = refl; chosen = refl })

-- What the loop over the entries of a request returns is what it has put into `g_workload`.
pub read_entries-g_workload :
    (entries : List Entry) (before workload : List QueryObject) (s : Server)
    → s.g_workload ≡ some before
    → (read_entries before entries s).0 ≡ returned workload
    → read_entries before entries s ≡ (returned workload, record s { g_workload = some workload })
unfolding read_entries done crash ◌>>=◌
read_entries-g_workload [] before workload s now e =
    let same : before ≡ workload = cc in
    ap (λ o. (returned before, record s { g_workload = o })) now
    ∙ ap (λ (l : List QueryObject). (returned l, record s { g_workload = some l })) same
read_entries-g_workload (x ∷ entries) before workload s now e = elim (Option-cases x.qps) [
  | inl no_rate ↦ cc (rw (no_rate, read_entries) at e)
  | inr (qps, rate) ↦ elim (Option-cases x.query_id) [
    | inl no_id ↦ cc (rw (rate, no_id, read_entries) at e)
    | inr (id, key) ↦
        let more : List QueryObject =
          set_info (record { query_id = id; query = x.query; qps = qps }) before in
        rw (rate, key, read_entries)
          (read_entries-g_workload entries more workload (record s { g_workload = some more }) refl
            (rw (rate, key, read_entries) at e))
  ]
]

-- A pool that lives and has the settings of the request is kept.
pub ensure_workers-same :
    (w : World) (p : WorkerPool) (s : Server)
    → all w.alive ≡ true
    → eq_settings p.settings_dict s.g_settings ≡ true
    → ensure_workers w (with_pool p s) ≡ (returned tt, with_pool p s)
unfolding ensure_workers workers_alive is_alive ◌>>=◌ reads done
ensure_workers-same w p s lives same = rw (lives, same) refl
