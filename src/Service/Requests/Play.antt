-- ===== src/Service/Requests/Play.antt =====
-- A play on the earlier server (stress/server.py, `submit_workload`).
use workload_simulator.Prelude.{
  ℕ, ◌==◌, Bool, true, not, ◌&&◌, ◌||◌, Option, none, some, List, [], ◌∷◌, ◌++◌, if◌then◌else◌,
}
use workload_simulator.Js.Parse.{Text, codes}
use workload_simulator.QueryTable.{Globals, QueryObject, QueryTable, query_table, query_f, is_empty}
use workload_simulator.Service.Act.{
  ServerException, server_exception, workload_exception, returned, Act, done, throw, crash, reads,
  ◌>>=◌, ◌>>◌,
}
use workload_simulator.Service.State.{Settings, Server, set_settings, no_settings, eq_settings}
use workload_simulator.Service.Workers.{pause_pool, send_workload}
use workload_simulator.Service.Requests.Checks.{
  er_unknown, er_js, er_settings, Response, Reply, answer, handled, World,
  check_connection_settings, set_workers, workers_alive, check_workers, reset_workers,
}

-- An entry of the workload of a request: its key and its rate as `int` reads them, the rate through
-- `float` where `int` does not read it, with `none` for an exception. They are not negative.
pub record Entry : Type 0 where
  pub query_id : Option ℕ
  pub query : Text
  pub qps : Option ℕ

-- `g_workload[int(query_id)] = info`
unfoldable pub set_info : QueryObject → List QueryObject → List QueryObject
set_info q [] = q ∷ []
set_info q (r ∷ workload) =
    if q.query_id == r.query_id then q ∷ workload else r ∷ set_info q workload

abbrev pub set_workload : List QueryObject → Act Server Unit
set_workload workload s = (returned tt, record s { g_workload = some workload })

-- The loop of `submit_workload` over the entries, behind `workload`, which is what it has read so far.
unfoldable pub read_entries : List QueryObject → List Entry → Act Server (List QueryObject)
read_entries workload [] = done workload
read_entries workload (e ∷ entries) = elim e.qps [
  | none ↦ crash
  | some qps ↦ elim e.query_id [
    | none ↦ crash
    | some id ↦
        let more : List QueryObject =
          set_info (record { query_id = id; query = e.query; qps = qps }) workload in
        set_workload more >> read_entries more entries
  ]
]

-- `uncaught_errors`
abbrev pub is_uncaught : ℕ → Bool
is_uncaught n =
    n == 1046 || n == 1146 || n == 1064 || n == 1707 || n == 1136 || n == 1720 || n == 1054

abbrev pub set_globals : Globals → Act Server Unit
set_globals g s = (returned tt, record s { query_globals = g })

abbrev pub add_failure : ℕ → Option (ℕ × Text) → List (ℕ × Text) → List (ℕ × Text)
add_failure id none failed = failed
add_failure id (some (n, m)) failed = if is_uncaught n then failed ++ (id, m) ∷ [] else failed

-- The text and the settings of a request, as far as they are JSON.
pub record Request : Type 0 where
  pub workload : List Entry
  pub settings : List (Text × Text)

abbrev pub put_settings : Settings → Act Server Unit
put_settings t s = (returned tt, record s { g_settings = t })

-- A new pool, unless there is one that lives and has the same settings.
unfoldable pub ensure_workers : World → Act Server Unit
ensure_workers w = do
  workers ← reads (λ s. s.g_workers)
  elim workers [
    | none ↦ reset_workers
    | some p ↦ do
      b ← workers_alive w.alive
      settings ← reads (λ s. s.g_settings)
      if b && eq_settings p.settings_dict settings then done tt else reset_workers
  ]

-- `g_workers.pause()`
unfoldable pub pause_workers : List Bool → Act Server Bool
pause_workers synced = do
  workers ← reads (λ s. s.g_workers)
  elim workers [
    | none ↦ crash
    | some p ↦ let (b, q) = pause_pool synced p in set_workers q >> done b
  ]

-- `g_workers.send_workload(g_workload)`
unfoldable pub send : List QueryObject → Act Server Unit
send workload = do
  workers ← reads (λ s. s.g_workers)
  elim workers [ none ↦ crash | some p ↦ set_workers (send_workload workload p) ]

abbrev pub empty_table : ServerException
empty_table =
    server_exception er_js
      (codes "The workload table is empty. Use the workspace below to add new queries.")

-- What `validate_workload` makes of the queries that failed.
abbrev pub verdict : QueryTable → List (ℕ × Text) → Act Server Unit
verdict qt (f ∷ failed) = throw (workload_exception (f ∷ failed))
verdict qt [] =
    if is_empty qt
    then throw (
        server_exception er_js (
          codes
            "Workload is empty. Adjust the dial to indicate how many times to run the query per-second."))
    else done tt

-- `g_settings = Settings(...)`
unfoldable pub read_settings : (Text → Bool) → List (Text × Text) → Act Server Unit
read_settings is_str d = elim (set_settings is_str d no_settings) [
  | none ↦ throw (
      server_exception er_settings
        (codes "Invalid settings. Please verify port number and workers processes"))
  | some t ↦ put_settings t
]

module _ (randint : ℕ → ℕ) (clock : ℕ → Text) where
  -- The loop of `validate_workload` over the queries
  unfoldable pub validate_queries :
      World → List QueryObject → List (ℕ × Text) → Act Server (List (ℕ × Text))
  validate_queries w [] failed = done failed
  validate_queries w (q ∷ objects) failed = do
    g ← reads (λ s. s.query_globals)
    elim (query_f randint clock q.query (codes "0") g) [
      | none ↦ crash
      | some (query, h) ↦
          set_globals h
          >> validate_queries w objects (add_failure q.query_id (w.failure query) failed)
    ]

  -- `validate_workload`
  unfoldable pub validate_workload : World → Act Server Unit
  validate_workload w =
      if w.mysql_connects
      then (reads (λ s. s.g_workload) >>= λ workload. elim workload [
        | none ↦ crash
        | some objects ↦ elim (query_table objects) [
          | none ↦ crash
          | some qt ↦ validate_queries w qt.query_objects [] >>= λ failed. verdict qt failed
        ]
      ])
      else check_connection_settings w
        >> throw (
            server_exception er_unknown
              (codes "Unable to validate workload. Could not connect to database."))

module _ (is_str : Text → Bool) (randint : ℕ → ℕ) (clock : ℕ → Text) where
  -- What `submit_workload` does with a workload that was read.
  unfoldable pub play_workload : Request → World → List QueryObject → Act Server Response
  play_workload r w [] = throw empty_table
  play_workload r w (q ∷ workload) = do
    read_settings is_str r.settings
    ensure_workers w
    check_workers w w.alive_then
    validate_workload randint clock w
    b ← pause_workers w.synced
    if not b
        then throw (server_exception er_unknown (codes "Unknown Error- workers failed"))
        else do send (q ∷ workload); done (answer true)

  -- `submit_workload`
  unfoldable pub submit_workload : Request → World → Server → Reply × Server
  submit_workload r w =
      handled
        (do set_workload []; workload ← read_entries [] r.workload; play_workload r w workload)
