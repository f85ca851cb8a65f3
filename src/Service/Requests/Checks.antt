-- ===== src/Service/Requests/Checks.antt =====
-- The answers of the earlier server (stress/server.py), and its checks of the database and of the
-- workers.
use workload_simulator.Prelude.{ℕ, ◌==◌, Bool, false, Option, none, some, List, if◌then◌else◌}
use workload_simulator.Js.Parse.{Text, codes}
use workload_simulator.Service.Act.{
  ServerException, server_exception, Ended, returned, raised, crashed, Act, done, throw, crash,
  reads, ◌>>=◌, ◌>>◌,
}
use workload_simulator.Service.State.{Server, WorkerPool}
use workload_simulator.Service.Workers.{clear, is_alive, worker_pool}

abbrev pub er_unknown : ℕ
er_unknown = 0

abbrev pub er_dbconn : ℕ
er_dbconn = 1

abbrev pub er_dbname : ℕ
er_dbname = 2

abbrev pub er_js : ℕ
er_js = 3

abbrev pub er_settings : ℕ
er_settings = 5

-- `format_response`, or the answer 500 after any other exception.
pub record Response : Type 0 where
  pub running : Bool
  pub error : Option ServerException
  pub stats : Option (List (ℕ × ℕ))

pub data Reply : Type 0 where
  response : Response → Reply
  internal_error : Reply

abbrev pub answer : Bool → Response
answer running = record { running = running; error = none; stats = none }

abbrev pub refusal : ServerException → Response
refusal e = record { running = false; error = some e; stats = none }

-- `except ServerException as e: return format_response(False, e)`
abbrev pub reply_of : Ended Response → Reply
reply_of (returned r) = response r
reply_of (raised e) = response (refusal e)
reply_of crashed = internal_error

abbrev pub handled : Act Server Response → Server → Reply × Server
handled m s = let (r, t) = m s in (reply_of r, t)

-- What the world answers while a request is handled: the processes when they are asked whether they
-- live, at most twice, and when they are interrupted; and the database.
pub record World : Type 0 where
  pub alive : List Bool
  pub alive_then : List Bool
  pub synced : List Bool
  pub db_error : Option (ℕ × Text)
  pub tables_error : Option Text
  pub mysql_connects : Bool
  pub failure : Text → Option (ℕ × Text)

-- `check_connection_settings`
unfoldable pub check_connection_settings : World → Act Server Unit
check_connection_settings w = elim w.db_error [
  | some (n, m) ↦
      if n == 1049
      then throw (server_exception er_dbname m)
      else throw (server_exception er_dbconn m)
  | none ↦ elim w.tables_error [ some m ↦ throw (server_exception er_dbname m) | none ↦ done tt ]
]

abbrev pub set_workers : WorkerPool → Act Server Unit
set_workers p s = (returned tt, record s { g_workers = some p })

-- `g_workers.is_alive()`; with no pool an AttributeError.
unfoldable pub workers_alive : List Bool → Act Server Bool
workers_alive alive = do
  workers ← reads (λ s. s.g_workers)
  elim workers [ none ↦ crash | some p ↦ let (b, q) = is_alive alive p in set_workers q >> done b ]

-- `check_workers`
unfoldable pub check_workers : World → List Bool → Act Server Unit
check_workers w alive = do
  b ← workers_alive alive
  if b then done tt else do
    check_connection_settings w
    throw (server_exception er_unknown (codes "Unable to initialize workers."))

abbrev pub clear_workers : Act Server Unit
clear_workers s = (
  returned tt,
  record s { g_workers = elim s.g_workers [ none ↦ none | some p ↦ some (clear p) ] },
)

-- `reset_workers`
unfoldable pub reset_workers : Act Server Unit
reset_workers = do
  clear_workers
  settings ← reads (λ s. s.g_settings)
  elim (worker_pool settings) [ none ↦ crash | some p ↦ set_workers p ]
