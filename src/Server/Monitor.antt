-- ===== src/Server/Monitor.antt =====
-- The statistics of the server (app/stats.go, `StatsMonitor`) and the answer to a poll for them
-- (app/handlers.go, `handleStats`). Times are left out.
pub mod Totals
use workload_simulator.Prelude.{
  ℕ, ℤ, pos, ◌+◌, ◌*◌, Bool, true, false, Option, none, some, List, [], ◌∷◌, ◌++◌,
}
use workload_simulator.Js.Parse.{Text}
use workload_simulator.Js.Names
use workload_simulator.Server.{Task, App}

-- What a worker reports: all rounds that it began, and the requests done since its last report.
pub record Stat : Type 0 where
  pub workload : Task
  pub nreq_sent : ℕ
  pub nreq_done : ℕ

pub record Metric : Type 0 where
  pub req_sent : ℕ
  pub req_complete : ℕ
  pub req_per_sec : ℕ

pub record Report : Type 0 where
  pub batch_id : Text
  pub model_name : Text
  pub model_id : Text
  pub ops_host : Text
  pub user : Text
  pub request_per_s : List (Text × ℕ)
  pub request_lag_done : List (Text × ℕ)
  pub request_sent : ℕ
  pub request_done : ℕ

-- The variables of the monitor.
pub record Monitor : Type 0 where
  pub isent : ℕ
  pub idone : ℕ
  pub bid : Text
  pub mid : Text
  pub mn : Text
  pub host : Text
  pub user : Text
  pub request_per_sec : List (Text × ℕ)
  pub request_lag_done : List (Text × ℕ)
  pub request_metrics : List (Text × Metric)

abbrev pub initial : Monitor
initial = record {
  isent = 0;
  idone = 0;
  bid = [];
  mid = [];
  mn = [];
  host = [];
  user = [];
  request_per_sec = [];
  request_lag_done = [];
  request_metrics = [];
}

-- What the monitor sends when its ticker fires.
abbrev pub report_of : Monitor → Report
report_of m = record {
  batch_id = m.bid;
  model_name = m.mn;
  model_id = m.mid;
  ops_host = m.host;
  user = m.user;
  request_per_s = m.request_per_sec;
  request_lag_done = m.request_lag_done;
  request_sent = m.isent;
  request_done = m.idone;
}

-- The requests done in the half second between two reports of a worker, by the second.
abbrev pub per_second : ℕ → ℕ
per_second n = 2 * n

-- What the monitor does with the report of a worker. The counters do not reach their 64 bits.
unfoldable pub take_stat : Stat → Monitor → Monitor
take_stat s m =
    let id : Text = s.workload.model_id in
    let sent : ℕ = m.isent + s.nreq_sent in
    let complete : ℕ = m.idone + s.nreq_done in
    let rate : ℕ = per_second s.nreq_done in
    record {
      isent = sent;
      idone = complete;
      bid = s.workload.batch_id;
      mid = id;
      mn = s.workload.model_name;
      host = s.workload.ops_host;
      user = s.workload.user;
      request_per_sec = Names.put id rate m.request_per_sec;
      request_lag_done = Names.put id complete m.request_lag_done;
      request_metrics =
          Names.put id (record { req_sent = sent; req_complete = complete; req_per_sec = rate })
            m.request_metrics;
    }

-- A line of the report file.
pub record CsvMetric : Type 0 where
  pub batch_id : Text
  pub ops_host : Text
  pub ops_user : Text
  pub ops_model_name : Text
  pub n_workers : ℤ
  pub req_sent : ℕ
  pub req_complete : ℕ
  pub req_per_sec : ℕ

-- The answer to a poll, `none` where a field is not set, and the lines written.
pub record StatsReply : Type 0 where
  pub running : Bool
  pub stats : Option (List (Text × ℕ))
  pub rdone : Option (List (Text × ℕ))
  pub rows : List CsvMetric

-- A line for each model, all with the name of the model that was reported last.
abbrev pub rows_of : App → Report → List (Text × ℕ) → List CsvMetric
rows_of app r [] = []
rows_of app r ((k, v) ∷ rates) =
    record {
      batch_id = r.batch_id;
      ops_host = r.ops_host;
      ops_user = r.user;
      ops_model_name = r.model_name;
      n_workers = app.current_workers;
      req_sent = r.request_sent;
      req_complete = r.request_done;
      req_per_sec = v;
    }
    ∷ rows_of app r rates

-- `handleStats`, with the report that the monitor sends, or `none` if none comes within a second.
unfoldable pub handle_stats : Option Report → App → StatsReply
handle_stats none app = record { running = false; stats = none; rdone = none; rows = [] }
handle_stats (some r) app = record {
  running = true;
  stats = some r.request_per_s;
  rdone = some r.request_lag_done;
  rows = elim app.report_file [ none ↦ [] | some file ↦ rows_of app r r.request_per_s ];
}
