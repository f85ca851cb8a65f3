-- ===== src/Server.antt =====
-- The handlers of the server (app/handlers.go) that play and pause a workload. JSON is kept as what
-- it encodes; the input of a model, which the server only passes on, as its text.
pub mod Routes
pub mod Dispatch
pub mod Monitor
pub mod Pool
pub mod FromPage
pub mod ToPage
use workload_simulator.Prelude.{
  ℕ, zero, suc, ℤ, pos, pos_part, Bool, true, false, Option, none, some, List, [], ◌∷◌, ◌++◌,
  if◌then◌else◌, length, ◌==◌,
}
use workload_simulator.Js.Parse.{Text, text_eq}
use workload_simulator.Js.Names
use workload_simulator.Go.{atoi, itoa}

-- An entry of the workload that the page sends.
pub record ModelData : Type 0 where
  pub query : Text
  pub qps : Text

-- What a query encodes.
pub record QueryData : Type 0 where
  pub model : Text
  pub input : Text

-- What the server reads of the settings.
pub record ServerSettings : Type 0 where
  pub ops_host : Text
  pub api_key : Text
  pub user : Text
  pub workers : Text

pub record ModelInput : Type 0 where
  pub name : Text
  pub input : Text
  pub qps : ℤ

-- The work of one worker.
pub record Task : Type 0 where
  pub batch_id : Text
  pub worker_id : ℕ
  pub ops_host : Text
  pub api_key : Text
  pub user : Text
  pub nrequests : ℤ
  pub model_id : Text
  pub model_name : Text
  pub model_input : Text

-- What a handler writes: an answer with its `running`, or an error with its status.
pub data Write : Type 0 where
  body : Bool → Write
  failure : ℕ → Write

-- The server between two requests: how many workers the last play asked for, the report file, if
-- there is one, and all files that are open.
pub record App : Type 0 where
  pub current_workers : ℤ
  pub report_file : Option Text
  pub open_files : List Text

-- The names but one.
abbrev pub without : Text → List Text → List Text
without file [] = []
without file (f ∷ files) =
    let others = without file files in if text_eq file f then others else f ∷ others

-- What a play leaves: the server, what was written, the workers started, and whether the handler
-- stopped with a panic.
pub record Reply : Type 0 where
  pub app : App
  pub writes : List Write
  pub tasks : List Task
  pub panicked : Bool

-- The models that were read, or `none` after a rate that is no number, and what was written.
pub record Reading : Type 0 where
  pub models : Option (List (Text × ModelInput))
  pub writes : List Write

-- `json.Unmarshal` of a query fills what it can, and says whether it failed.
module _ (unmarshal_query : Text → QueryData × Bool) where
  abbrev pub model_input : ModelData → ℤ → ModelInput
  model_input v iqps = record {
    name = (unmarshal_query v.query).0.model;
    input = (unmarshal_query v.query).0.input;
    qps = iqps;
  }

  -- A query that cannot be read is answered, and the loop goes on.
  abbrev pub query_writes : ModelData → List Write
  query_writes v = if (unmarshal_query v.query).1 then body false ∷ [] else []

  -- The loop over the entries, in the order in which it meets them.
  unfoldable pub read_models :
      List (Text × ModelData) → List (Text × ModelInput) → List Write → Reading
  read_models [] wrk writes = record { models = some wrk; writes = writes }
  read_models ((k, v) ∷ work) wrk writes = elim (atoi v.qps) [
    | none ↦ record { models = none; writes = writes ++ query_writes v }
    | some iqps ↦ read_models work (Names.put k (model_input v iqps) wrk) (writes ++ query_writes v)
  ]

abbrev pub task_of : Text → ServerSettings → ℕ → Text → ModelInput → Task
task_of batch_id settings i model_id model = record {
  batch_id = batch_id;
  worker_id = i;
  ops_host = settings.ops_host;
  api_key = settings.api_key;
  user = settings.user;
  nrequests = model.qps;
  model_id = model_id;
  model_name = model.name;
  model_input = model.input;
}

-- The loop that starts workers from number `i` on; `draw i` is what `rand.Intn` gives then. A draw with
-- no model is a nil pointer, and the handler panics.
unfoldable pub spawn :
    (ℕ → ℕ)
    → Text
    → ServerSettings
    → List (Text × ModelInput)
    → ℕ
    → ℕ
    → List Task
    → List Task × Bool
spawn draw batch_id settings wrk zero i tasks = (tasks, false)
spawn draw batch_id settings wrk (suc n) i tasks = elim (Names.find (itoa (draw i)) wrk) [
  | none ↦ (tasks, true)
  | some model ↦
      spawn draw batch_id settings wrk n (suc i)
        (tasks ++ task_of batch_id settings i (itoa (draw i)) model ∷ [])
]

-- The report file of a batch, if it could be made.
unfoldable pub create_file : Text → Bool → App → App
create_file batch_id created app =
    if created
    then record app { report_file = some batch_id; open_files = batch_id ∷ app.open_files }
    else record app { report_file = none }

unfoldable pub start_workers :
    (ℕ → ℕ) → Text → ServerSettings → List (Text × ModelInput) → List Write → App → Reply
start_workers draw batch_id settings [] writes app = record {
  app = app;
  writes = writes ++ failure 500 ∷ [];
  tasks = [];
  panicked = false;
}
start_workers draw batch_id settings (w ∷ wrk) writes app = elim (atoi settings.workers) [
  | none ↦ record { app = app; writes = writes ++ failure 500 ∷ []; tasks = []; panicked = false }
  | some nw ↦
      let (tasks, panicked) = spawn draw batch_id settings (w ∷ wrk) (pos_part nw) 0 [] in
      record {
        app = record app { current_workers = nw };
        writes = if panicked then writes else writes ++ body true ∷ [];
        tasks = tasks;
        panicked = panicked;
      }
]

-- What follows the loop over the entries.
abbrev pub after_reading : (ℕ → ℕ) → ServerSettings → Text → Bool → App → Reading → Reply
after_reading draw settings batch_id created app reading = elim reading.models [
  | none ↦ record { app = app; writes = reading.writes; tasks = []; panicked = false }
  | some wrk ↦
      start_workers draw batch_id settings wrk reading.writes (create_file batch_id created app)
]

-- `handleWorkload`. `work` is `none` where the workload is no JSON; the settings are what could be read
-- of them. A request that is no POST is refused, and then answered as if workers ran.
unfoldable pub handle_workload :
    (Text → QueryData × Bool)
    → (ℕ → ℕ)
    → Bool
    → Option (List (Text × ModelData))
    → ServerSettings
    → Text
    → Bool
    → App
    → Reply
handle_workload unmarshal_query draw false work settings batch_id created app = record {
  app = app;
  writes = failure 501 ∷ body true ∷ [];
  tasks = [];
  panicked = false;
}
handle_workload unmarshal_query draw true none settings batch_id created app = record {
  app = app;
  writes = [];
  tasks = [];
  panicked = false;
}
handle_workload unmarshal_query draw true (some work) settings batch_id created app =
    after_reading draw settings batch_id created app (read_models unmarshal_query work [] [])

-- What `handlePause` does to the report file once its kills are taken.
unfoldable pub close_report : App → App
close_report app = elim app.report_file [
  | none ↦ app
  | some file ↦ record app { report_file = none; open_files = without file app.open_files }
]
