-- ===== src/Tests/Serving.antt =====
-- The server at concrete inputs, with workloads that a page sends.
use mathlib.Core.List.Permᴰ
use workload_simulator.Prelude.{
  ℕ, pos, eq_ℤ, ◌+◌, ◌*◌, ◌%◌, ◌≤◌, ◌≡◌, pos_part, ◌++◌, refl, none, some, Bool, true, false, List,
  [], ◌∷◌, arith, All, length,
}
use workload_simulator.Js.{Scalar, num, eq_num, to_num, floor}
use workload_simulator.Js.Parse.{Text, int, codes, show, parse_int, text_eq}
use workload_simulator.Js.Index.{find, put, remove}
use workload_simulator.Js.Names
use workload_simulator.Go.{atoi, unsigned, digits}
use workload_simulator.Dial.{replace_dial}
use workload_simulator.Widget.{initialize, with_editor}
use workload_simulator.Registry.{Registry, empty, close, update, new_widget, delete_widget}
use workload_simulator.Registry.Actions.{
  Action, add, press_close, type_query, type_text, run, run-empty-IsValid,
}
use workload_simulator.Workload.{get_workload, collect, add_sent}
use workload_simulator.Workload.RoundTrip.{values, InRange, in_range}
use workload_simulator.Server.{
  QueryData, ServerSettings, Task, App, body, create_file, handle_workload,
}
use workload_simulator.Server.Dispatch.{IsTaskOf}
use workload_simulator.Server.Monitor.{
  Stat, StatsReply, initial, report_of, take_stat, handle_stats,
}
use workload_simulator.Server.Monitor.Totals.{entries, take_all, total_done, handle_stats-take_stat}
use workload_simulator.Server.Pool.{
  Worker, Shared, next, stop, work, ask, predict, fail, new_worker, begin_round, reporting, works,
  pauses, start,
}
use workload_simulator.Server.Pool.Ends.{worked, steps_left, rounds_of, GoesOn, Run-start_bound}
use workload_simulator.Server.Pool.Kills.{owed, Run-unanswered, Run-blocked}
use workload_simulator.Server.FromPage.{
  wire, IsAsked, handle_workload-get_workload, handle_workload-gap,
}

abbrev plain_knob : Scalar → Text → Text
plain_knob limit text = text

abbrev limit : Scalar
limit = num (int (pos 10000))

-- A reader that takes a whole query for the name of a model.
abbrev reader : Text → QueryData × Bool
reader text = (record { model = text; input = [] }, false)

abbrev three_workers : ServerSettings
three_workers = record { ops_host = []; api_key = []; user = []; workers = codes "3" }

abbrev fresh : App
fresh = record { current_workers = pos 0; report_file = none; open_files = [] }

-- Two widgets with a query each.
abbrev both : List Action
both = add ∷ add ∷ type_query 0 (codes "a") ∷ type_query 1 (codes "b") ∷ []

abbrev full_page : Registry
full_page = run plain_knob limit both empty

abbrev in_turn : ℕ → ℕ
in_turn i = i % 2

full_page-InRange : All (InRange 10000) (values (get_workload full_page))
unfolding get_workload collect add_sent update find close new_widget put delete_widget remove
    initialize type_text with_editor replace_dial eq_num to_num floor parse_int show eq_ℤ text_eq
full_page-InRange = (in_range 0 (omega arith) refl, (in_range 0 (omega arith) refl, tt))

handle_workload-get_workload_example :
    (started : List Task) × (handle_workload reader in_turn true
        (some (wire (get_workload full_page)))
        three_workers
        (codes "7")
        true
        fresh
      ≡ record {
        app = record (create_file (codes "7") true fresh) { current_workers = pos 3 };
        writes = body true ∷ [];
        tasks = started;
        panicked = false;
      })
    × (length started ≡ 3)
    × All (IsTaskOf reader (IsAsked reader full_page)) started
unfolding get_workload collect add_sent update find close new_widget put delete_widget remove
    initialize type_text with_editor replace_dial eq_num to_num floor parse_int show eq_ℤ text_eq
    atoi unsigned digits
handle_workload-get_workload_example =
    handle_workload-get_workload reader in_turn full_page (wire (get_workload full_page))
      three_workers 3 10000 (omega arith) (Permᴰ.refl _) full_page-InRange (refl, (refl, tt)) refl
      (codes "7") true fresh (run-empty-IsValid plain_knob limit both) refl (λ i. omega arith)

-- Three widgets, the middle one closed, and only the last one with a query.
abbrev gappy_page : Registry
gappy_page =
    run plain_knob limit (add ∷ add ∷ add ∷ press_close 1 ∷ type_query 2 (codes "c") ∷ []) empty

gappy_page-InRange : All (InRange 10000) (values (get_workload gappy_page))
unfolding get_workload collect add_sent update find close new_widget put delete_widget remove
    initialize type_text with_editor replace_dial eq_num to_num floor parse_int show eq_ℤ text_eq
gappy_page-InRange = (in_range 0 (omega arith) refl, tt)

handle_workload-gap_example :
    handle_workload reader
      (λ i. 0)
      true
      (some (wire (get_workload gappy_page)))
      three_workers
      (codes "7")
      true
      fresh
    ≡ record {
      app = record (create_file (codes "7") true fresh) { current_workers = pos 3 };
      writes = [];
      tasks = [];
      panicked = true;
    }
unfolding get_workload collect add_sent update find close new_widget put delete_widget remove
    initialize type_text with_editor replace_dial eq_num to_num floor parse_int show eq_ℤ text_eq
    atoi unsigned digits
handle_workload-gap_example =
    handle_workload-gap reader (λ i. 0) gappy_page (wire (get_workload gappy_page)) three_workers 3
      10000 (omega arith) (Permᴰ.refl _) gappy_page-InRange (refl, tt) refl (codes "7") true fresh
      (omega arith) (omega arith) refl

-- A worker with five requests to make for the model "0".
abbrev task : Task
task = record {
  batch_id = codes "7";
  worker_id = 0;
  ops_host = [];
  api_key = [];
  user = [];
  nrequests = pos 5;
  model_id = codes "0";
  model_name = codes "a";
  model_input = [];
}

abbrev reported : List Stat
reported = record { workload = task; nreq_sent = 3; nreq_done = 2 } ∷ []

abbrev other_stat : Stat
other_stat = record {
  workload = record task { model_id = codes "1" };
  nreq_sent = 4;
  nreq_done = 3;
}

handle_stats-take_stat_example :
    let reply : StatsReply =
      handle_stats (some (report_of (take_stat other_stat (take_all reported initial)))) fresh in
    (Names.find (codes "1") (entries reply.stats) ≡ some (2 * 3))
    × (Names.find (codes "1") (entries reply.rdone) ≡ some (0 + total_done reported + 3))
handle_stats-take_stat_example = handle_stats-take_stat reported other_stat initial fresh

abbrev idle_monitor : Shared
idle_monitor = record { kills = []; monitor = initial; pending = none }

-- A worker begins a request and fails.
Run-start_bound_example :
    (worked (works ∷ works ∷ []) + steps_left [] ≤ rounds_of (task ∷ []))
    × GoesOn (pos 1) (record { workers = []; shared = idle_monitor })
unfolding start new_worker
Run-start_bound_example =
    Run-start_bound (pos 1) (task ∷ []) idle_monitor (works ∷ works ∷ [])
      (record { workers = []; shared = idle_monitor })
      (next (work [] [] (predict refl (omega arith))) (next (work [] [] (fail refl)) stop))

Run-unanswered_example : 1 ≤ owed 0 (pos_part (pos 1) ∷ [])
Run-unanswered_example =
    Run-unanswered 1 [] idle_monitor []
      (record { workers = []; shared = record idle_monitor { kills = pos_part (pos 1) ∷ [] } })
      (omega arith) (next ask stop)

-- A worker that waits for the monitor.
abbrev waiting_worker : Worker
waiting_worker = begin_round reporting (new_worker task)

abbrev full_monitor : Shared
full_monitor = record idle_monitor { pending = some (report_of initial) }

Run-blocked_example :
    (more : List ℕ) × (waiting_worker ∷ [] ≡ waiting_worker ∷ [])
    × (pos_part (pos 1) ∷ [] ≡ [] ++ more)
Run-blocked_example =
    Run-blocked (pos 1) (waiting_worker ∷ []) full_monitor (report_of initial) (pauses ∷ [])
      (record {
        workers = waiting_worker ∷ [];
        shared = record full_monitor { kills = pos_part (pos 1) ∷ [] };
      })
      (refl, tt) refl ((λ e. cc), tt) (next ask stop)
