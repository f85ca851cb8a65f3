-- ===== src/Tests/Polled.antt =====
-- Polls of a page while workers of the server play its workload.
use mathlib.Core.List.Permᴰ
use workload_simulator.Prelude.{Bool, false, pos, eq_ℤ, ◌+◌, ◌≡◌, refl, none, some, [], ◌∷◌, arith}
use workload_simulator.Js.{Scalar, num, str, eq_num, to_num, floor}
use workload_simulator.Js.Parse.{Text, int, codes, show, show_ℕ, parse_int, text_eq}
use workload_simulator.Js.Index.{find, put}
use workload_simulator.Js.Names
use workload_simulator.Go.{itoa}
use workload_simulator.Dial.{replace_dial, set_dial_value}
use workload_simulator.Widget.{initialize, with_editor}
use workload_simulator.Registry.{Registry, empty, update, new_widget}
use workload_simulator.Registry.Actions.{
  add, type_query, show_rate, type_text, run, run-empty-IsValid,
}
use workload_simulator.Workload.{get_workload, collect, add_sent}
use workload_simulator.Page.{Page}
use workload_simulator.Graph.{record_point}
use workload_simulator.Alerts.{done, threw}
use workload_simulator.Player.{on_workload_receive}
use workload_simulator.Player.Polling.{loops}
use workload_simulator.Server.{QueryData, Task, App}
use workload_simulator.Server.FromPage.{IsAsked}
use workload_simulator.Server.Monitor.{Monitor, initial, report_of, take_stat, handle_stats}
use workload_simulator.Server.Pool.{
  Worker, Pool, Shared, next, stop, work, report, predict, succeed, tick, give_stat, new_worker,
  start, History, rest, goes_on, plays, looping, works, ticks, Run,
}
use workload_simulator.Server.Pool.Reports.{HasRate}
use workload_simulator.Server.ToPage.{received, first_play, on_workload_receive-handle_stats}
use workload_simulator.Server.ToPage.Stale.{on_workload_receive-History}
use workload_simulator.Tests.Playing.{playing}

abbrev plain_knob : Scalar → Text → Text
plain_knob limit text = text

abbrev limit : Scalar
limit = num (int (pos 10000))

abbrev reader : Text → QueryData × Bool
reader text = (record { model = text; input = [] }, false)

-- One widget with a query and the rate 5.
abbrev asking : Registry
asking =
    run plain_knob limit (add ∷ type_query 0 (codes "a") ∷ show_rate 0 (num (int (pos 5))) ∷ [])
      empty

abbrev task : Task
task = record {
  batch_id = codes "7";
  worker_id = 0;
  ops_host = [];
  api_key = [];
  user = [];
  nrequests = pos 5;
  model_id = codes "0";
  model_name = codes "a";
  model_input = [];
}

asked : IsAsked reader asking (codes "0", record { name = codes "a"; input = []; qps = pos 5 })
unfolding get_workload collect add_sent update find new_widget put initialize type_text with_editor
    replace_dial set_dial_value eq_num to_num floor parse_int show eq_ℤ text_eq
asked = record {
  id = 0;
  entry = record { query = codes "a"; qps = str (codes "5") };
  sent = refl;
  filed = refl;
  query = (refl, refl);
  rate = 5;
  shown = refl;
  taken = refl;
}

-- The monitor after the worker has done one of its requests.
abbrev counted : Monitor
counted = take_stat (record { workload = task; nreq_sent = 2; nreq_done = 1 }) initial

abbrev idle : Shared
idle = record { kills = []; monitor = initial; pending = none }

abbrev worker_after : Worker
worker_after = record (new_worker task) { left = 3; pred_sent = 2; pred_count = 0; phase = looping }

abbrev polled : Pool
polled = record {
  workers = worker_after ∷ [];
  shared = record { kills = []; monitor = counted; pending = some (report_of counted) };
}

played : Run (pos 1) (works ∷ works ∷ works ∷ works ∷ ticks ∷ []) (first_play (task ∷ [])) polled
unfolding start new_worker
played = next (work [] [] (predict refl (omega arith))) (
    next (work [] [] (succeed refl)) (
      next (work [] [] (tick refl (omega arith)))
        (next (work [] [] (give_stat refl refl)) (next (report refl) stop))))

abbrev app : App
app = record { current_workers = pos 1; report_file = none; open_files = [] }

-- The page that asked plays, with one poll under way.
abbrev asking_page : Page
asking_page = record playing { registry = asking }

on_workload_receive-handle_stats_example :
    (s : Page) × (on_workload_receive plain_knob
        (received (some (report_of counted)) app ((0, 2) ∷ []) ((0, 1) ∷ []))
        asking_page
      ≡ done s)
    × (loops s ≡ loops asking_page)
    × (s.player.qps_points ≡ record_point false (int (pos (2 + 0))) [])
unfolding handle_stats take_stat Names.put find new_widget put show_ℕ
on_workload_receive-handle_stats_example =
    on_workload_receive-handle_stats plain_knob reader asking (task ∷ []) (pos 1)
      (works ∷ works ∷ works ∷ works ∷ ticks ∷ []) polled (report_of counted) app ((0, 2) ∷ [])
      ((0, 1) ∷ []) asking_page
      (run-empty-IsValid plain_knob limit
        (add ∷ type_query 0 (codes "a") ∷ show_rate 0 (num (int (pos 5))) ∷ []))
      (asked, tt) played refl (Permᴰ.refl _) (λ i there. there) refl (omega arith)

-- The widget was closed, and another play began, of a model that was not reported yet.
abbrev other_page : Page
other_page = record playing { registry = empty }

abbrev other_task : Task
other_task = record task { model_id = codes "1" }

abbrev before : Pool
before = record { workers = []; shared = record { kills = []; monitor = counted; pending = none } }

abbrev after : Pool
after = record {
  workers = new_worker other_task ∷ [];
  shared = record { kills = []; monitor = counted; pending = some (report_of counted) };
}

before-HasRate : HasRate (itoa 0) before.shared
unfolding take_stat Names.put Names.find text_eq show_ℕ
before-HasRate = record { known = λ e. absurd (ground arith); waiting = λ r w. cc }

replayed : History before after
unfolding start
replayed =
    plays (other_task ∷ []) (goes_on {current_workers = pos 1} (next (report refl) stop) rest)

on_workload_receive-History_example :
    (s : Page) × (on_workload_receive plain_knob
        (received (some (report_of counted)) app ((0, 2) ∷ []) ((0, 1) ∷ []))
        other_page
      ≡ threw s)
    × (loops s + 1 ≡ loops other_page)
unfolding handle_stats take_stat Names.put Names.find find text_eq show_ℕ
on_workload_receive-History_example =
    on_workload_receive-History plain_knob 0 (report_of counted) app ((0, 2) ∷ []) ((0, 1) ∷ [])
      other_page before-HasRate replayed refl (Permᴰ.refl _) refl refl (omega arith)
