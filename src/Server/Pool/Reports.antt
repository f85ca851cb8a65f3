-- ===== src/Server/Pool/Reports.antt =====
-- A model that was reported once stays in the reports.
use mathlib.Core.Path.{subst}
use mathlib.Core.Option.{some-injective}
use workload_simulator.Prelude.{ℤ, ◌≡◌, ◌≢◌, Option, none, some, List}
use workload_simulator.Js.Parse.{Text}
use workload_simulator.Js.Names
use workload_simulator.Js.Names.Laws.{find-put-none}
use workload_simulator.Server.Monitor.{Report, report_of, take_stat}
use workload_simulator.Server.Pool.{
  Worker, Shared, WorkerStep, finish, die, tick, predict, succeed, fail, give_stat, Pool, Label,
  Step, work, report, poll, ask, Run, stop, next, start, History, rest, goes_on, plays,
}

module _ (k : Text) where
  -- The monitor has a rate for the model `k`, and so has the report that waits.
  pub record HasRate (h : Shared) : Type 0 where
    pub known : Names.find k h.monitor.request_per_sec ≢ none
    pub waiting : (r : Report) → h.pending ≡ some r → Names.find k r.request_per_s ≢ none

  WorkerStep-HasRate :
      {h : Shared} {w : Worker} {o : Option Worker} {h' : Shared}
      → WorkerStep h w o h'
      → HasRate h
      → HasRate h'
  unfolding take_stat
  WorkerStep-HasRate (finish at_loop end) n = n
  WorkerStep-HasRate (die earlier later k at_loop more asked) n = record {
    known = n.known;
    waiting = n.waiting;
  }
  WorkerStep-HasRate (tick at_loop more) n = n
  WorkerStep-HasRate (predict at_loop more) n = n
  WorkerStep-HasRate (succeed busy) n = n
  WorkerStep-HasRate (fail busy) n = n
  WorkerStep-HasRate {h = h} {w = w} (give_stat waits free) n = record {
    known =
        λ gone. n.known (find-put-none k w.workload.model_id _ h.monitor.request_per_sec gone).1;
    waiting = n.waiting;
  }

  module _ {current_workers : ℤ} where
    Step-HasRate :
        {l : Label} {p q : Pool} → Step current_workers l p q → HasRate p.shared → HasRate q.shared
    Step-HasRate (work xs ys s) n = WorkerStep-HasRate s n
    Step-HasRate (report {h = h} free) n = record {
      known = n.known;
      waiting = λ r e.
          subst (λ (x : Report). Names.find k x.request_per_s ≢ none)
            (some-injective (report_of h.monitor) r e) n.known;
    }
    Step-HasRate (poll waits) n = record { known = n.known; waiting = λ r e. cc }
    Step-HasRate ask n = record { known = n.known; waiting = n.waiting }

    Run-HasRate :
        {ls : List Label} {p q : Pool}
        → Run current_workers ls p q
        → HasRate p.shared
        → HasRate q.shared
    Run-HasRate stop n = n
    Run-HasRate (next s run) n = Run-HasRate run (Step-HasRate s n)

  pub History-HasRate : {p q : Pool} → History p q → HasRate p.shared → HasRate q.shared
  unfolding start
  History-HasRate rest n = n
  History-HasRate (goes_on run h) n = History-HasRate h (Run-HasRate run n)
  History-HasRate (plays tasks h) n = History-HasRate h n
