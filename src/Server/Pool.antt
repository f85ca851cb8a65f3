-- ===== src/Server/Pool.antt =====
-- The goroutines of the server: the workers (app/worker.go, `Worker`), the monitor (app/stats.go) and
-- the handlers that kill workers (app/handlers.go, `handlePause` and `handleKill`). The channels have
-- no room, so a send waits for its receiver. Any of them may take the next step; a request to the
-- remote host ends or fails. A `select` takes its default only if no kill and no tick is there; here
-- a worker may take it at any time, which allows all the runs of the program.
pub mod Ends
pub mod Kills
pub mod Names
pub mod Reports
use workload_simulator.Prelude.{
  ℕ, zero, suc, ℤ, pos, pos_part, ◌+◌, ◌-◌, ◌≤◌, Option, none, some, List, [], ◌∷◌, ◌++◌, map, ◌≡◌,
}
use workload_simulator.Js.Parse.{Text}
use workload_simulator.Server.{Task, App}
use workload_simulator.Server.Monitor.{Stat, Monitor, Report, report_of, take_stat}

-- At the `select` or before the loop's test, in a request, or waiting for the monitor.
pub data Phase : Type 0 where
  looping predicting reporting : Phase

-- The rounds that a worker has left, those that it began, and its requests since the last report.
pub record Worker : Type 0 where
  pub workload : Task
  pub left : ℕ
  pub pred_sent : ℕ
  pub pred_count : ℕ
  pub phase : Phase

unfoldable pub new_worker : Task → Worker
new_worker t = record {
  workload = t;
  left = pos_part t.nrequests;
  pred_sent = 0;
  pred_count = 0;
  phase = looping;
}

abbrev pub begin_round : Phase → Worker → Worker
begin_round phase w = record w { left = w.left - 1; pred_sent = w.pred_sent + 1; phase = phase }

-- What the workers share: how many kills each handler of a pause or a kill, in the order in which they
-- came, still has to send before it answers, and the monitor with the report that it waits to send.
pub record Shared : Type 0 where
  pub kills : List ℕ
  pub monitor : Monitor
  pub pending : Option Report

-- A step of one worker: what becomes of it, `none` where its goroutine ends, and of what is shared.
pub data WorkerStep (h : Shared) (w : Worker) : Option Worker → Shared → Type 0 where
  finish : w.phase ≡ looping → w.left ≡ 0 → WorkerStep h w none h
  die :
      (earlier later : List ℕ) (k : ℕ)
      → w.phase ≡ looping
      → 1 ≤ w.left
      → h.kills ≡ earlier ++ suc k ∷ later
      → WorkerStep h w none (record h { kills = earlier ++ k ∷ later })
  tick : w.phase ≡ looping → 1 ≤ w.left → WorkerStep h w (some (begin_round reporting w)) h
  predict : w.phase ≡ looping → 1 ≤ w.left → WorkerStep h w (some (begin_round predicting w)) h
  succeed :
      w.phase ≡ predicting
      → WorkerStep h w (some (record w { pred_count = w.pred_count + 1; phase = looping })) h
  fail : w.phase ≡ predicting → WorkerStep h w none h
  give_stat :
      w.phase ≡ reporting
      → h.pending ≡ none
      → WorkerStep h w (some (record w { pred_count = 0; phase = looping })) (record h {
        monitor =
            take_stat
              (record { workload = w.workload; nreq_sent = w.pred_sent; nreq_done = w.pred_count })
              h.monitor;
      })

pub record Pool : Type 0 where
  pub workers : List Worker
  pub shared : Shared

pub data Label : Type 0 where
  works ticks polls pauses : Label

abbrev pub remains : Option Worker → List Worker
remains none = []
remains (some w) = w ∷ []

-- A step of a worker, of the monitor's ticker, of a poll that takes a report, and of a pause or a kill
-- that begins to send as many kills as the last play asked for workers.
pub data Step (current_workers : ℤ) : Label → Pool → Pool → Type 0 where
  work :
      {h h' : Shared} {w : Worker} {o : Option Worker} (xs ys : List Worker)
      → WorkerStep h w o h'
      → Step current_workers works
          (record { workers = xs ++ w ∷ ys; shared = h })
          (record { workers = xs ++ (remains o ++ ys); shared = h' })
  report :
      {ws : List Worker} {h : Shared}
      → h.pending ≡ none
      → Step current_workers ticks
          (record { workers = ws; shared = h })
          (record { workers = ws; shared = record h { pending = some (report_of h.monitor) } })
  poll :
      {ws : List Worker} {h : Shared} {r : Report}
      → h.pending ≡ some r
      → Step current_workers polls
          (record { workers = ws; shared = h })
          (record { workers = ws; shared = record h { pending = none } })
  ask :
      {ws : List Worker} {h : Shared}
      → Step current_workers pauses
          (record { workers = ws; shared = h })
          (record {
            workers = ws;
            shared = record h { kills = h.kills ++ pos_part current_workers ∷ [] };
          })

-- The steps between two plays, with their labels in order.
pub data Run (current_workers : ℤ) : List Label → Pool → Pool → Type 0 where
  stop : {p : Pool} → Run current_workers [] p p
  next :
      {l : Label} {ls : List Label} {p q r : Pool}
      → Step current_workers l p q
      → Run current_workers ls q r
      → Run current_workers (l ∷ ls) p r

-- A play adds a worker for each task.
unfoldable pub start : List Task → Pool → Pool
start tasks p = record p { workers = p.workers ++ map new_worker tasks }

-- Any number of plays, each with the count of its workers, and what happens after each.
pub data History : Pool → Pool → Type 0 where
  rest : {p : Pool} → History p p
  goes_on :
      {current_workers : ℤ} {ls : List Label} {p q r : Pool}
      → Run current_workers ls p q
      → History q r
      → History p r
  plays : {p q : Pool} (tasks : List Task) → History (start tasks p) q → History p q
