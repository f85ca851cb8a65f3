-- ===== src/Server/Pool/Names.antt =====
-- The models that the server reports are those of its workers.
use mathlib.Core.Path.{subst}
use mathlib.Core.Option.{some-injective}
use workload_simulator.Prelude.{
  ℤ, ◌≡◌, Option, some, List, [], ◌∷◌, ◌++◌, All, All-append, All-middle,
}
use workload_simulator.Js.Parse.{Text}
use workload_simulator.Js.Names.Laws.{All-put}
use workload_simulator.Server.Monitor.{Report, report_of, take_stat}
use workload_simulator.Server.Pool.{
  Worker, Shared, WorkerStep, finish, die, tick, predict, succeed, fail, give_stat, Pool, Label,
  remains, Step, work, report, poll, ask, Run, stop, next,
}

-- What becomes of one worker, with the others as they were.
All-replace :
    (P : Worker → Type 0) (xs : List Worker) (w : Worker) (os ys : List Worker)
    → (P w → All P os)
    → All P (xs ++ w ∷ ys)
    → All P (xs ++ (os ++ ys))
All-replace P [] w os ys h a = All-append P os ys (h a.0) a.1
All-replace P (x ∷ xs) w os ys h a = (a.0, All-replace P xs w os ys h a.1)

module _ (P : Text → Type 0) where
  -- The workers have models for which `P` holds.
  abbrev pub HasName : Worker → Type 0
  HasName w = P w.workload.model_id

  -- So have the rates of the monitor, and of the report that it waits to send.
  pub record IsNamed (p : Pool) : Type 0 where
    pub workers : All HasName p.workers
    pub rates : All (λ t. P t.0) p.shared.monitor.request_per_sec
    pub waiting : (r : Report) → p.shared.pending ≡ some r → All (λ t. P t.0) r.request_per_s

  remains-HasName :
      {h : Shared} {w : Worker} {o : Option Worker} {h' : Shared}
      → WorkerStep h w o h'
      → HasName w
      → All HasName (remains o)
  remains-HasName (finish at_loop end) n = tt
  remains-HasName (die earlier later k at_loop more asked) n = tt
  remains-HasName (tick at_loop more) n = (n, tt)
  remains-HasName (predict at_loop more) n = (n, tt)
  remains-HasName (succeed busy) n = (n, tt)
  remains-HasName (fail busy) n = tt
  remains-HasName (give_stat waits free) n = (n, tt)

  record Shares (h : Shared) : Type 0 where
    rates : All (λ t. P t.0) h.monitor.request_per_sec
    waiting : (r : Report) → h.pending ≡ some r → All (λ t. P t.0) r.request_per_s

  WorkerStep-Shares :
      {h : Shared} {w : Worker} {o : Option Worker} {h' : Shared}
      → WorkerStep h w o h'
      → HasName w
      → Shares h
      → Shares h'
  unfolding take_stat
  WorkerStep-Shares (finish at_loop end) n s = s
  WorkerStep-Shares (die earlier later k at_loop more asked) n s = record {
    rates = s.rates;
    waiting = s.waiting;
  }
  WorkerStep-Shares (tick at_loop more) n s = s
  WorkerStep-Shares (predict at_loop more) n s = s
  WorkerStep-Shares (succeed busy) n s = s
  WorkerStep-Shares (fail busy) n s = s
  WorkerStep-Shares {h = h} {w = w} (give_stat waits free) n s = record {
    rates = All-put (λ t. P t.0) w.workload.model_id _ h.monitor.request_per_sec n s.rates;
    waiting = s.waiting;
  }

  module _ {current_workers : ℤ} where
    Step-IsNamed : {l : Label} {p q : Pool} → Step current_workers l p q → IsNamed p → IsNamed q
    Step-IsNamed (work {w = w} {o = o} xs ys s) n =
        let shares =
          WorkerStep-Shares s (All-middle HasName xs w ys n.workers)
            (record { rates = n.rates; waiting = n.waiting }) in
        record {
          workers = All-replace HasName xs w (remains o) ys (remains-HasName s) n.workers;
          rates = shares.rates;
          waiting = shares.waiting;
        }
    Step-IsNamed (report {h = h} free) n = record {
      workers = n.workers;
      rates = n.rates;
      waiting = λ r e.
          subst (λ (x : Report). All (λ t. P t.0) x.request_per_s)
            (some-injective (report_of h.monitor) r e) n.rates;
    }
    Step-IsNamed (poll waits) n = record {
      workers = n.workers;
      rates = n.rates;
      waiting = λ r e. cc;
    }
    Step-IsNamed ask n = record { workers = n.workers; rates = n.rates; waiting = n.waiting }

    pub Run-IsNamed :
        {ls : List Label} {p q : Pool} → Run current_workers ls p q → IsNamed p → IsNamed q
    Run-IsNamed stop n = n
    Run-IsNamed (next s run) n = Run-IsNamed run (Step-IsNamed s n)
