-- ===== src/Service/Sound.antt =====
-- What every request leaves true of the globals of the earlier server.
use mathlib.Core.Path.{subst}
use workload_simulator.Prelude.{
  ℕ, ◌≡◌, ◌≢◌, refl, Bool, true, false, Option, none, some, List, [], ◌∷◌, Bool-cases, inl, inr,
  arith,
}
use workload_simulator.Js.Parse.{Text}
use workload_simulator.QueryTable.{QueryObject, Globals}
use workload_simulator.Service.Act.{Act, done, crash, reads, ◌>>=◌}
use workload_simulator.Service.Act.Keeps.{
  Keeps, Keeps-done, Keeps-throw, Keeps-crash, Keeps-reads, Keeps-if, Keeps-option, Keeps-bind,
  keeps_rules,
}
use workload_simulator.Service.State.{Settings, Server, WorkerPool, set_settings, no_settings}
use workload_simulator.Service.Workers.{
  all, pause_pool, clear, is_alive, send_workload, worker_pool,
}
use workload_simulator.Service.Requests
use workload_simulator.Service.Validation.{Keeps-check_connection_settings, Keeps-validate_workload}

-- A paused pool carries out nothing, and one that is not paused what was sent to it last.
pub record IsPool (p : WorkerPool) : Type 0 where
  pub halted : p.paused ≡ true → p.running ≡ none
  pub playing : p.paused ≡ false → (p.running ≡ p.workload) × (p.workload ≢ none)

-- The pool is in order, and there is none before a workload was read.
abbrev pub Matches : Option WorkerPool → Option (List QueryObject) → Type 0
Matches none workload = Unit
Matches (some p) workload = IsPool p × (workload ≢ none)

pub record IsSound (read : Bool) (s : Server) : Type 0 where
  pub matches : Matches s.g_workers s.g_workload
  pub loaded : read ≡ true → s.g_workload ≢ none

pause_pool-IsPool : (synced : List Bool) (p : WorkerPool) → IsPool (pause_pool synced p).1
unfolding pause_pool
pause_pool-IsPool synced p = record { halted = λ e. refl; playing = λ e. cc }

pub clear-IsPool : (p : WorkerPool) → IsPool (clear p)
unfolding clear
clear-IsPool p = pause_pool-IsPool [] p

is_alive-IsPool : (alive : List Bool) (p : WorkerPool) → IsPool p → IsPool (is_alive alive p).1
unfolding is_alive
is_alive-IsPool alive p ok = elim (Bool-cases (all alive)) [
  | inl lives ↦ rw lives ok
  | inr dead ↦ rw dead (clear-IsPool p)
]

send_workload-IsPool : (w : List QueryObject) (p : WorkerPool) → IsPool (send_workload w p)
unfolding send_workload
send_workload-IsPool w p = record { halted = λ e. cc; playing = λ e. (refl, λ gone. cc) }

-- A new pool is paused and has the settings that it was made with.
pub worker_pool_lem :
    (t : Settings) (p : WorkerPool)
    → worker_pool t ≡ some p
    → (p.paused ≡ true) × (p.running ≡ none) × (p.settings_dict ≡ t)
unfolding worker_pool
worker_pool_lem t p e = ground arith

worker_pool-IsPool : (t : Settings) (p : WorkerPool) → worker_pool t ≡ some p → IsPool p
worker_pool-IsPool t p e =
    let (paused, stopped, _) = worker_pool_lem t p e in
    record { halted = λ _. stopped; playing = λ runs. cc }

Matches-some :
    (o : Option WorkerPool) (before : Option (List QueryObject)) (workload : List QueryObject)
    → Matches o before
    → Matches o (some workload)
Matches-some none before workload m = tt
Matches-some (some p) before workload (ok, _) = (ok, λ gone. cc)

-- Whether a workload has been read
module _ {read : Bool} where
  -- A pool that is put in the place of another.
  pub replaced :
      (s : Server) (p q : WorkerPool)
      → s.g_workers ≡ some p
      → IsPool q
      → IsSound read s
      → IsSound read (record s { g_workers = some q })
  replaced s p q e ok h = record {
    matches = (ok, (subst (λ o. Matches o s.g_workload) e h.matches).1);
    loaded = h.loaded;
  }

  g_workers-IsPool :
      (s : Server) (p : WorkerPool) → s.g_workers ≡ some p → IsSound read s → IsPool p
  g_workers-IsPool s p e h = (subst (λ o. Matches o s.g_workload) e h.matches).0

  -- The code reads the pool and goes on with it, or does something else if there is none.
  module _ {A : Type 0} (n : Act Server A) (f : WorkerPool → Act Server A) where
    at_pool :
        (s : Server) (o : Option WorkerPool)
        → s.g_workers ≡ o
        → Keeps (IsSound read) n
        → ((p : WorkerPool) → s.g_workers ≡ some p → IsSound read (f p s).1)
        → IsSound read s
        → IsSound read ((elim o as (λ _. Act Server A) [ none ↦ n | some p ↦ f p ]) s).1
    at_pool s none e k l h = k.kept s h
    at_pool s (some p) e k l h = l p e

    pub Keeps-pool :
        Keeps (IsSound read) n
        → ((s : Server) (p : WorkerPool)
            → s.g_workers ≡ some p
            → IsSound read s
            → IsSound read (f p s).1)
        → Keeps
            (IsSound read)
            (reads (λ (s : Server). s.g_workers) >>= λ o. elim o [ none ↦ n | some p ↦ f p ])
    unfolding ◌>>=◌ reads
    Keeps-pool k l = record { kept = λ s h. at_pool s s.g_workers refl k (λ p e. l s p e h) h }

  Keeps-workers_alive : (alive : List Bool) → Keeps (IsSound read) (Requests.workers_alive alive)
  unfolding Requests.workers_alive ◌>>=◌ done
  Keeps-workers_alive alive =
      Keeps-pool crash _ (search keeps_rules)
        (λ s p e h. replaced s p _ e (is_alive-IsPool alive p (g_workers-IsPool s p e h)) h)

  pub Keeps-check_workers :
      (w : Requests.World) (alive : List Bool)
      → Keeps (IsSound read) (Requests.check_workers w alive)
  unfolding Requests.check_workers
  Keeps-check_workers w alive =
      search (keeps_rules, Keeps-workers_alive, Keeps-check_connection_settings)

  -- Settings, counters and the numbers of the queries are not what the invariant is about.
  Keeps-set_globals : (g : Globals) → Keeps (IsSound read) (Requests.set_globals g)
  Keeps-set_globals g = record { kept = λ s h. record { matches = h.matches; loaded = h.loaded } }

  Keeps-put_settings : (t : Settings) → Keeps (IsSound read) (Requests.put_settings t)
  Keeps-put_settings t = record { kept = λ s h. record { matches = h.matches; loaded = h.loaded } }

  pub Keeps-count_check : Keeps (IsSound read) Requests.count_check
  Keeps-count_check = record { kept = λ s h. record { matches = h.matches; loaded = h.loaded } }

  pub Keeps-set_workload :
      (workload : List QueryObject) → Keeps (IsSound read) (Requests.set_workload workload)
  Keeps-set_workload workload = record {
    kept = λ s h. record {
      matches = Matches-some s.g_workers s.g_workload workload h.matches;
      loaded = λ _ gone. cc;
    };
  }

  pub Keeps-read_entries :
      (entries : List Requests.Entry) (workload : List QueryObject)
      → Keeps (IsSound read) (Requests.read_entries workload entries)
  unfolding Requests.read_entries
  Keeps-read_entries [] workload = search keeps_rules
  Keeps-read_entries (e ∷ entries) workload = Keeps-option e.qps crash _ Keeps-crash (λ qps _.
      Keeps-option e.query_id crash _ Keeps-crash (λ id _.
        Keeps-bind (Requests.set_workload _) _ (Keeps-set_workload _)
          (λ _. Keeps-read_entries entries _)))

  pub Keeps-pause_workers :
      (synced : List Bool) → Keeps (IsSound read) (Requests.pause_workers synced)
  unfolding Requests.pause_workers ◌>>=◌ done
  Keeps-pause_workers synced =
      Keeps-pool crash _ (search keeps_rules)
        (λ s p e h. replaced s p _ e (pause_pool-IsPool synced p) h)

  Keeps-send : (workload : List QueryObject) → Keeps (IsSound read) (Requests.send workload)
  unfolding Requests.send
  Keeps-send workload =
      Keeps-pool crash _ (search keeps_rules)
        (λ s p e h. replaced s p _ e (send_workload-IsPool workload p) h)

-- With a workload read, there may be a new pool.
Keeps-set_workers : (p : WorkerPool) → IsPool p → Keeps (IsSound true) (Requests.set_workers p)
Keeps-set_workers p ok = record {
  kept = λ s h. record { matches = (ok, h.loaded refl); loaded = h.loaded };
}

clear-Matches :
    (o : Option WorkerPool) (w : Option (List QueryObject))
    → Matches o w
    → Matches (elim o [ none ↦ none | some p ↦ some (clear p) ]) w
clear-Matches none w m = tt
clear-Matches (some p) w (ok, l) = (clear-IsPool p, l)

Keeps-clear_workers : Keeps (IsSound true) Requests.clear_workers
Keeps-clear_workers = record {
  kept = λ s h. record {
    matches = clear-Matches s.g_workers s.g_workload h.matches;
    loaded = h.loaded;
  };
}

Keeps-reset_workers : Keeps (IsSound true) Requests.reset_workers
unfolding Requests.reset_workers
Keeps-reset_workers = Keeps-bind Requests.clear_workers _ Keeps-clear_workers (λ _.
    Keeps-bind (reads _) _ (Keeps-reads _) (λ t.
      Keeps-option (worker_pool t) crash _ Keeps-crash
        (λ p e. Keeps-set_workers p (worker_pool-IsPool t p e))))

Keeps-ensure_workers : (w : Requests.World) → Keeps (IsSound true) (Requests.ensure_workers w)
unfolding Requests.ensure_workers
Keeps-ensure_workers w = Keeps-pool Requests.reset_workers _ Keeps-reset_workers (λ s p e h.
    (Keeps-bind (Requests.workers_alive w.alive) _ (Keeps-workers_alive w.alive) (λ b.
        Keeps-bind (reads _) _ (Keeps-reads _) (λ t.
          Keeps-if _ (done tt) Requests.reset_workers (Keeps-done tt) Keeps-reset_workers))).kept
      s h)

Keeps-read_settings :
    {read : Bool} (is_str : Text → Bool) (d : List (Text × Text))
    → Keeps (IsSound read) (Requests.read_settings is_str d)
unfolding Requests.read_settings
Keeps-read_settings is_str d =
    Keeps-option (set_settings is_str d no_settings) _ _ (Keeps-throw _)
      (λ t _. Keeps-put_settings t)

pub Keeps-play_workload :
    (is_str : Text → Bool) (randint : ℕ → ℕ) (clock : ℕ → Text) (r : Requests.Request)
    (w : Requests.World) (workload : List QueryObject)
    → Keeps (IsSound true) (Requests.play_workload is_str randint clock r w workload)
unfolding Requests.play_workload
Keeps-play_workload is_str randint clock r w [] = search keeps_rules
Keeps-play_workload is_str randint clock r w (q ∷ workload) =
    search
      (
        keeps_rules,
        Keeps-read_settings,
        Keeps-ensure_workers,
        Keeps-check_workers,
        Keeps-validate_workload Keeps-set_globals,
        Keeps-pause_workers,
        Keeps-send,
      )
      depth 20
