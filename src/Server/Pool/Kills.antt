-- ===== src/Server/Pool/Kills.antt =====
-- Kills that no worker takes.
use mathlib.Core.Path.{subst}
use workload_simulator.Prelude.{
  ℕ, zero, suc, ℤ, pos, pos_part, ◌+◌, ◌≤◌, ◌<◌, ◌≡◌, ◌≢◌, refl, sym, Option, some, List, [], ◌∷◌,
  ◌++◌, arith, length, length-append, All, All-middle, ap, ◌∙◌, append_assoc, append-nil,
}
use workload_simulator.Server.Monitor.{Report}
use workload_simulator.Server.Pool.{
  reporting, Worker, Shared, WorkerStep, finish, die, tick, predict, succeed, fail, give_stat, Pool,
  Label, polls, pauses, remains, Step, work, report, poll, ask, Run, stop, next,
}

-- The kills that the handler at a place still has to send; it answers when none is left.
abbrev pub owed : ℕ → List ℕ → ℕ
owed i [] = 0
owed zero (k ∷ ks) = k
owed (suc i) (k ∷ ks) = owed i ks

owed-taken :
    (i k : ℕ) (earlier later : List ℕ)
    → owed i (earlier ++ suc k ∷ later) ≤ owed i (earlier ++ k ∷ later) + 1
owed-taken zero k [] later = omega arith
owed-taken (suc i) k [] later = omega arith
owed-taken zero k (e ∷ earlier) later = omega arith
owed-taken (suc i) k (e ∷ earlier) later = owed-taken i k earlier later

owed-append : (i n : ℕ) (ks : List ℕ) → owed i ks ≤ owed i (ks ++ n ∷ [])
owed-append i n [] = omega arith
owed-append zero n (k ∷ ks) = omega arith
owed-append (suc i) n (k ∷ ks) = owed-append i n ks

owed-last : (n : ℕ) (ks : List ℕ) → owed (length ks) (ks ++ n ∷ []) ≡ n
owed-last n [] = refl
owed-last n (k ∷ ks) = owed-last n ks

-- The handler at the place `i` has more kills to send than there are workers.
abbrev Outnumbered : ℕ → Pool → Type 0
Outnumbered i p = length p.workers < owed i p.shared.kills

WorkerStep-kills :
    (i : ℕ) {h : Shared} {w : Worker} {o : Option Worker} {h' : Shared}
    → WorkerStep h w o h'
    → owed i h.kills + length (remains o) ≤ owed i h'.kills + 1
WorkerStep-kills i (finish at_loop end) = omega arith
WorkerStep-kills i (die earlier later k at_loop more asked) =
    rw asked (omega (arith, owed-taken i k earlier later))
WorkerStep-kills i (tick at_loop more) = omega arith
WorkerStep-kills i (predict at_loop more) = omega arith
WorkerStep-kills i (succeed busy) = omega arith
WorkerStep-kills i (fail busy) = omega arith
WorkerStep-kills i (give_stat waits free) = omega arith

module _ {current_workers : ℤ} (i : ℕ) where
  Step-Outnumbered :
      {l : Label} {p q : Pool} → Step current_workers l p q → Outnumbered i p → Outnumbered i q
  Step-Outnumbered (work {w = w} {o = o} xs ys s) n = omega (
    arith,
    WorkerStep-kills i s,
    length-append xs (w ∷ ys),
    length-append xs (remains o ++ ys),
    length-append (remains o) ys,
    n,
  )
  Step-Outnumbered (report free) n = n
  Step-Outnumbered (poll waits) n = n
  Step-Outnumbered (ask {h = h}) n =
      omega (arith, n, owed-append i (pos_part current_workers) h.kills)

  Run-Outnumbered :
      {ls : List Label} {p q : Pool}
      → Run current_workers ls p q
      → Outnumbered i p
      → Outnumbered i q
  Run-Outnumbered stop n = n
  Run-Outnumbered (next s run) n = Run-Outnumbered run (Step-Outnumbered s n)

-- A pause when fewer workers are left than the last play asked for, as after one of them has made its
-- requests or had an error, is not answered before the next play: whatever happens, its handler, the
-- one behind those that were there before, still has a kill to send.
pub Run-unanswered :
    (n : ℕ) (ws : List Worker) (h : Shared) (ls : List Label) (q : Pool)
    → length ws < n
    → Run (pos n) (pauses ∷ ls) (record { workers = ws; shared = h }) q
    → 1 ≤ owed (length h.kills) q.shared.kills
Run-unanswered n ws h ls q few (next ask run) =
    omega (arith, Run-Outnumbered (length h.kills) run (omega (arith, few, owed-last n h.kills)))

-- A worker that waits for the monitor, while the monitor waits for a poll, takes no step.
stays :
    {h : Shared} {w : Worker} {o : Option Worker} {h' : Shared} {r : Report}
    → WorkerStep h w o h'
    → w.phase ≡ reporting
    → h.pending ≡ some r
    → ⊥
stays (finish at_loop end) e f = cc
stays (die earlier later k at_loop more asked) e f = cc
stays (tick at_loop more) e f = cc
stays (predict at_loop more) e f = cc
stays (succeed busy) e f = cc
stays (fail busy) e f = cc
stays (give_stat waits free) e f = cc

-- The workers are `ws`, the monitor waits with `r`, and the kills `ks` wait, with those of later
-- handlers.
record IsBlocked (ws : List Worker) (r : Report) (ks : List ℕ) (p : Pool) : Type 0 where
  same : p.workers ≡ ws
  full : p.shared.pending ≡ some r
  more : List ℕ
  waiting : p.shared.kills ≡ ks ++ more

module _ {current_workers : ℤ} (ws : List Worker) (r : Report) (ks : List ℕ)
    (stuck : All (λ (w : Worker). w.phase ≡ reporting) ws) where
  Step-IsBlocked :
      {l : Label} {p q : Pool}
      → Step current_workers l p q
      → l ≢ polls
      → IsBlocked ws r ks p
      → IsBlocked ws r ks q
  Step-IsBlocked (work {w = w} xs ys s) e b = absurd (
      stays s
        (All-middle (λ (v : Worker). v.phase ≡ reporting) xs w ys
          (subst (All (λ (v : Worker). v.phase ≡ reporting)) (sym b.same) stuck))
        b.full)
  Step-IsBlocked (report free) e b = absurd (cc (b.full))
  Step-IsBlocked (poll waits) e b = absurd (e refl)
  Step-IsBlocked ask e b = record {
    same = b.same;
    full = b.full;
    more = b.more ++ pos_part current_workers ∷ [];
    waiting = ap (λ m. m ++ pos_part current_workers ∷ []) b.waiting ∙ append_assoc ks b.more _;
  }

  Run-IsBlocked :
      {ls : List Label} {p q : Pool}
      → Run current_workers ls p q
      → All (λ l. l ≢ polls) ls
      → IsBlocked ws r ks p
      → IsBlocked ws r ks q
  Run-IsBlocked stop u b = b
  Run-IsBlocked (next s run) u b = Run-IsBlocked run u.1 (Step-IsBlocked s u.0 b)

-- When the monitor waits for a poll to take its report and every worker waits for the monitor,
-- nothing goes on before a poll comes: the workers stay as they are, and no handler sends a kill, also
-- none that comes meanwhile.
pub Run-blocked :
    (current_workers : ℤ) (ws : List Worker) (h : Shared) (r : Report) (ls : List Label) (q : Pool)
    → All (λ (w : Worker). w.phase ≡ reporting) ws
    → h.pending ≡ some r
    → All (λ l. l ≢ polls) ls
    → Run current_workers ls (record { workers = ws; shared = h }) q
    → (more : List ℕ) × (q.workers ≡ ws) × (q.shared.kills ≡ h.kills ++ more)
Run-blocked current_workers ws h r ls q stuck full unpolled run =
    let b =
      Run-IsBlocked ws r h.kills stuck run unpolled
        (record { same = refl; full = full; more = []; waiting = sym (append-nil h.kills) }) in
    (b.more, b.same, b.waiting)
