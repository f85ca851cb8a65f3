-- ===== src/Server/Pool/Ends.antt =====
-- How far the workers can go.
use workload_simulator.Prelude.{
  ℕ, ℤ, pos_part, ◌+◌, ◌*◌, ◌≤◌, ◌≡◌, refl, Option, List, [], ◌∷◌, ◌++◌, map, arith, ◌⊎◌, inl, inr,
  Option-cases, zero, suc,
}
use workload_simulator.Server.{Task}
use workload_simulator.Server.Pool.{
  Phase, looping, predicting, reporting, Worker, new_worker, Shared, WorkerStep, finish, die, tick,
  predict, succeed, fail, give_stat, Pool, Label, works, polls, remains, Step, work, report, poll,
  ask, Run, stop, next, start,
}

-- An upper bound of the steps that a worker may still take.
abbrev pub in_round : Phase → ℕ
in_round looping = 1
in_round predicting = 2
in_round reporting = 2

abbrev pub steps_left : List Worker → ℕ
steps_left [] = 0
steps_left (w ∷ ws) = 2 * w.left + in_round w.phase + steps_left ws

steps_left-append : (xs ys : List Worker) → steps_left (xs ++ ys) ≡ steps_left xs + steps_left ys
steps_left-append [] ys = omega arith
steps_left-append (x ∷ xs) ys = omega (arith, steps_left-append xs ys)

abbrev pub works_of : Label → ℕ
works_of works = 1
works_of _ = 0

abbrev pub worked : List Label → ℕ
worked [] = 0
worked (l ∷ ls) = works_of l + worked ls

WorkerStep-steps_left :
    {h : Shared} {w : Worker} {o : Option Worker} {h' : Shared}
    → WorkerStep h w o h'
    → 1 + steps_left (remains o) ≤ steps_left (w ∷ [])
WorkerStep-steps_left {w = w} (finish at_loop end) = rw at_loop (omega arith)
WorkerStep-steps_left {w = w} (die earlier later k at_loop more asked) = rw at_loop (omega arith)
WorkerStep-steps_left {w = w} (tick at_loop more) = rw at_loop (omega arith)
WorkerStep-steps_left {w = w} (predict at_loop more) = rw at_loop (omega arith)
WorkerStep-steps_left {w = w} (succeed busy) = rw busy (omega arith)
WorkerStep-steps_left {w = w} (fail busy) = rw busy (omega arith)
WorkerStep-steps_left {w = w} (give_stat waits free) = rw waits (omega arith)

module _ {current_workers : ℤ} where
  Step-steps_left :
      {l : Label} {p q : Pool}
      → Step current_workers l p q
      → works_of l + steps_left q.workers ≤ steps_left p.workers
  Step-steps_left (work {w = w} {o = o} xs ys s) = omega (
    arith,
    WorkerStep-steps_left s,
    steps_left-append xs (w ∷ ys),
    steps_left-append xs (remains o ++ ys),
    steps_left-append (remains o) ys,
  )
  Step-steps_left (report free) = omega arith
  Step-steps_left (poll waits) = omega arith
  Step-steps_left ask = omega arith

  Run-steps_left :
      {ls : List Label} {p q : Pool}
      → Run current_workers ls p q
      → worked ls + steps_left q.workers ≤ steps_left p.workers
  Run-steps_left stop = omega arith
  Run-steps_left (next {l = l} s run) = omega (arith, Step-steps_left s, Run-steps_left run)

-- The rounds of the tasks.
abbrev pub rounds_of : List Task → ℕ
rounds_of [] = 0
rounds_of (t ∷ tasks) = 2 * pos_part t.nrequests + 1 + rounds_of tasks

steps_left-new_worker : (tasks : List Task) → steps_left (map new_worker tasks) ≡ rounds_of tasks
unfolding new_worker
steps_left-new_worker [] = refl
steps_left-new_worker (t ∷ tasks) = omega (arith, steps_left-new_worker tasks)

zero_cases : (n : ℕ) → (n ≡ 0) ⊎ (1 ≤ n)
zero_cases zero = inl refl
zero_cases (suc n) = inr (omega arith)

-- No worker is left, or one can take a step, or the monitor waits with a report, and one can take a
-- step when a poll has taken it.
abbrev pub GoesOn : ℤ → Pool → Type 0
GoesOn current_workers p =
    (p.workers ≡ [])
    ⊎ ((q : Pool) × Step current_workers works p q)
    ⊎ ((polled : Pool) × (q : Pool) × Step current_workers polls p polled
        × Step current_workers works polled q)

module _ (current_workers : ℤ) (w : Worker) (ws : List Worker) (h : Shared) where
  abbrev first_of : Pool
  first_of = record { workers = w ∷ ws; shared = h }

  first-GoesOn : (phase : Phase) → w.phase ≡ phase → GoesOn current_workers first_of
  first-GoesOn looping at_loop = elim (zero_cases w.left) [
    | inl end ↦ inr (inl (_, work [] ws (finish at_loop end)))
    | inr more ↦ inr (inl (_, work [] ws (predict at_loop more)))
  ]
  first-GoesOn predicting busy = inr (inl (_, work [] ws (succeed busy)))
  first-GoesOn reporting waits = elim (Option-cases h.pending) [
    | inl free ↦ inr (inl (_, work [] ws (give_stat waits free)))
    | inr (r, full) ↦ inr (inr (_, _, poll full, work [] ws (give_stat waits refl)))
  ]

GoesOn_lem :
    (current_workers : ℤ) (ws : List Worker) (h : Shared)
    → GoesOn current_workers (record { workers = ws; shared = h })
GoesOn_lem current_workers [] h = inl refl
GoesOn_lem current_workers (w ∷ ws) h = first-GoesOn current_workers w ws h w.phase refl

-- After a play with no worker left from before, and until the next play, whatever the order of the
-- steps of the workers, of the monitor, the polls, the pauses and the answers of the remote host, the
-- workers take at most two steps for each request of their rates and one more each; and at any time
-- none is left, or one can take a step, or the monitor waits with a report, and one can take a step as
-- soon as a poll has taken it.
pub Run-start_bound :
    (current_workers : ℤ) (tasks : List Task) (h : Shared) (ls : List Label) (q : Pool)
    → Run current_workers ls (start tasks (record { workers = []; shared = h })) q
    → (worked ls + steps_left q.workers ≤ rounds_of tasks) × GoesOn current_workers q
unfolding start
Run-start_bound current_workers tasks h ls q run = (
  omega (arith, Run-steps_left run, steps_left-new_worker tasks),
  GoesOn_lem current_workers q.workers q.shared,
)
