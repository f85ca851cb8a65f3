-- ===== src/Service/Polls.antt =====
-- Polls of the earlier server for the rates.
use mathlib.Core.Path.{subst}
use workload_simulator.Prelude.{
  ℕ, suc, ℤ, ◌+◌, ◌-◌, ◌%◌, ◌==◌, ◌≤◌, ◌≡◌, ◌≢◌, ◌⊎◌, refl, sym, false, none, List, [], ◌∷◌, All,
  length, Option-cases, Bool-cases, inl, inr, arith,
}
use workload_simulator.Service.Act.{ServerException, done, crash, reads, ◌>>=◌}
use workload_simulator.Service.State.{Server, WorkerPool}
use workload_simulator.Service.Workers.{all}
use workload_simulator.Service.Requests.{World, Reply, response, refusal, get_stats, answer_rates}
use workload_simulator.Service.Answers.{with_pool, check_workers-dead}

-- What the world answers during a poll, and the rates in the shared memory.
pub record Poll : Type 0 where
  pub world : World
  pub qps_array : ℕ → ℤ

abbrev pub poll_all : List Poll → Server → List Reply
poll_all [] s = []
poll_all (p ∷ polls) s =
    let (reply, t) = get_stats p.world p.qps_array s in reply ∷ poll_all polls t

-- Some answer says that nothing runs, with an error.
abbrev pub HasRefusal : List Reply → Type 0
HasRefusal [] = ⊥
HasRefusal (reply ∷ replies) =
    ((e : ServerException) × (reply ≡ response (refusal e))) ⊎ HasRefusal replies

-- An answer with the rates changes nothing.
same_after-answer_rates : (qps_array : ℕ → ℤ) (s : Server) → (answer_rates qps_array s).1 ≡ s
unfolding answer_rates reads ◌>>=◌ crash done
same_after-answer_rates qps_array s = ground arith

module _ (p : WorkerPool) where
  -- The poll looks after the workers.
  get_stats-checks :
      (q : Poll) (s : Server)
      → all q.world.alive ≡ false
      → s.stat_check_count % 10 ≡ 0
      → (e : ServerException) × ((get_stats q.world q.qps_array (with_pool p s)).0
          ≡ response (refusal e))
  unfolding get_stats ◌>>=◌ reads
  get_stats-checks q s dead now =
      let (e, fails) = check_workers-dead q.world q.world.alive s p dead in
      (e, rw (now, fails) refl)

  -- It does not.
  get_stats-passes :
      (q : Poll) (s : Server)
      → (s.stat_check_count % 10 == 0) ≡ false
      → (get_stats q.world q.qps_array (with_pool p s)).1
        ≡ with_pool p (record s { stat_check_count = s.stat_check_count + 1 })
  unfolding get_stats ◌>>=◌ reads done
  get_stats-passes q s later = rw later (
      same_after-answer_rates q.qps_array
        (with_pool p (record s { stat_check_count = s.stat_check_count + 1 })))

  -- The check comes after at most `k` polls.
  refused_within :
      (polls : List Poll) (k : ℕ) (s : Server)
      → (s.stat_check_count + k) % 10 ≡ 0
      → k ≤ 9
      → suc k ≤ length polls
      → All (λ (q : Poll). all q.world.alive ≡ false) polls
      → HasRefusal (poll_all polls (with_pool p s))
  refused_within [] k s due small long dead = absurd (omega arith)
  refused_within (q ∷ polls) k s due small long (one, dead) =
      elim (Bool-cases (s.stat_check_count % 10 == 0)) [
        | inl now ↦ inl (get_stats-checks q s one (ground arith))
        | inr later ↦ inr (
            subst (λ t. HasRefusal (poll_all polls t)) (sym (get_stats-passes q s later))
              (refused_within polls (k - 1) (record s { stat_check_count = s.stat_check_count + 1 })
                (ground arith) (omega arith) (ground arith) dead))
      ]

-- Of ten polls in a row, during which one of the workers is dead, one at least is answered with an
-- error, whatever the count of the polls was.
pub get_stats-ten :
    (polls : List Poll) (s : Server)
    → s.g_workers ≢ none
    → 10 ≤ length polls
    → All (λ (q : Poll). all q.world.alive ≡ false) polls
    → HasRefusal (poll_all polls s)
get_stats-ten polls s some_pool long dead = elim (Option-cases s.g_workers) [
  | inl missing ↦ absurd (some_pool missing)
  | inr (p, found) ↦
      subst (λ o. HasRefusal (poll_all polls (record s { g_workers = o }))) (sym found)
        (refused_within p polls ((10 - s.stat_check_count % 10) % 10) s (omega arith) (omega arith)
          (omega arith) dead)
]
