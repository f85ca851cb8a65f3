-- ===== src/Service/Load/Rate.antt =====
-- How the rate of the workers stands to the one that was asked for.
use native.Mathlib.Nat.{
  div-add-mod, mod-lt, mul_assoc, mul-le-mul_left, mul-add, mul-zero, div-eq_of_lt,
}
use workload_simulator.Prelude.{ℕ, ◌+◌, ◌*◌, ◌/◌, ◌≤◌, ◌<◌, ◌≡◌, ◌↔◌, ap, ◌∙◌, arith}
use workload_simulator.Service.Load.{periods, worker_qps}

-- What all workers send in a second, if the queries take no time.
abbrev pub pool_rate : ℕ → ℕ → ℕ
pool_rate total nworkers = nworkers * worker_qps total nworkers * periods

-- What a worker is asked for in a second.
abbrev share : ℕ → ℕ → ℕ
share total nworkers = (total + 1) / nworkers

worker_qps-bounds :
    (total nworkers : ℕ)
    → (share total nworkers ≤ worker_qps total nworkers * 10)
      × (worker_qps total nworkers * 10 ≤ share total nworkers + 9)
unfolding worker_qps
worker_qps-bounds total nworkers = (omega arith, omega arith)

-- All workers together are asked for at most one query in a second more than the total rate, and for
-- less than one for each worker fewer.
share-bounds :
    (total nworkers : ℕ)
    → 1 ≤ nworkers
    → (total + 2 ≤ nworkers * share total nworkers + nworkers)
      × (nworkers * share total nworkers ≤ total + 1)
share-bounds total nworkers some_worker = (
  omega (arith, div-add-mod (total + 1) nworkers, mod-lt (total + 1) some_worker),
  omega (arith, div-add-mod (total + 1) nworkers),
)

low_high :
    (total nworkers : ℕ)
    → 1 ≤ nworkers
    → (total + 2 ≤ pool_rate total nworkers + nworkers)
      × (pool_rate total nworkers ≤ total + 1 + nworkers * 9)
low_high total nworkers some_worker =
    let (low, high) = worker_qps-bounds total nworkers in
    let (under, over) = share-bounds total nworkers some_worker in
    let whole = mul_assoc nworkers (worker_qps total nworkers) 10 in
    let least = mul-le-mul_left nworkers low in
    let most = mul-le-mul_left nworkers high in
    let apart = mul-add nworkers (share total nworkers) 9 in
    (omega (arith, whole, least, under), omega (arith, whole, most, apart, over))

worker_qps-none :
    (total nworkers : ℕ) → 1 ≤ nworkers → (worker_qps total nworkers ≡ 0) ↔ (total + 1 < nworkers)
worker_qps-none total nworkers some_worker =
    let (low, high) = worker_qps-bounds total nworkers in
    let (under, over) = share-bounds total nworkers some_worker in
    (
      λ nothing.
          let idle : share total nworkers ≡ 0 = omega arith in
          let none_left : nworkers * share total nworkers ≡ 0 =
            ap (λ k. nworkers * k) idle ∙ mul-zero nworkers in
          omega (arith, none_left, under),
      λ few. let idle : share total nworkers ≡ 0 = div-eq_of_lt few in omega (arith, idle, high),
    )

-- With at least one worker, and queries that take no time, all workers together send, in a second,
-- fewer queries than the total rate by at most the number of the workers less two, and more by at most
-- one and nine for each worker; and they send nothing at all exactly if the total rate and one more is
-- less than the number of the workers.
pub pool_rate-bounds :
    (total nworkers : ℕ)
    → 1 ≤ nworkers
    → (total + 2 ≤ pool_rate total nworkers + nworkers)
      × (pool_rate total nworkers ≤ total + 1 + nworkers * 9)
      × ((worker_qps total nworkers ≡ 0) ↔ (total + 1 < nworkers))
pool_rate-bounds total nworkers some_worker =
    let (low, high) = low_high total nworkers some_worker in
    (low, high, worker_qps-none total nworkers some_worker)
