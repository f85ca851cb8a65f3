-- ===== src/Service/Load/Counts.antt =====
-- Every query that a worker of the earlier server sends is counted, and reported once.
use mathlib.Core.Path.{subst}
use workload_simulator.Prelude.{
  ℕ, zero, suc, ◌+◌, ◌==◌, ◌≤◌, ◌<◌, ◌≡◌, refl, sym, ap, ◌∙◌, some, List, [], ◌∷◌, ◌++◌, All,
  length, Bool, true, false, none, Bool-cases, ◌⊎◌, inl, inr, arith, if◌then◌else◌,
}
use workload_simulator.Js.Index.Dense.{All-imp}
use workload_simulator.QueryTable.{QueryObject}
use workload_simulator.Service.Load.{
  Stats, increment, count_query, survives, Draw, run_period, sum, Counter, poll_stats,
}

-- All queries counted so far
abbrev pub counted : Stats → ℕ
counted [] = 0
counted ((id, stats) ∷ table) = sum stats + counted table

-- The memory has a place for the worker `index` and the query `id`.
abbrev pub Room : ℕ → ℕ → Stats → Type 0
Room index id [] = ⊥
Room index id ((j, stats) ∷ table) = if id == j then index < length stats else Room index id table

sum-increment :
    (index : ℕ) (stats : List ℕ)
    → index < length stats
    → sum (increment index stats) ≡ sum stats + 1
unfolding sum increment
sum-increment index [] h = absurd (omega arith)
sum-increment zero (n ∷ stats) h = omega arith
sum-increment (suc index) (n ∷ stats) h = omega (arith, sum-increment index stats (omega arith))

length-increment : (index : ℕ) (stats : List ℕ) → length (increment index stats) ≡ length stats
unfolding increment
length-increment index [] = refl
length-increment zero (n ∷ stats) = refl
length-increment (suc index) (n ∷ stats) = omega (arith, length-increment index stats)

counted-count_query :
    (index id : ℕ) (table : Stats)
    → Room index id table
    → counted (count_query index id table) ≡ counted table + 1
unfolding count_query
counted-count_query index id [] room = absurd room
counted-count_query index id ((j, stats) ∷ table) room = elim (Bool-cases (id == j)) [
  | inl same ↦ rw same (omega (arith, sum-increment index stats (rw same at room)))
  | inr other ↦ rw other (omega (arith, counted-count_query index id table (rw other at room)))
]

Room-count_query :
    (index id k : ℕ) (table : Stats)
    → Room index k table
    → Room index k (count_query index id table)
unfolding count_query
Room-count_query index id k [] room = room
Room-count_query index id k ((j, stats) ∷ table) room = elim (Bool-cases (id == j)) [
  | inl same ↦ elim (Bool-cases (k == j)) [
    | inl here ↦ rw (same, here) (omega (arith, length-increment index stats, rw here at room))
    | inr there ↦ rw (same, there) (rw there at room)
  ]
  | inr other ↦ elim (Bool-cases (k == j)) [
    | inl here ↦ rw (other, here) (rw here at room)
    | inr there ↦ rw (other, there) (Room-count_query index id k table (rw there at room))
  ]
]

-- The round gives a query that has a place in the memory, and the worker goes on after it.
abbrev pub GoesWell : ℕ → Stats → Draw → Type 0
GoesWell index table d =
    (q : QueryObject) × (d.query ≡ some q) × Room index q.query_id table × (survives d.sent ≡ true)

-- The round gives no query, or one after which the worker ends.
abbrev pub GoesWrong : Draw → Type 0
GoesWrong d =
    (d.query ≡ none) ⊎ ((q : QueryObject) × (d.query ≡ some q) × (survives d.sent ≡ false))

-- The end of the period, or a round that goes wrong.
abbrev pub Stop : List Draw → Type 0
Stop [] = Unit
Stop (d ∷ draws) = GoesWrong d

abbrev pub is_over : List Draw → Bool
is_over [] = true
is_over (d ∷ draws) = false

run_period-Stop :
    (index : ℕ) (rest : List Draw) (table : Stats)
    → Stop rest
    → run_period index rest table ≡ (is_over rest, table)
unfolding run_period
run_period-Stop index [] table stop = refl
run_period-Stop index (d ∷ draws) table (inl missing) = rw (missing, run_period) refl
run_period-Stop index (d ∷ draws) table (inr (q, given, ends)) = rw (given, run_period, ends) refl

-- A worker of the earlier server counts each query of a period before the round in which
-- `get_random_query` throws, the query fails with an error that ends the worker, or the worker does not
-- connect again, and nothing from that round on, when it ends; and if there is no such round it counts
-- all and goes on. There is memory for the queries.
pub run_period-counted :
    (index : ℕ) (draws rest : List Draw) (table : Stats)
    → All (GoesWell index table) draws
    → Stop rest
    → ((run_period index (draws ++ rest) table).0 ≡ is_over rest)
      × (counted (run_period index (draws ++ rest) table).1 ≡ counted table + length draws)
unfolding run_period
run_period-counted index [] rest table well stop =
    let e = run_period-Stop index rest table stop in
    (ap (λ r. r.0) e, ap (λ r. counted r.1) e ∙ omega arith)
run_period-counted index (d ∷ draws) rest table ((q, given, room, lives), well) stop =
    let (alive, many) =
      run_period-counted index draws rest (count_query index q.query_id table)
        (All-imp (GoesWell index table) (GoesWell index (count_query index q.query_id table)) draws
          (λ e (p, given_too, place, goes_on).
            (p, given_too, Room-count_query index q.query_id p.query_id table place, goes_on))
          well)
        stop in
    let first : run_period index (d ∷ draws ++ rest) table
        ≡ run_period index (draws ++ rest) (count_query index q.query_id table) =
      rw (given, run_period, lives) refl in
    (
      ap (λ r. r.0) first ∙ alive,
      ap (λ r. counted r.1) first
          ∙ many
          ∙ omega (arith, counted-count_query index q.query_id table room),
    )

-- The counts of a query at one look after the other; they do not fall.
abbrev pub Growing : ℕ → List (List ℕ) → Type 0
Growing lo [] = Unit
Growing lo (stats ∷ looks) = (lo ≤ sum stats) × Growing (sum stats) looks

abbrev pub look_all : List (List ℕ) → Counter → Counter
look_all [] c = c
look_all (stats ∷ looks) c = look_all looks (poll_stats stats c)

abbrev pub last_sum : ℕ → List (List ℕ) → ℕ
last_sum n [] = n
last_sum n (stats ∷ looks) = last_sum (sum stats) looks

-- What is reported of a query in all periods together is what was done of it at the last look, so that
-- nothing is reported twice or left out.
pub look_all-sum :
    (looks : List (List ℕ)) (c : Counter)
    → Growing c.prev looks
    → sum c.diffs ≡ c.prev
    → (sum (look_all looks c).diffs ≡ last_sum c.prev looks)
      × ((look_all looks c).prev ≡ last_sum c.prev looks)
unfolding poll_stats sum
look_all-sum [] c grows e = (e, refl)
look_all-sum (stats ∷ looks) c grows e =
    let same : (poll_stats stats c).prev ≡ sum stats = omega (arith, grows.0) in
    let (all_diffs, at_last) =
      look_all-sum looks (poll_stats stats c) (subst (λ n. Growing n looks) (sym same) grows.1)
        (omega (arith, e)) in
    let to_last : last_sum (poll_stats stats c).prev looks ≡ last_sum (sum stats) looks =
      ap (λ n. last_sum n looks) same in
    (all_diffs ∙ to_last, at_last ∙ to_last)
