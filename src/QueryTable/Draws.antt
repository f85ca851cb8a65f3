-- ===== src/QueryTable/Draws.antt =====
-- Which query a random number draws.
use mathlib.Core.Path.{subst}
use mathlib.Core.Option.{some-injective}
use workload_simulator.Prelude.{
  ℕ, ◌+◌, ◌≤◌, ◌<◌, ◌==◌, ◌≡◌, refl, sym, ap, ◌∙◌, false, some, List, [], ◌∷◌, ◌++◌, ltb, arith,
  Bool-cases, inl, inr, if◌then◌else◌,
}
use workload_simulator.QueryTable.{
  QueryObject, total_qps, insert_by_qps, sort_by_qps, probabilities_from, query_table, table_of,
  all_accepted, QueryTable, find_gt, object_at, get_random_query,
}

-- The sum of the rates does not depend on the order.
total_qps-insert_by_qps :
    (q : QueryObject) (sorted : List QueryObject)
    → total_qps (insert_by_qps q sorted) ≡ q.qps + total_qps sorted
unfolding insert_by_qps
total_qps-insert_by_qps q [] = refl
total_qps-insert_by_qps q (r ∷ sorted) = ground (arith, total_qps-insert_by_qps q sorted)

total_qps-sort_by_qps :
    (workload : List QueryObject) → total_qps (sort_by_qps workload) ≡ total_qps workload
unfolding sort_by_qps
total_qps-sort_by_qps [] = refl
total_qps-sort_by_qps (q ∷ workload) =
    omega (arith, total_qps-insert_by_qps q (sort_by_qps workload), total_qps-sort_by_qps workload)

total_qps-append : (xs ys : List QueryObject) → total_qps (xs ++ ys) ≡ total_qps xs + total_qps ys
total_qps-append [] ys = omega arith
total_qps-append (x ∷ xs) ys = omega (arith, total_qps-append xs ys)

-- The rates ascend from `lo`.
abbrev Rising : ℕ → List QueryObject → Type 0
Rising lo [] = Unit
Rising lo (q ∷ objects) = (lo ≤ q.qps) × Rising q.qps objects

insert_by_qps-Rising :
    (lo : ℕ) (q : QueryObject) (sorted : List QueryObject)
    → lo ≤ q.qps
    → Rising lo sorted
    → Rising lo (insert_by_qps q sorted)
unfolding insert_by_qps
insert_by_qps-Rising lo q [] h r = (h, tt)
insert_by_qps-Rising lo q (p ∷ sorted) h r = ground (arith, insert_by_qps-Rising p.qps q sorted)

sort_by_qps-Rising : (workload : List QueryObject) → Rising 0 (sort_by_qps workload)
unfolding sort_by_qps
sort_by_qps-Rising [] = tt
sort_by_qps-Rising (q ∷ workload) =
    insert_by_qps-Rising 0 q (sort_by_qps workload) (omega arith) (sort_by_qps-Rising workload)

-- Behind the queries `xs`, whose rates do not fall, stands `q`, with a rate above `v`. While no rate is
-- above 0, the probability is 0.
object_at-find_gt :
    (lo acc v : ℕ) (xs : List QueryObject) (q : QueryObject) (ys : List QueryObject)
    → Rising lo (xs ++ q ∷ ys)
    → (lo ≡ 0 → acc ≡ 0)
    → v < q.qps
    → object_at
        (xs ++ q ∷ ys)
        (find_gt (probabilities_from acc (xs ++ q ∷ ys)) (acc + total_qps xs + v))
      ≡ some q
unfolding find_gt probabilities_from
object_at-find_gt lo acc v [] q ys r z h = ground arith
object_at-find_gt lo acc v (x ∷ xs) q ys r z h =
    let step : (if x.qps == 0 then 0 else acc + x.qps) ≡ acc + x.qps = ground (arith, z) in
    let beyond : ltb (acc + (x.qps + total_qps xs) + v) (acc + x.qps) ≡ false = ground arith in
    let regroup : acc + (x.qps + total_qps xs) + v ≡ acc + x.qps + total_qps xs + v = omega arith in
    rw (step, beyond)
      (ap
          (λ n.
            object_at (xs ++ q ∷ ys) (find_gt (probabilities_from (acc + x.qps) (xs ++ q ∷ ys)) n))
          regroup
        ∙ object_at-find_gt x.qps (acc + x.qps) v xs q ys r.1 (λ e. ground (arith, z)) h)

table_of-query_table :
    (workload : List QueryObject) (t : QueryTable)
    → query_table workload ≡ some t
    → table_of workload ≡ t
unfolding query_table
table_of-query_table [] t e = cc
table_of-query_table (q ∷ workload) t e = elim (Bool-cases (all_accepted (q ∷ workload))) [
  | inl taken ↦ some-injective (table_of (q ∷ workload)) t (rw taken at e)
  | inr refused ↦ cc (rw refused at e)
]

shares :
    (workload xs : List QueryObject) (q : QueryObject) (ys : List QueryObject) (v : ℕ)
    → sort_by_qps workload ≡ xs ++ q ∷ ys
    → v < q.qps
    → (get_random_query (table_of workload) (total_qps xs + v) ≡ some q)
      × (total_qps xs + q.qps + total_qps ys ≡ total_qps workload)
unfolding get_random_query
shares workload xs q ys v e h = (
  ap (λ os. object_at os (find_gt (probabilities_from 0 os) (total_qps xs + v))) e
      ∙ ap (λ n. object_at (xs ++ q ∷ ys) (find_gt (probabilities_from 0 (xs ++ q ∷ ys)) n))
          {x = total_qps xs + v} {y = 0 + total_qps xs + v} (omega arith)
      ∙ object_at-find_gt 0 0 v xs q ys (subst (Rising 0) e (sort_by_qps-Rising workload))
          (λ z. refl) h,
  omega (arith, total_qps-append xs (q ∷ ys), ap total_qps e, total_qps-sort_by_qps workload),
)

-- In the table of a workload the sorted queries share the numbers below the total rate, in their
-- order: each query is drawn by as many of them as its rate says, those from the sum of the rates
-- before it on, and the rates add up to the total.
pub get_random_query-share :
    (workload : List QueryObject) (t : QueryTable) (xs : List QueryObject) (q : QueryObject)
    (ys : List QueryObject) (v : ℕ)
    → query_table workload ≡ some t
    → t.query_objects ≡ xs ++ q ∷ ys
    → v < q.qps
    → (get_random_query t (total_qps xs + v) ≡ some q)
      × (total_qps xs + q.qps + total_qps ys ≡ t.total)
get_random_query-share workload t xs q ys v made e h =
    let same = table_of-query_table workload t made in
    let (drawn, sum) =
      shares workload xs q ys v (ap (λ (u : QueryTable). u.query_objects) same ∙ e) h in
    (
      ap (λ u. get_random_query u (total_qps xs + v)) (sym same) ∙ drawn,
      sum ∙ ap (λ (u : QueryTable). u.total) same,
    )

-- The total rate of a table is that of its queries.
pub total-query_objects :
    (workload : List QueryObject) (t : QueryTable)
    → query_table workload ≡ some t
    → total_qps t.query_objects ≡ t.total
total-query_objects workload t made =
    let same = table_of-query_table workload t made in
    sym (ap (λ (u : QueryTable). total_qps u.query_objects) same)
    ∙ total_qps-sort_by_qps workload
    ∙ ap (λ (u : QueryTable). u.total) same
