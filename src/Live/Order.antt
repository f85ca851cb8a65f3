-- ===== src/Live/Order.antt =====
-- Which queries live mode shows after a click on the button that sorts again.
use mathlib.Core.Path.{subst}
use mathlib.Core.List.{Perm}
use workload_simulator.Prelude.{
  ℕ, zero, suc, ◌+◌, ◌-◌, ◌≤◌, ◌≡◌, refl, sym, ap, ap₂, ◌∙◌, true, false, none, List, [], ◌∷◌, ◌++◌,
  map, append-nil, append_assoc, arith, Bool-cases, Option-cases, inl, inr, if◌then◌else◌, length,
  leb, ◌==◌, reverse, take, All, All-append,
}
use workload_simulator.Js.{Scalar, truthy, num_lt}
use workload_simulator.Js.Names
use workload_simulator.Js.Names.{put-fresh, find-put_other}
use workload_simulator.Js.Parse.{Text, Num, text_eq}
use workload_simulator.Js.Parse.Laws.{text_eq_comm}
use workload_simulator.Page.{Page}
use workload_simulator.Player.{poll_answered}
use workload_simulator.Live.{
  max_queries, LiveState, LiveStats, signature_to_query_widget, show_query, show_queries,
  delete_signatures, sort_again, update_metrics, insert_rate, sort_rates, show_stats,
  on_workload_receive,
}
use workload_simulator.Live.Laws.{IsLive}
use workload_simulator.Live.Descending.{IsDescending, All-reverse, reverse-IsDescending}
use workload_simulator.Live.Sorting.{All-insert_rate, All-sort_rates, Numbers}

abbrev pub names {ℓ} : {V : Type ℓ} → List (Text × V) → List Text
names m = map (λ t. t.0) m

-- No query is named twice.
abbrev pub Distinct : List (Text × Num) → Type 0
Distinct [] = Unit
Distinct (t ∷ ts) = All (λ u. text_eq u.0 t.0 ≡ false) ts × Distinct ts

Distinct-insert_rate :
    (t : Text × Num) (us : List (Text × Num))
    → All (λ u. text_eq u.0 t.0 ≡ false) us
    → Distinct us
    → Distinct (insert_rate t us)
unfolding insert_rate
Distinct-insert_rate t [] a d = (tt, tt)
Distinct-insert_rate t (u ∷ us) (h, a) (b, d) = elim (Bool-cases (num_lt u.1 t.1)) [
  | inl later ↦ rw later (
    All-insert_rate (λ v. text_eq v.0 u.0 ≡ false) t us (text_eq_comm t.0 u.0 ∙ h) b,
    Distinct-insert_rate t us a d,
  )
  | inr here ↦ rw here ((h, a), (b, d))
]

Distinct-sort_rates : (ts : List (Text × Num)) → Distinct ts → Distinct (sort_rates ts)
unfolding sort_rates
Distinct-sort_rates [] d = tt
Distinct-sort_rates (t ∷ ts) (a, d) =
    Distinct-insert_rate t (sort_rates ts) (All-sort_rates _ ts a) (Distinct-sort_rates ts d)

Distinct-append :
    (ts : List (Text × Num)) (t : Text × Num)
    → All (λ u. text_eq u.0 t.0 ≡ false) ts
    → Distinct ts
    → Distinct (ts ++ t ∷ [])
Distinct-append [] t a d = (tt, tt)
Distinct-append (u ∷ ts) t (h, a) (b, d) =
    (All-append _ ts (t ∷ []) b (text_eq_comm t.0 u.0 ∙ h, tt), Distinct-append ts t a d)

Distinct-reverse : (ts : List (Text × Num)) → Distinct ts → Distinct (reverse ts)
unfolding reverse
Distinct-reverse [] d = tt
Distinct-reverse (t ∷ ts) (a, d) =
    Distinct-append (reverse ts) t (All-reverse _ ts a) (Distinct-reverse ts d)

delete_signatures-empty :
    (m : List (Text × ℕ)) (s : LiveState) (p : Page)
    → s.signature_to_widget ≡ m
    → s.current_queries ≡ length m
    → ((delete_signatures m (s, p)).0.signature_to_widget ≡ [])
      × ((delete_signatures m (s, p)).0.current_queries ≡ 0)
unfolding delete_signatures
delete_signatures-empty [] s p e n = (e, n)
delete_signatures-empty ((k, id) ∷ rest) s p e n =
    delete_signatures-empty rest _ _ refl (omega (arith, n))

-- The queries with no widget yet.
abbrev Unseen : List (Text × ℕ) → List (Text × Num) → Type 0
Unseen m ts = All (λ t. Names.find t.0 m ≡ none) ts

Unseen-put :
    (k : Text) (id : ℕ) (m : List (Text × ℕ)) (ts : List (Text × Num))
    → All (λ u. text_eq u.0 k ≡ false) ts
    → Unseen m ts
    → Unseen (Names.put k id m) ts
Unseen-put k id m [] a u = tt
Unseen-put k id m (t ∷ ts) (h, a) (e, u) = (find-put_other t.0 k id m h e, Unseen-put k id m ts a u)

names-append {ℓ} : {V : Type ℓ} (ms ns : List (Text × V)) → names (ms ++ ns) ≡ names ms ++ names ns
names-append [] ns = refl
names-append (m ∷ ms) ns = ap (λ l. m.0 ∷ l) (names-append ms ns)

sort_again-empty :
    (s : LiveState) (p : Page)
    → length s.signature_to_widget ≡ s.current_queries
    → s.resort ≡ 1
    → ((sort_again (s, p)).0.signature_to_widget ≡ []) × ((sort_again (s, p)).0.current_queries ≡ 0)
unfolding sort_again
sort_again-empty s p counted again =
    let pressed : (s.resort == 1) ≡ true = ground arith in
    rw pressed (delete_signatures-empty s.signature_to_widget s p refl (sym counted))

Unseen-nil : (ts : List (Text × Num)) → Unseen [] ts
unfolding Names.find
Unseen-nil [] = tt
Unseen-nil (t ∷ ts) = (refl, Unseen-nil ts)

take-nil : (n : ℕ) → take {A = Text} n [] ≡ []
take-nil zero = refl
take-nil (suc n) = refl

none_left : (n : ℕ) (ks : List Text) → 24 ≤ n → take (24 - n) ks ≡ []
none_left n ks h = ap (λ m. take m ks) {x = 24 - n} {y = 0} (omega (arith, h))

one_less :
    (n : ℕ) (k : Text) (ks : List Text)
    → leb max_queries n ≡ false
    → take (24 - n) (k ∷ ks) ≡ k ∷ take (24 - (n + 1)) ks
one_less n k ks h = ap (λ m. take m (k ∷ ks)) {x = 24 - n} {y = suc (24 - (n + 1))} (ground arith)

module _ (knob : Scalar → Text → Text) where
  show_query-signatures :
      (signature : Text) (rate : Num) (sp : LiveState × Page)
      → (show_query knob signature rate sp).0 ≡ (signature_to_query_widget knob signature sp).1.0
  unfolding show_query
  show_query-signatures signature rate sp =
      elim (Option-cases (signature_to_query_widget knob signature sp).0) [
        | inl nothing ↦ rw (nothing, show_query) refl
        | inr (id, e) ↦ rw (e, show_query) refl
      ]

  abbrev added : Text → LiveState → Page → LiveState
  added signature s p = record s {
    signature_to_widget = Names.put signature p.registry.global_query_id s.signature_to_widget;
    current_queries = s.current_queries + 1;
  }

  show_query-unseen :
      (k : Text) (rate : Num) (s : LiveState) (p : Page)
      → Names.find k s.signature_to_widget ≡ none
      → (show_query knob k rate (s, p)).0
        ≡ (if leb max_queries s.current_queries then s else added k s p)
  unfolding signature_to_query_widget
  show_query-unseen k rate s p missing =
      show_query-signatures k rate (s, p) ∙ rw (missing, signature_to_query_widget) (ground arith)

  names-show_queries :
      (rates : List (Text × Num)) (sp : LiveState × Page) (s : LiveState)
      → sp.0 ≡ s
      → Distinct rates
      → Unseen s.signature_to_widget rates
      → names (show_queries knob rates sp).0.signature_to_widget
        ≡ names s.signature_to_widget ++ take (24 - s.current_queries) (names rates)
  unfolding show_queries
  names-show_queries [] sp s e d u =
      ap (λ (t : LiveState). names t.signature_to_widget) e
      ∙ sym (
          ap (λ ks. names s.signature_to_widget ++ ks) (take-nil (24 - s.current_queries))
          ∙ append-nil _)
  names-show_queries ((k, rate) ∷ rates) (r, p) s e (a, d) (missing, u) =
      elim (Bool-cases (leb max_queries s.current_queries)) [
        | inl full ↦
            names-show_queries rates _ s (after ∙ ap (λ b. if b then s else added k s p) full) d u
            ∙ ap (λ ks. names s.signature_to_widget ++ ks)
                (none_left s.current_queries (names rates) (ground arith)
                  ∙ sym (none_left s.current_queries (k ∷ names rates) (ground arith)))
        | inr room ↦
            names-show_queries rates _ (added k s p)
              (after ∙ ap (λ b. if b then s else added k s p) room) d
              (Unseen-put k p.registry.global_query_id s.signature_to_widget rates a u)
            ∙ ap (λ m. names m ++ take (24 - (s.current_queries + 1)) (names rates))
                (put-fresh k p.registry.global_query_id s.signature_to_widget missing)
            ∙ ap (λ ks. ks ++ take (24 - (s.current_queries + 1)) (names rates))
                (names-append s.signature_to_widget ((k, p.registry.global_query_id) ∷ []))
            ∙ append_assoc (names s.signature_to_widget) (k ∷ []) _
            ∙ ap (λ ks. names s.signature_to_widget ++ ks)
                (sym (one_less s.current_queries k (names rates) room))
      ]
    where
      after :
          (show_query knob k rate (r, p)).0
          ≡ (if leb max_queries s.current_queries then s else added k s p)
      after = ap (λ t. (show_query knob k rate (t, p)).0) e ∙ show_query-unseen k rate s p missing

  -- In live mode, after a click on the button that sorts again, the next answer of a server that runs
  -- gives widgets to the first 24 queries, or to all if they are fewer, of an order of the queries of
  -- the answer in which none has a lower rate than one behind it; whichever queries had widgets before.
  -- No query is named twice in the answer, and the rates are numbers.
  pub names-on_workload_receive :
      (d : LiveStats) (s : LiveState) (p : Page)
      → IsLive (s, p)
      → s.resort ≡ 1
      → truthy d.running ≡ true
      → Distinct d.plancache
      → Numbers d.plancache
      → (rates : List (Text × Num)) × Perm rates d.plancache
        × IsDescending rates
        × (names (on_workload_receive knob d (s, p)).0.signature_to_widget
            ≡ take max_queries (names rates))
  unfolding on_workload_receive show_stats sort_again update_metrics
  names-on_workload_receive d s p l again runs distinct numbers =
      let rates = reverse (sort_rates d.plancache) in
      let start = sort_again (update_metrics d.metrics s, poll_answered p) in
      let (gone, none_counted) =
        sort_again-empty (update_metrics d.metrics s) (poll_answered p) l.counted again in
      let (perm, descending) = reverse-IsDescending d.plancache numbers in
      (
        rates,
        perm,
        descending,
        rw runs (
            names-show_queries rates start start.0 refl
              (Distinct-reverse (sort_rates d.plancache) (Distinct-sort_rates d.plancache distinct))
              (subst (λ m. Unseen m rates) (sym gone) (Unseen-nil rates))
            ∙ ap₂ (λ m n. names m ++ take (24 - n) (names rates)) gone none_counted),
      )
