-- ===== src/Service/Took.antt =====
-- Which queries the database took in a validation without a failure.
use workload_simulator.Prelude.{
  ℕ, ◌≡◌, refl, false, Option, none, some, List, [], ◌∷◌, Bool-cases, inl, inr, ◌++◌, All,
}
use workload_simulator.Js.Parse.{Text, codes}
use workload_simulator.QueryTable.{QueryObject, Globals, query_f}
use workload_simulator.Service.Act.{returned, Act, done, crash, reads, ◌>>=◌, ◌>>◌}
use workload_simulator.Service.State.{Server}
use workload_simulator.Service.Requests.{
  World, validate_queries, add_failure, is_uncaught, set_globals,
}

-- No error, or one that the validation does not count.
abbrev pub Harmless : Option (ℕ × Text) → Type 0
Harmless none = Unit
Harmless (some (n, _)) = is_uncaught n ≡ false

add_failure-nil :
    (id : ℕ) (o : Option (ℕ × Text)) (failed : List (ℕ × Text))
    → add_failure id o failed ≡ []
    → (failed ≡ []) × Harmless o
add_failure-nil id none failed e = (e, tt)
add_failure-nil id (some (n, m)) failed e = elim (Bool-cases (is_uncaught n)) [
  | inl counts ↦ absurd (no_last failed (id, m) (rw counts at e))
  | inr harmless ↦ (rw harmless at e, harmless)
]
  where
    no_last : (fs : List (ℕ × Text)) (f : ℕ × Text) → fs ++ f ∷ [] ≡ [] → ⊥
    no_last [] f e = cc
    no_last (g ∷ fs) f e = cc

module _ (randint : ℕ → ℕ) (clock : ℕ → Text) (w : World) where
  -- The database took a query: the text that was sent for it, with values for its parameters, did not
  -- fail with an error that counts.
  pub record Took (q : QueryObject) : Type 0 where
    pub before : Globals
    pub after : Globals
    pub sent : Text
    pub made_of : query_f randint clock q.query (codes "0") before ≡ some (sent, after)
    pub taken : Harmless (w.failure sent)

  first-Took :
      (q : QueryObject) (objects : List QueryObject) (failed : List (ℕ × Text)) (s : Server)
      (o : Option (Text × Globals))
      → query_f randint clock q.query (codes "0") s.query_globals ≡ o
      → ((f : List (ℕ × Text)) (u : Server)
          → (validate_queries randint clock w objects f u).0 ≡ returned []
          → (f ≡ []) × All Took objects)
      → ((elim o as (λ _. Act Server (List (ℕ × Text))) [
        | none ↦ crash
        | some (query, h) ↦
            set_globals h
            >> validate_queries randint clock w objects
                (add_failure q.query_id (w.failure query) failed)
      ])
          s).0
        ≡ returned []
      → (failed ≡ []) × All Took (q ∷ objects)
  unfolding ◌>>=◌ crash
  first-Took q objects failed s none made later e = cc
  first-Took q objects failed s (some (sent, after)) made later e =
      let (nothing, others) =
        later (add_failure q.query_id (w.failure sent) failed) (record s { query_globals = after })
          e in
      let (none_failed, taken) = add_failure-nil q.query_id (w.failure sent) failed nothing in
      (
        none_failed,
        (
          record {
            before = s.query_globals;
            after = after;
            sent = sent;
            made_of = made;
            taken = taken;
          },
          others,
        ),
      )

  pub validate_queries-Took :
      (objects : List QueryObject) (failed : List (ℕ × Text)) (s : Server)
      → (validate_queries randint clock w objects failed s).0 ≡ returned []
      → (failed ≡ []) × All Took objects
  unfolding validate_queries ◌>>=◌ reads done
  validate_queries-Took [] failed s e = (cc, tt)
  validate_queries-Took (q ∷ objects) failed s e =
      first-Took q objects failed s (query_f randint clock q.query (codes "0") s.query_globals) refl
        (λ f u. validate_queries-Took objects f u) e
