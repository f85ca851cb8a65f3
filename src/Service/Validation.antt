-- ===== src/Service/Validation.antt =====
-- The validation of a workload keeps whatever the numbers of the queries have no part in.
use mathlib.Core.Path.{subst}
use workload_simulator.Prelude.{ℕ, ◌≡◌, sym, List, [], ◌∷◌, arith}
use workload_simulator.Js.Parse.{Text, codes}
use workload_simulator.QueryTable.{QueryTable, QueryObject, Globals, query_table, query_f}
use workload_simulator.Service.Act.{done, throw, crash, reads}
use workload_simulator.Service.Act.Keeps.{
  Keeps, Keeps-done, Keeps-crash, Keeps-reads, Keeps-if, Keeps-option, Keeps-bind, keeps_rules,
}
use workload_simulator.Service.State.{Server}
use workload_simulator.Service.Requests

-- The check of the connection changes nothing.
pub same_after-check_connection_settings :
    (w : Requests.World) (s : Server) → (Requests.check_connection_settings w s).1 ≡ s
unfolding Requests.check_connection_settings throw done
same_after-check_connection_settings w s = ground arith

module _ {P : Server → Type 0} where
  pub Keeps-check_connection_settings :
      (w : Requests.World) → Keeps P (Requests.check_connection_settings w)
  Keeps-check_connection_settings w = record {
    kept = λ s h. subst P (sym (same_after-check_connection_settings w s)) h;
  }

  Keeps-verdict :
      (qt : QueryTable) (failed : List (ℕ × Text)) → Keeps P (Requests.verdict qt failed)
  Keeps-verdict qt [] = search keeps_rules
  Keeps-verdict qt (f ∷ failed) = search keeps_rules

  module _ (globals : (g : Globals) → Keeps P (Requests.set_globals g)) (randint : ℕ → ℕ)
      (clock : ℕ → Text) where
    Keeps-validate_queries :
        (w : Requests.World) (objects : List QueryObject) (failed : List (ℕ × Text))
        → Keeps P (Requests.validate_queries randint clock w objects failed)
    unfolding Requests.validate_queries
    Keeps-validate_queries w [] failed = Keeps-done failed
    Keeps-validate_queries w (q ∷ objects) failed = Keeps-bind (reads _) _ (Keeps-reads _) (λ g.
        Keeps-option (query_f randint clock q.query (codes "0") g) crash _ Keeps-crash (λ r _.
          Keeps-bind (Requests.set_globals r.1) _ (globals r.1)
            (λ _. Keeps-validate_queries w objects _)))

    pub Keeps-validate_workload :
        (w : Requests.World) → Keeps P (Requests.validate_workload randint clock w)
    unfolding Requests.validate_workload
    Keeps-validate_workload w =
        Keeps-if w.mysql_connects _ _
          (Keeps-bind (reads _) _ (Keeps-reads _) (λ workload.
            Keeps-option workload crash _ Keeps-crash (λ objects _.
              Keeps-option (query_table objects) crash _ Keeps-crash
                (λ qt _. search (keeps_rules, Keeps-validate_queries, Keeps-verdict)))))
          (search (keeps_rules, Keeps-check_connection_settings))
