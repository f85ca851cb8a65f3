-- ===== src/Player/Frame.antt =====
-- What the report of an error and the loop over the rates leave as it was.
use workload_simulator.Prelude.{
  ℕ, ◌≡◌, refl, Option, none, some, List, [], ◌∷◌, Option-cases, inl, inr,
}
use workload_simulator.Js.{Scalar}
use workload_simulator.Js.Parse.{Text}
use workload_simulator.Js.Index.{find}
use workload_simulator.Page.{Page}
use workload_simulator.Alerts.{page_of, PageError}
use workload_simulator.Alerts.Frame.{rest, rest-create_error}
use workload_simulator.Player.{report, show_rates, show_rate}

pub rest-report : (e : Option PageError) (p : Page) → rest (page_of (report e p)) ≡ rest p
rest-report none p = refl
rest-report (some e) p = rest-create_error e p

pub rest-show_rates :
    (knob : Scalar → Text → Text) (stats : List (ℕ × Scalar)) (p : Page)
    → rest (page_of (show_rates knob stats p)) ≡ rest p
unfolding show_rates show_rate
rest-show_rates knob [] p = refl
rest-show_rates knob ((i, v) ∷ stats) p = elim (Option-cases (find i p.registry.query_widget_map)) [
  | inl missing ↦ rw (missing, show_rates) refl
  | inr (w, found) ↦ rw (found, show_rates) (rest-show_rates knob stats _)
]
