-- ===== src/Alerts/Frame.antt =====
-- What an error report leaves as it was.
use workload_simulator.Prelude.{
  ℕ, ◌≡◌, refl, Bool, true, List, [], ◌∷◌, arith, Option-cases, inl, inr,
}
use workload_simulator.Js.Parse.{Text}
use workload_simulator.Js.Index.{find}
use workload_simulator.Page.{Page, SettingsForm, Storage, Player}
use workload_simulator.Settings.{display_settings}
use workload_simulator.Alerts.{page_of, PageError, highlight_all, notify, create_error}

-- The page without its widgets, its messages and whether the settings are shown.
pub record Rest : Type 0 where
  pub livemode : Bool
  pub form : SettingsForm
  pub storage : Storage
  pub player : Player

abbrev pub rest : Page → Rest
rest p = record {
  livemode = p.livemode;
  form = record p.form { shown = true };
  storage = p.storage;
  player = p.player;
}

rest-highlight_all :
    (errors : List (ℕ × Text)) (p : Page) → rest (page_of (highlight_all errors p)) ≡ rest p
unfolding highlight_all
rest-highlight_all [] p = refl
rest-highlight_all ((id, message) ∷ errors) p =
    elim (Option-cases (find id p.registry.query_widget_map)) [
      | inl missing ↦ rw (missing, highlight_all) refl
      | inr (w, found) ↦ rw (found, highlight_all) (rest-highlight_all errors _)
    ]

pub rest-create_error : (e : PageError) (p : Page) → rest (page_of (create_error e p)) ≡ rest p
unfolding create_error notify display_settings
rest-create_error e p = ground (arith, rest-highlight_all e.query_map (notify true e p))
