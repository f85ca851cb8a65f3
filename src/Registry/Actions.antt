-- ===== src/Registry/Actions.antt =====
-- What a page does to its widgets, one action after the other.
use workload_simulator.Prelude.{
  ℕ, ap, none, some, List, [], ◌∷◌, Option-cases, inl, inr, if◌then◌else◌,
}
use workload_simulator.Js.{Scalar}
use workload_simulator.Js.Parse.{Text}
use workload_simulator.Dial.{set_dial_value}
use workload_simulator.Widget.{Widget, highlight_error, click, with_editor}
use workload_simulator.Registry.{
  Registry, empty, close, clear_query_widgets, update, new_widget, freeze_all, unfreeze_all,
}
use workload_simulator.Registry.Laws.{Owns}
use workload_simulator.Registry.Invariant.{
  IsValid, empty-IsValid, new_widget-IsValid, close-IsValid, clear_query_widgets-empty,
  update-IsValid, click-Owns, highlight_error-Owns, freeze_all-IsValid, unfreeze_all-IsValid,
}

-- The user types into an editor that is not read-only.
unfoldable pub type_text : Text → Widget → Widget
unfolding with_editor
type_text q w = record w {
  codemirror = with_editor (λ e. if e.read_only then e else record e { value = q }) w.codemirror;
}

pub data Action : Type 0 where
  add clear freeze_widgets unfreeze_widgets : Action
  press_close click_on : ℕ → Action
  type_query report : ℕ → Text → Action
  show_rate : ℕ → Scalar → Action

module _ (knob : Scalar → Text → Text) (dial_max_value : Scalar) where
  abbrev pub act : Action → Registry → Registry
  act add r = new_widget knob dial_max_value r
  act clear r = clear_query_widgets r
  act freeze_widgets r = freeze_all knob dial_max_value r
  act unfreeze_widgets r = unfreeze_all knob dial_max_value r
  act (press_close id) r = elim (close id r) [ none ↦ r | some r' ↦ r' ]
  act (click_on id) r = update id click r
  act (type_query id q) r = update id (type_text q) r
  act (report id message) r = update id (highlight_error message) r
  act (show_rate id v) r = update id (λ w. record w { dial = set_dial_value knob v w.dial }) r

type_text-Owns : (q : Text) (k : ℕ) (w : Widget) → Owns k w → Owns k (type_text q w)
unfolding type_text
type_text-Owns q k w o = record {
  own_id = o.own_id;
  own_close = o.own_close;
  has_editor = (_, ap (with_editor _) o.has_editor.1);
}

module _ (knob : Scalar → Text → Text) (dial_max_value : Scalar) where
  pub act-IsValid : (a : Action) (r : Registry) → IsValid r → IsValid (act knob dial_max_value a r)
  act-IsValid add r v = new_widget-IsValid knob dial_max_value r v
  act-IsValid clear r v = rw (clear_query_widgets-empty r v) empty-IsValid
  act-IsValid freeze_widgets r v = freeze_all-IsValid knob dial_max_value r v
  act-IsValid unfreeze_widgets r v = unfreeze_all-IsValid knob dial_max_value r v
  act-IsValid (press_close id) r v = elim (Option-cases (close id r)) [
    | inl missing ↦ rw (missing, act) v
    | inr (r', closed) ↦ rw (closed, act) (close-IsValid id r r' v closed)
  ]
  act-IsValid (click_on id) r v = update-IsValid id click r click-Owns v
  act-IsValid (type_query id q) r v = update-IsValid id (type_text q) r (type_text-Owns q) v
  act-IsValid (report id message) r v =
      update-IsValid id (highlight_error message) r (highlight_error-Owns message) v
  act-IsValid (show_rate id x) r v =
      update-IsValid id (λ w. record w { dial = set_dial_value knob x w.dial }) r
        (λ k w o. record { own_id = o.own_id; own_close = o.own_close; has_editor = o.has_editor })
        v

  abbrev pub run : List Action → Registry → Registry
  run [] r = r
  run (a ∷ actions) r = run actions (act knob dial_max_value a r)

  run-IsValid : (actions : List Action) (r : Registry) → IsValid r → IsValid (run actions r)
  run-IsValid [] r v = v
  run-IsValid (a ∷ actions) r v =
      run-IsValid actions (act knob dial_max_value a r) (act-IsValid a r v)

  -- After any sequence of new widgets, closes, clears, freezes, thaws, clicks, edits, error reports
  -- and shown rates, from a page without widgets, every widget is filed under its own id, which its
  -- close button carries too, and has its editor; the ids ascend, stay below the next id, and the
  -- elements stand in the page in their order.
  pub run-empty-IsValid : (actions : List Action) → IsValid (run actions empty)
  run-empty-IsValid actions = run-IsValid actions empty empty-IsValid
