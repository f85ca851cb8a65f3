-- ===== src/Player/Events.antt =====
-- What can happen to a page that plays a workload, and what holds between two events.
use workload_simulator.Prelude.{◌≡◌, refl, ap, ◌∙◌, ◌⊎◌, inl, inr, true, Bool-cases}
use workload_simulator.Js.{Scalar, truthy}
use workload_simulator.Js.Parse.{Text}
use workload_simulator.Page.{Page}
use workload_simulator.Alerts.{page_of}
use workload_simulator.Player.{
  Answer, Stats, on_timer, press_play, on_play_error, on_pause_error, on_poll_error,
  on_workload_receive, on_play_success, on_pause_success,
}
use workload_simulator.Player.Consistent.{
  Controls, controls, idle, busy, controls-press_play, controls-on_play_success,
  controls-on_pause_success, controls-on_workload_receive,
}

-- A click on the button, a timer, and the answers.
pub data Event : Type 0 where
  press timer play_failed pause_failed poll_failed : Event
  played paused : Answer → Event
  polled : Stats → Event

abbrev pub IsConsistent : Page → Type 0
IsConsistent p = (controls p ≡ idle) ⊎ (controls p ≡ busy)

-- The server refuses no play while a workload runs.
abbrev pub Accepts : Event → Page → Type 0
Accepts (played d) p = (truthy d.running ≡ true) ⊎ (controls p ≡ idle)
Accepts _ p = Unit {0}

pub consistent_of : {c d : Controls} → d ≡ c → (c ≡ idle) ⊎ (c ≡ busy) → (d ≡ idle) ⊎ (d ≡ busy)
consistent_of e (inl h) = inl (e ∙ h)
consistent_of e (inr h) = inr (e ∙ h)

module _ (knob : Scalar → Text → Text) where
  abbrev pub handle : Event → Page → Page
  handle press p = press_play p
  handle timer p = on_timer p
  handle play_failed p = on_play_error p
  handle pause_failed p = on_pause_error p
  handle poll_failed p = on_poll_error p
  handle (played d) p = page_of (on_play_success knob d p)
  handle (paused d) p = page_of (on_pause_success knob d p)
  handle (polled d) p = page_of (on_workload_receive knob d p)

  -- Between two events the page is either idle (the flag is 0, the button says PLAY, the maximum can
  -- be stepped and the form can be written) or busy (the flag is 1, the button says PAUSE, and both
  -- are blocked), and every event keeps that, errors and failures included, provided that the server
  -- refuses no play while a workload runs.
  pub handle-IsConsistent :
      (e : Event) (p : Page) → Accepts e p → IsConsistent p → IsConsistent (handle e p)
  unfolding on_timer on_play_error on_pause_error on_poll_error
  handle-IsConsistent press p a h = consistent_of (controls-press_play p) h
  handle-IsConsistent timer p a h = consistent_of refl h
  handle-IsConsistent play_failed p a h = consistent_of refl h
  handle-IsConsistent pause_failed p a h = consistent_of refl h
  handle-IsConsistent poll_failed p a h = consistent_of refl h
  handle-IsConsistent (played d) p a h = elim (Bool-cases (truthy d.running)) [
    | inl t ↦ inr ((controls-on_play_success knob d p).0 t)
    | inr f ↦ elim a [
      | inl t ↦ absurd (cc)
      | inr still ↦ inl (
          (controls-on_play_success knob d p).1 f
          ∙ ap (λ (c : Controls). record c { running = 0 }) still)
    ]
  ]
  handle-IsConsistent (paused d) p a h = elim (Bool-cases (truthy d.running)) [
    | inl t ↦ consistent_of ((controls-on_pause_success knob d p).1 t) h
    | inr f ↦ inl ((controls-on_pause_success knob d p).0 f)
  ]
  handle-IsConsistent (polled d) p a h = consistent_of (controls-on_workload_receive knob d p) h
