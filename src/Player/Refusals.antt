-- ===== src/Player/Refusals.antt =====
-- A play that is refused while a workload runs.
use workload_simulator.Prelude.{
  ℕ, ◌≡◌, sym, ap, ◌∙◌, inl, inr, true, false, List, [], ◌∷◌, arith, All,
}
use workload_simulator.Js.{Scalar, truthy}
use workload_simulator.Js.Parse.{Text}
use workload_simulator.Page.{Page, Label}
use workload_simulator.Player.{Answer, on_timer, on_play_error, on_pause_error, on_poll_error}
use workload_simulator.Player.Consistent.{
  Controls, controls, busy, controls-press_play, controls-on_play_success,
  controls-on_pause_success, controls-on_workload_receive,
}
use workload_simulator.Player.Events.{
  Event, press, timer, play_failed, pause_failed, poll_failed, played, paused, polled, handle,
  IsConsistent,
}
use workload_simulator.Player.Settling.{handle_all}

-- An event that is neither the answer that a play runs nor the answer that nothing runs to a pause.
abbrev pub IsPowerless : Event → Type 0
IsPowerless (played d) = truthy d.running ≡ false
IsPowerless (paused d) = truthy d.running ≡ true
IsPowerless _ = Unit {0}

-- The flag is 0, and the rest as while a workload runs.
abbrev pub mixed : Controls
mixed = record busy { running = 0 }

label_of : Controls → Label
label_of c = c.label

running_of : Controls → ℕ
running_of c = c.running

mixed-IsConsistent : (p : Page) → controls p ≡ mixed → ¬ IsConsistent p
unfolding label_of running_of
mixed-IsConsistent p e = λ h. elim h [
  | inl i ↦ cc (ap label_of (sym e ∙ i))
  | inr b ↦ absurd (omega (arith, ap running_of (sym e ∙ b)))
]

module _ (knob : Scalar → Text → Text) where
  handle-mixed :
      (e : Event) (p : Page)
      → IsPowerless e
      → controls p ≡ mixed
      → controls (handle knob e p) ≡ mixed
  unfolding on_timer on_play_error on_pause_error on_poll_error
  handle-mixed press p a h = controls-press_play p ∙ h
  handle-mixed timer p a h = h
  handle-mixed play_failed p a h = h
  handle-mixed pause_failed p a h = h
  handle-mixed poll_failed p a h = h
  handle-mixed (played d) p a h =
      (controls-on_play_success knob d p).1 a ∙ ap (λ (c : Controls). record c { running = 0 }) h
  handle-mixed (paused d) p a h = (controls-on_pause_success knob d p).1 a ∙ h
  handle-mixed (polled d) p a h = controls-on_workload_receive knob d p ∙ h

  handle_all-mixed :
      (es : List Event) (p : Page)
      → All IsPowerless es
      → controls p ≡ mixed
      → controls (handle_all knob es p) ≡ mixed
  handle_all-mixed [] p a h = h
  handle_all-mixed (e ∷ es) p (now, later) h =
      handle_all-mixed es (handle knob e p) later (handle-mixed e p now h)

  -- A play that the server refuses while a workload runs leaves the page neither idle nor busy: the
  -- flag is 0, but the button says PAUSE and the maximum and the form stay blocked. It stays so through
  -- clicks, timers, polls, failures and further refusals, until a play is accepted or a pause is
  -- answered that nothing runs.
  pub on_play_success-refused :
      (d : Answer) (es : List Event) (p : Page)
      → controls p ≡ busy
      → truthy d.running ≡ false
      → All IsPowerless es
      → (controls (handle_all knob (played d ∷ es) p) ≡ mixed)
        × (¬ IsConsistent (handle_all knob (played d ∷ es) p))
  on_play_success-refused d es p b f a =
      let left : controls (handle knob (played d) p) ≡ mixed =
        (controls-on_play_success knob d p).1 f
        ∙ ap (λ (c : Controls). record c { running = 0 }) b in
      let stays = handle_all-mixed es (handle knob (played d) p) a left in
      (stays, mixed-IsConsistent (handle_all knob (played d ∷ es) p) stays)
