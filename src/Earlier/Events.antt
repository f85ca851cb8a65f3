-- ===== src/Earlier/Events.antt =====
-- What can happen to a player page of the earlier server, whose play button is that of Player.
use workload_simulator.Prelude.{◌≡◌, refl, ◌∙◌, inl, inr, ◌==◌, Bool-cases}
use workload_simulator.Js.{Scalar, truthy}
use workload_simulator.Js.Parse.{Text}
use workload_simulator.Page.{Page}
use workload_simulator.Alerts.{done, page_of}
use workload_simulator.Player.{Stats, poll_answered, show_rates, set_timer}
use workload_simulator.Player.Consistent.{
  controls, controls-and_then, controls-show_rates, poll_ends, controls-poll_ends,
}
use workload_simulator.Player.Events
use workload_simulator.Player.Events.{
  Event, press, timer, play_failed, pause_failed, poll_failed, played, paused, polled, IsConsistent,
  Accepts, consistent_of, handle-IsConsistent,
}
use workload_simulator.Earlier.{record_total, on_workload_receive}

module _ (knob : Scalar → Text → Text) where
  -- The answer to a poll has a handler of its own.
  unfoldable pub on_event : Event → Page → Page
  on_event (polled d) p = page_of (on_workload_receive knob d p)
  on_event e p = Events.handle knob e p

  controls-on_workload_receive :
      (d : Stats) (p : Page) → controls (page_of (on_workload_receive knob d p)) ≡ controls p
  unfolding on_workload_receive poll_answered set_timer record_total poll_ends
  controls-on_workload_receive d p = elim (Bool-cases (p.player.running == 0)) [
    | inl stopped ↦ rw stopped refl
    | inr runs ↦ elim (Bool-cases (truthy d.running)) [
      | inl t ↦
          rw (runs, t)
            (controls-and_then (show_rates knob d.stats (poll_answered p))
                (λ r. done (set_timer (record_total knob d r))) (λ r. refl)
              ∙ controls-show_rates knob d.stats (poll_answered p))
      | inr t ↦ rw (runs, t) (controls-poll_ends knob d (poll_answered p))
    ]
  ]

  -- On a player page of the earlier server, too, every event keeps the page idle or busy, provided
  -- that the server refuses no play while a workload runs.
  pub on_event-IsConsistent :
      (e : Event) (p : Page) → Accepts e p → IsConsistent p → IsConsistent (on_event e p)
  unfolding on_event
  on_event-IsConsistent (polled d) p a h = consistent_of (controls-on_workload_receive d p) h
  on_event-IsConsistent press p a h = handle-IsConsistent knob press p a h
  on_event-IsConsistent timer p a h = handle-IsConsistent knob timer p a h
  on_event-IsConsistent play_failed p a h = handle-IsConsistent knob play_failed p a h
  on_event-IsConsistent pause_failed p a h = handle-IsConsistent knob pause_failed p a h
  on_event-IsConsistent poll_failed p a h = handle-IsConsistent knob poll_failed p a h
  on_event-IsConsistent (played d) p a h = handle-IsConsistent knob (played d) p a h
  on_event-IsConsistent (paused d) p a h = handle-IsConsistent knob (paused d) p a h
