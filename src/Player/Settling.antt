-- ===== src/Player/Settling.antt =====
-- How the polls come to an end: answers and timers with no click of the user in between.
use workload_simulator.Prelude.{
  ℕ, ◌+◌, ◌*◌, ◌≤◌, ◌==◌, ◌≡◌, refl, ap, ◌∙◌, Option, List, [], ◌∷◌, arith, Bool-cases, inl, inr,
  if◌then◌else◌, length,
}
use workload_simulator.Js.{Scalar, truthy}
use workload_simulator.Js.Parse.{Text}
use workload_simulator.Page.{Page, Player}
use workload_simulator.Alerts.{done, page_of, PageError, clear_loading_status}
use workload_simulator.Alerts.Frame.{Rest}
use workload_simulator.Player.Frame.{rest-report}
use workload_simulator.Player.{
  Answer, Stats, on_timer, on_pause_error, on_poll_error, on_pause_success, report,
  on_workload_receive, stop, poll_answered, pause_answered, update_workload_loop,
}
use workload_simulator.Player.Consistent.{
  controls, busy, on_workload_receive-cases, poll_goes_on, poll_ends,
}
use workload_simulator.Player.Events.{
  Event, press, timer, play_failed, pause_failed, poll_failed, played, paused, polled, handle,
}

-- What may happen without the user: an answer arrives for a request that waits for one, and a timer
-- that is set fires.
abbrev pub Enabled : Event → Page → Type 0
Enabled press p = ⊥
Enabled timer p = 1 ≤ p.player.timers
Enabled play_failed p = 1 ≤ p.player.plays
Enabled (played _) p = 1 ≤ p.player.plays
Enabled pause_failed p = 1 ≤ p.player.pauses
Enabled (paused _) p = 1 ≤ p.player.pauses
Enabled poll_failed p = 1 ≤ p.player.polls
Enabled (polled _) p = 1 ≤ p.player.polls

-- The answers that the page waits for, and the timers, each of which asks for one more.
abbrev pub waiting : Page → ℕ
waiting p = p.player.polls + p.player.pauses + 2 * p.player.timers

-- No workload runs, and no play waits for its answer.
pub record IsSettled (p : Page) : Type 0 where
  pub halted : p.player.running ≡ 0
  pub none_asked : p.player.plays ≡ 0

-- The player after an answer: it waits for less than before, and is as settled.
abbrev Drops : Player → Player → Type 0
Drops s t =
    (1 + (t.polls + t.pauses + 2 * t.timers) ≤ s.polls + s.pauses + 2 * s.timers)
    × (t.running ≡ 0)
    × (t.plays ≡ 0)

player-report : (e : Option PageError) (p : Page) → (page_of (report e p)).player ≡ p.player
player-report e p = ap (λ (s : Rest). s.player) (rest-report e p)

module _ (knob : Scalar → Text → Text) where
  on_pause_success-Drops :
      (d : Answer) (p : Page)
      → 1 ≤ p.player.pauses
      → IsSettled p
      → Drops p.player (page_of (on_pause_success knob d p)).player
  unfolding on_pause_success clear_loading_status pause_answered stop
  on_pause_success-Drops d p h z = elim (Bool-cases (truthy d.running)) [
    | inl t ↦ rw (t, player-report d.error) (omega arith, z.halted, z.none_asked)
    | inr t ↦ rw (t, player-report d.error) (omega arith, refl, z.none_asked)
  ]

  on_workload_receive-settled :
      (d : Stats) (p : Page)
      → p.player.running ≡ 0
      → on_workload_receive knob d p ≡ done (poll_answered p)
  on_workload_receive-settled d p halted =
      on_workload_receive-cases knob d p
      ∙ ap
          (λ (n : ℕ).
            if n == 0
            then done (poll_answered p)
            else (if truthy d.running
                then poll_goes_on knob d (poll_answered p)
                else poll_ends knob d (poll_answered p)))
          halted

  handle-Drops :
      (e : Event) (p : Page) → Enabled e p → IsSettled p → Drops p.player (handle knob e p).player
  unfolding on_timer update_workload_loop on_pause_error on_poll_error poll_answered pause_answered
      clear_loading_status
  handle-Drops press p h z = elim h [ ]
  handle-Drops timer p h z = (omega arith, z.halted, z.none_asked)
  handle-Drops play_failed p h z = absurd (omega (arith, z.none_asked))
  handle-Drops (played d) p h z = absurd (omega (arith, z.none_asked))
  handle-Drops pause_failed p h z = (omega arith, z.halted, z.none_asked)
  handle-Drops (paused d) p h z = on_pause_success-Drops d p h z
  handle-Drops poll_failed p h z = (omega arith, z.halted, z.none_asked)
  handle-Drops (polled d) p h z =
      rw (on_workload_receive-settled d p z.halted) (omega arith, z.halted, z.none_asked)

  abbrev pub handle_all : List Event → Page → Page
  handle_all [] p = p
  handle_all (e ∷ es) p = handle_all es (handle knob e p)

  -- Each event may happen when it happens.
  abbrev pub Happens : List Event → Page → Type 0
  Happens [] p = Unit
  Happens (e ∷ es) p = Enabled e p × Happens es (handle knob e p)

  -- Once no workload runs and no play waits for its answer, nothing starts a new loop of polls:
  -- without a click of the user no more events can happen than there are answers to wait for and
  -- twice the timers, whatever the answers are, and it stays so.
  pub handle_all-settles :
      (es : List Event) (p : Page)
      → IsSettled p
      → Happens es p
      → (length es + waiting (handle_all es p) ≤ waiting p) × IsSettled (handle_all es p)
  handle_all-settles [] p z h = (omega arith, z)
  handle_all-settles (e ∷ es) p z (now, h) =
      let (less, halted, none_asked) = handle-Drops e p now z in
      let (rest_less, settled) =
        handle_all-settles es (handle knob e p)
          (record { halted = halted; none_asked = none_asked }) h in
      (omega (arith, less, rest_less), settled)

  -- No poll and no play waits for its answer, and no timer is set.
  abbrev IsSilent : Player → Type 0
  IsSilent s = (s.polls ≡ 0) × (s.timers ≡ 0) × (s.plays ≡ 0)

  on_pause_success-IsSilent :
      (d : Answer) (p : Page)
      → IsSilent p.player
      → IsSilent (page_of (on_pause_success knob d p)).player
        × ((page_of (on_pause_success knob d p)).player.qps_points ≡ p.player.qps_points)
  unfolding on_pause_success clear_loading_status pause_answered stop
  on_pause_success-IsSilent d p s = elim (Bool-cases (truthy d.running)) [
    | inl t ↦ rw (t, player-report d.error) (s, refl)
    | inr t ↦ rw (t, player-report d.error) (s, refl)
  ]

  handle-IsSilent :
      (e : Event) (p : Page)
      → Enabled e p
      → IsSilent p.player
      → IsSilent (handle knob e p).player
        × ((handle knob e p).player.qps_points ≡ p.player.qps_points)
  unfolding on_pause_error pause_answered clear_loading_status
  handle-IsSilent press p h s = elim h [ ]
  handle-IsSilent timer p h (_, s, _) = absurd (omega (arith, h, s))
  handle-IsSilent play_failed p h (_, _, s) = absurd (omega (arith, h, s))
  handle-IsSilent (played d) p h (_, _, s) = absurd (omega (arith, h, s))
  handle-IsSilent pause_failed p h s = (s, refl)
  handle-IsSilent (paused d) p h s = on_pause_success-IsSilent d p s
  handle-IsSilent poll_failed p h (s, _, _) = absurd (omega (arith, h, s))
  handle-IsSilent (polled d) p h (s, _, _) = absurd (omega (arith, h, s))

  handle_all-IsSilent :
      (es : List Event) (p : Page)
      → IsSilent p.player
      → Happens es p
      → (handle_all es p).player.qps_points ≡ p.player.qps_points
  handle_all-IsSilent [] p s h = refl
  handle_all-IsSilent (e ∷ es) p s (now, h) =
      let (t, same) = handle-IsSilent e p now s in
      handle_all-IsSilent es (handle knob e p) t h ∙ same

  -- The failure of the only poll ends the polling of a page that still says PAUSE: no rate is
  -- recorded any more, whatever else happens, until the user clicks.
  pub on_poll_error-silences :
      (es : List Event) (p : Page)
      → controls p ≡ busy
      → p.player.polls ≡ 1
      → p.player.timers ≡ 0
      → p.player.plays ≡ 0
      → Happens es (on_poll_error p)
      → (controls (on_poll_error p) ≡ busy)
        × ((handle_all es (on_poll_error p)).player.qps_points ≡ p.player.qps_points)
  unfolding on_poll_error poll_answered
  on_poll_error-silences es p b one no_timer no_play h =
      (b, handle_all-IsSilent es (on_poll_error p) (omega arith, no_timer, no_play) h)
