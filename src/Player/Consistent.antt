-- ===== src/Player/Consistent.antt =====
-- What the handlers do to the controls of the page: the running flag, the label of the button, the
-- buttons of the maximum and the settings form.
use workload_simulator.Prelude.{
  ℕ, ◌==◌, ◌≡◌, refl, ap, ◌∙◌, inl, inr, Bool, true, false, not, Option, List, arith, Bool-cases,
  if◌then◌else◌,
}
use workload_simulator.Js.{Scalar, truthy}
use workload_simulator.Js.Parse.{Text}
use workload_simulator.Page.{Page, Label, play, pause}
use workload_simulator.Settings.{get_settings, update_settings}
use workload_simulator.Alerts.{
  Outcome, done, threw, page_of, and_then, PageError, set_loading_status, clear_loading_status,
}
use workload_simulator.Alerts.Frame.{Rest}
use workload_simulator.Player.Frame.{rest-report, rest-show_rates}
use workload_simulator.Player.{
  Answer, Stats, with_player, play_answered, pause_answered, poll_answered, start, stop, set_timer,
  report, send_play, send_pause, press_play, show_rates, record_totals, on_workload_receive,
  on_play_success, on_pause_success,
}

pub record Controls : Type 0 where
  pub running : ℕ
  pub label : Label
  pub enabled : Bool
  pub read_only : Bool

abbrev pub controls : Page → Controls
controls p = record {
  running = p.player.running;
  label = p.player.label;
  enabled = p.form.dial_value_enabled;
  read_only = p.form.read_only;
}

abbrev pub idle : Controls
idle = record { running = 0; label = play; enabled = true; read_only = false }

abbrev pub busy : Controls
busy = record { running = 1; label = pause; enabled = false; read_only = true }

-- The controls are read off what an error report leaves as it was.
abbrev controls_of : Rest → Controls
controls_of s = record {
  running = s.player.running;
  label = s.player.label;
  enabled = s.form.dial_value_enabled;
  read_only = s.form.read_only;
}

pub controls-report :
    (e : Option PageError) (p : Page) → controls (page_of (report e p)) ≡ controls p
controls-report e p = ap controls_of (rest-report e p)

controls-get_settings : (p : Page) → controls (get_settings p).1 ≡ controls p
unfolding get_settings update_settings
controls-get_settings p = ground arith

controls-send_play : (p : Page) → controls (send_play p) ≡ controls p
unfolding send_play set_loading_status get_settings update_settings
controls-send_play p = ground arith

pub controls-send_pause : (p : Page) → controls (send_pause p) ≡ controls p
unfolding send_pause
controls-send_pause p = refl

pub controls-and_then :
    (o : Outcome) (f : Page → Outcome)
    → ((q : Page) → controls (page_of (f q)) ≡ controls q)
    → controls (page_of (and_then o f)) ≡ controls (page_of o)
controls-and_then (done p) f h = h p
controls-and_then (threw p) f h = refl

-- A click on the button leaves the controls as they are until the answer comes.
pub controls-press_play : (p : Page) → controls (press_play p) ≡ controls p
unfolding press_play
controls-press_play p = ground (arith, controls-send_play p, controls-send_pause p)

module _ (knob : Scalar → Text → Text) where
  pub controls-show_rates :
      (stats : List (ℕ × Scalar)) (p : Page)
      → controls (page_of (show_rates knob stats p)) ≡ controls p
  controls-show_rates stats p = ap controls_of (rest-show_rates knob stats p)

  controls-start : (p : Page) → controls (start knob p) ≡ busy
  unfolding start
  controls-start p = refl

  controls-stop : (p : Page) → controls (stop knob p) ≡ idle
  unfolding stop
  controls-stop p = refl

  pub controls-on_play_success :
      (d : Answer) (p : Page)
      → (truthy d.running ≡ true → controls (page_of (on_play_success knob d p)) ≡ busy)
        × (truthy d.running ≡ false
            → controls (page_of (on_play_success knob d p)) ≡ record (controls p) { running = 0 })
  unfolding on_play_success clear_loading_status play_answered
  controls-on_play_success d p = (
    λ t.
        ap
          (λ b.
            controls (page_of (if b then report d.error (start knob q) else report d.error halted)))
          t
        ∙ controls-report d.error (start knob q)
        ∙ controls-start q,
    λ t.
        ap
          (λ b.
            controls (page_of (if b then report d.error (start knob q) else report d.error halted)))
          t
        ∙ controls-report d.error halted,
  )
    where
      q : Page
      q = clear_loading_status (play_answered p)

      halted : Page
      halted = with_player (λ s. record s { running = 0 }) q

  pub controls-on_pause_success :
      (d : Answer) (p : Page)
      → (truthy d.running ≡ false → controls (page_of (on_pause_success knob d p)) ≡ idle)
        × (truthy d.running ≡ true → controls (page_of (on_pause_success knob d p)) ≡ controls p)
  unfolding on_pause_success clear_loading_status pause_answered
  controls-on_pause_success d p = (
    λ t.
        ap
          (λ b.
            controls (page_of (if not b then report d.error (stop knob q) else report d.error q)))
          t
        ∙ controls-report d.error (stop knob q)
        ∙ controls-stop q,
    λ t.
        ap
          (λ b.
            controls (page_of (if not b then report d.error (stop knob q) else report d.error q)))
          t
        ∙ controls-report d.error q,
  )
    where
      q : Page
      q = clear_loading_status (pause_answered p)

  unfoldable pub poll_goes_on : Stats → Page → Outcome
  poll_goes_on d q =
      and_then (show_rates knob d.stats q) (λ r. done (set_timer (record_totals knob d r)))

  unfoldable pub poll_ends : Stats → Page → Outcome
  poll_ends d q = and_then (report d.error q) (λ r. done (send_pause r))

  controls-poll_goes_on :
      (d : Stats) (q : Page) → controls (page_of (poll_goes_on d q)) ≡ controls q
  unfolding poll_goes_on set_timer record_totals
  controls-poll_goes_on d q =
      controls-and_then (show_rates knob d.stats q) (λ r. done (set_timer (record_totals knob d r)))
        (λ r. refl)
      ∙ controls-show_rates d.stats q

  pub controls-poll_ends : (d : Stats) (q : Page) → controls (page_of (poll_ends d q)) ≡ controls q
  unfolding poll_ends
  controls-poll_ends d q =
      controls-and_then (report d.error q) (λ r. done (send_pause r)) controls-send_pause
      ∙ controls-report d.error q

  pub on_workload_receive-cases :
      (d : Stats) (p : Page)
      → on_workload_receive knob d p ≡ (
          if p.player.running == 0
          then done (poll_answered p)
          else (if truthy d.running
              then poll_goes_on d (poll_answered p)
              else poll_ends d (poll_answered p)))
  unfolding on_workload_receive poll_goes_on poll_ends poll_answered
  on_workload_receive-cases d p = elim (Bool-cases (truthy d.running)) [
    | inl t ↦ rw t refl
    | inr t ↦ rw t refl
  ]

  pub controls-on_workload_receive :
      (d : Stats) (p : Page) → controls (page_of (on_workload_receive knob d p)) ≡ controls p
  unfolding poll_answered
  controls-on_workload_receive d p =
      ap (λ o. controls (page_of o)) (on_workload_receive-cases d p)
      ∙ (elim (Bool-cases (p.player.running == 0)) [
        | inl stopped ↦ rw stopped refl
        | inr runs ↦ elim (Bool-cases (truthy d.running)) [
          | inl t ↦ rw (runs, t) (controls-poll_goes_on d (poll_answered p))
          | inr t ↦ rw (runs, t) (controls-poll_ends d (poll_answered p))
        ]
      ])
