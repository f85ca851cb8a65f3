-- ===== src/Player.antt =====
-- The play button and the polling of the rates (app/public/js/stress.js). A handler of an answer runs
-- when the answer arrives; the answers' contents are the server's.
pub mod Frame
pub mod Consistent
pub mod Events
pub mod Polling
pub mod Settling
pub mod Refusals
use workload_simulator.Prelude.{
  ℕ, ◌+◌, ◌-◌, ◌==◌, ℤ, pos, Bool, true, false, not, Option, none, some, List, [], ◌∷◌,
  if◌then◌else◌,
}
use workload_simulator.Js.{Scalar, undefined, to_text, truthy, num, num_add}
use workload_simulator.Js.Parse.{Text, Num, nan, int, codes, parse_float}
use workload_simulator.Js.Index.{find, put, map_values}
use workload_simulator.Dial.{set_dial_value}
use workload_simulator.Widget.{Widget, click}
use workload_simulator.Registry.{Registry, freeze_all, unfreeze_all}
use workload_simulator.Workload.{get_workload}
use workload_simulator.Page.{
  Page, Player, Label, play, pause, Request, post_workload, post_pause, get_stats,
}
use workload_simulator.Settings.{
  get_settings, or_undefined, activate_dial_value, deactivate_dial_value,
}
use workload_simulator.Graph.{record_point, reinit_series}
use workload_simulator.Alerts.{
  Outcome, done, threw, and_then, PageError, create_error, freeze_settings_form,
  unfreeze_settings_form, set_loading_status, clear_loading_status,
}

-- The answer to a play or a pause.
pub record Answer : Type 0 where
  pub running : Scalar
  pub error : Option PageError

-- The answer to a poll: the rates and the requests done, by widget.
pub record Stats : Type 0 where
  pub running : Scalar
  pub error : Option PageError
  pub stats : List (ℕ × Scalar)
  pub rdone : List (ℕ × Scalar)

abbrev pub with_player : (Player → Player) → Page → Page
with_player f p = record p { player = f p.player }

-- `updateWorkloadLoop`: a poll is sent.
unfoldable pub update_workload_loop : Page → Page
update_workload_loop =
    with_player (λ s. record s { sent = get_stats ∷ s.sent; polls = s.polls + 1 })

-- `setTimeout(updateWorkloadLoop, 100)`, and the timer when it fires
unfoldable pub set_timer : Page → Page
set_timer = with_player (λ s. record s { timers = s.timers + 1 })

unfoldable pub on_timer : Page → Page
unfolding update_workload_loop
on_timer p = update_workload_loop (with_player (λ s. record s { timers = s.timers - 1 }) p)

-- `resetButton`
unfoldable pub reset_button : Page → Page
unfolding update_workload_loop
reset_button p =
    if p.player.running == 0
    then with_player (λ s. record s { label = play }) p
    else update_workload_loop (with_player (λ s. record s { label = pause }) p)

abbrev pub report : Option PageError → Page → Outcome
report none p = done p
report (some e) p = create_error e p

-- `play`: every widget is clicked, and the workload and the settings are sent.
unfoldable pub send_play : Page → Page
unfolding set_loading_status
send_play p =
    let clicked : Page = record p {
      registry = record p.registry {
        query_widget_map = map_values click p.registry.query_widget_map;
      };
    } in
    let shown : Page = set_loading_status (codes "Validating Workload") clicked in
    let (settings, q) = get_settings shown in
    with_player
      (λ s. record s {
        sent = post_workload (get_workload q.registry) settings ∷ s.sent;
        plays = s.plays + 1;
      })
      q

-- `pause`
unfoldable pub send_pause : Page → Page
unfolding set_loading_status
send_pause p =
    with_player (λ s. record s { sent = post_pause ∷ s.sent; pauses = s.pauses + 1 })
      (set_loading_status (codes "Pausing Workload.") p)

-- A click on the play button.
unfoldable pub press_play : Page → Page
press_play p =
    if p.player.running == 0
    then send_play p
    else (if p.player.running == 1 then send_pause p else p)

-- An answer, or the failure of its request, has arrived.
unfoldable pub play_answered : Page → Page
play_answered p = with_player (λ s. record s { plays = s.plays - 1 }) p

unfoldable pub pause_answered : Page → Page
pause_answered p = with_player (λ s. record s { pauses = s.pauses - 1 }) p

unfoldable pub poll_answered : Page → Page
poll_answered p = with_player (λ s. record s { polls = s.polls - 1 }) p

-- The error handlers of the two requests.
unfoldable pub on_play_error : Page → Page
unfolding play_answered clear_loading_status
on_play_error p = clear_loading_status (play_answered p)

unfoldable pub on_pause_error : Page → Page
unfolding pause_answered clear_loading_status
on_pause_error p = clear_loading_status (pause_answered p)

-- A poll that fails: `genericError`, and no timer is set.
unfoldable pub on_poll_error : Page → Page
unfolding poll_answered
on_poll_error p = poll_answered p

abbrev pub float_at : Option ℕ → List (ℕ × Scalar) → Num
float_at none o = parse_float (to_text undefined)
float_at (some i) o = parse_float (to_text (or_undefined (find i o)))

-- The total that the loop over the rates adds up.
unfoldable pub total_rates : Num → List (ℕ × Scalar) → Num
total_rates total [] = total
total_rates total ((_, v) ∷ stats) = total_rates (num_add total (parse_float (to_text v))) stats

-- What the loop over the rates leaves in its variable `i`.
unfoldable pub last_key : Option ℕ → List (ℕ × Scalar) → Option ℕ
last_key i [] = i
last_key i ((j, _) ∷ stats) = last_key (some j) stats

-- The loop over `rdone`. Its body reads `rdone[i]`, not `rdone[j]`, with the `i` that the loop over
-- the rates left behind.
unfoldable pub total_rdone : Option ℕ → List (ℕ × Scalar) → Num → List (ℕ × Scalar) → Num
total_rdone i rdone total [] = total
total_rdone i rdone total (_ ∷ rest) = total_rdone i rdone (num_add total (float_at i rdone)) rest

module _ (knob : Scalar → Text → Text) where
  -- `setDialValue` on the widget `w` with the id `i`
  unfoldable pub show_rate : ℕ → Num → Widget → Page → Page
  show_rate i n w p = record p {
    registry = record p.registry {
      query_widget_map =
          put i (record w { dial = set_dial_value knob (num n) w.dial })
            p.registry.query_widget_map;
    };
  }

  -- What the loop over the rates does to the dials. A key with no widget is a TypeError.
  unfoldable pub show_rates : List (ℕ × Scalar) → Page → Outcome
  show_rates [] p = done p
  show_rates ((i, v) ∷ stats) p = elim (find i p.registry.query_widget_map) [
    | none ↦ threw p
    | some w ↦ show_rates stats (show_rate i (parse_float (to_text v)) w p)
  ]

  unfoldable pub record_totals : Stats → Page → Page
  record_totals d p =
      with_player
        (λ s. record s {
          qps_points = record_point p.livemode (total_rates (int (pos 0)) d.stats) s.qps_points;
          lag_points =
              record_point p.livemode
                (total_rdone (last_key none d.stats) d.rdone (int (pos 0)) d.rdone) s.lag_points;
        })
        p

  -- `onWorkloadReceive`
  unfoldable pub on_workload_receive : Stats → Page → Outcome
  on_workload_receive d p =
      let q : Page = poll_answered p in
      if q.player.running == 0
      then done q
      else (if not (truthy d.running)
          then and_then (report d.error q) (λ r. done (send_pause r))
          else and_then (show_rates d.stats q) (λ r. done (set_timer (record_totals d r))))

  -- What the success handler of `play` does if the workload runs.
  unfoldable pub start : Page → Page
  unfolding freeze_settings_form deactivate_dial_value reset_button
  start p =
      let started : Page =
        with_player (λ s. record s { running = 1; qps_points = reinit_series }) p in
      let frozen : Page = record started {
        registry = freeze_all knob started.form.dial_max_value started.registry;
      } in
      reset_button (deactivate_dial_value (freeze_settings_form frozen))

  -- The success handler of `play`.
  unfoldable pub on_play_success : Answer → Page → Outcome
  on_play_success d p =
      let q : Page = clear_loading_status (play_answered p) in
      if truthy d.running
      then report d.error (start q)
      else report d.error (with_player (λ s. record s { running = 0 }) q)

  -- What the success handler of `pause` does if the workload does not run any more.
  unfoldable pub stop : Page → Page
  unfolding unfreeze_settings_form activate_dial_value reset_button
  stop p =
      let stopped : Page = with_player (λ s. record s { running = 0 }) p in
      let thawed : Page = record stopped {
        registry = unfreeze_all knob stopped.form.dial_max_value stopped.registry;
      } in
      reset_button (activate_dial_value (unfreeze_settings_form thawed))

  -- The success handler of `pause`.
  unfoldable pub on_pause_success : Answer → Page → Outcome
  on_pause_success d p =
      let q : Page = clear_loading_status (pause_answered p) in
      if not (truthy d.running) then report d.error (stop q) else report d.error q
