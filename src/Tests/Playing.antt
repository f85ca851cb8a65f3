-- ===== src/Tests/Playing.antt =====
-- The player, the maximum of the dials and the errors at concrete inputs.
use workload_simulator.Prelude.{
  pos, ◌+◌, ◌≤◌, ◌≡◌, refl, none, some, List, [], ◌∷◌, true, false, arith, length, inl, inr,
}
use workload_simulator.Js.{Scalar, num, bool, truthy}
use workload_simulator.Js.Parse.{Text, nan, int, codes, parse_int}
use workload_simulator.Registry.{empty, new_widget}
use workload_simulator.Page.{Page, play, pause}
use workload_simulator.Alerts.{clear_loading_status}
use workload_simulator.Settings.{set_max_dial_value}
use workload_simulator.Settings.Limit.{
  IsStepped, press_all, press_all-IsStepped, set_max_dial_value-nan,
}
use workload_simulator.Player.{
  Answer, Stats, poll_answered, on_timer, update_workload_loop, on_pause_success, on_poll_error,
  pause_answered, stop,
}
use workload_simulator.Player.Consistent.{controls, busy}
use workload_simulator.Player.Events.{
  Event, handle, press, played, timer, paused, polled, IsConsistent, handle-IsConsistent,
}
use workload_simulator.Player.Refusals.{mixed, on_play_success-refused}
use workload_simulator.Player.Settling.{
  waiting, IsSettled, handle_all, handle_all-settles, on_poll_error-silences,
}
use workload_simulator.Player.Polling.{loops, pause_and_play, loops-pause_and_play}

abbrev plain_knob : Scalar → Text → Text
plain_knob limit text = text

abbrev limit : Scalar
limit = num (int (pos 10000))

-- A page with one widget that plays nothing.
abbrev pub quiet : Page
quiet = record {
  livemode = false;
  registry = new_widget plain_knob limit empty;
  form = record {
    inputs = (codes "qps-number", codes "10000") ∷ [];
    shown = false;
    read_only = false;
    dial_max_value = limit;
    dial_value_enabled = true;
    up_handlers = 1;
    down_handlers = 1;
    buttons_disabled = false;
    g_settings = some [];
  };
  storage = record { workload_cache = none; settings_cache = none; settings_cache_live = none };
  alerts = record { notices = []; focus = none; loading = none };
  player = record {
    running = 0;
    label = play;
    qps_points = [];
    lag_points = [];
    sent = [];
    plays = 1;
    pauses = 0;
    polls = 0;
    timers = 0;
  };
}

abbrev yes_answer : Answer
yes_answer = record { running = bool true; error = none }

abbrev no_answer : Answer
no_answer = record { running = bool false; error = none }

-- The same page while it plays, with one poll under way.
abbrev pub playing : Page
playing = record quiet {
  form = record quiet.form { dial_value_enabled = false; read_only = true };
  player = record quiet.player { running = 1; label = pause; plays = 0; polls = 1 };
}

handle-IsConsistent_example : IsConsistent (handle plain_knob (played no_answer) quiet)
handle-IsConsistent_example =
    handle-IsConsistent plain_knob (played no_answer) quiet (inr refl) (inl refl)

on_play_success-refused_example :
    (controls
        (handle_all plain_knob (played no_answer ∷ press ∷ timer ∷ played no_answer ∷ []) playing)
      ≡ mixed)
    × (¬ IsConsistent
        (handle_all plain_knob (played no_answer ∷ press ∷ timer ∷ played no_answer ∷ []) playing))
unfolding truthy
on_play_success-refused_example =
    on_play_success-refused plain_knob no_answer (press ∷ timer ∷ played no_answer ∷ []) playing
      refl refl (tt, (tt, (refl, tt)))

loops-pause_and_play_example :
    (controls (pause_and_play plain_knob no_answer yes_answer playing) ≡ busy)
    × (loops (pause_and_play plain_knob no_answer yes_answer playing) ≡ loops playing + 1)
unfolding truthy
loops-pause_and_play_example =
    loops-pause_and_play plain_knob no_answer yes_answer playing refl refl

abbrev rates : Stats
rates = record {
  running = bool true;
  error = none;
  stats = (0, num (int (pos 120))) ∷ [];
  rdone = (0, num (int (pos 60))) ∷ [];
}

-- The workload was paused, with an earlier loop's timer and a second pause under way.
abbrev paused_page : Page
paused_page = record quiet { player = record quiet.player { plays = 0; pauses = 1; timers = 1 } }

abbrev quiet_events : List Event
quiet_events = timer ∷ paused no_answer ∷ polled rates ∷ []

handle_all-settles_example :
    (length quiet_events + waiting (handle_all plain_knob quiet_events paused_page)
      ≤ waiting paused_page)
    × IsSettled (handle_all plain_knob quiet_events paused_page)
unfolding on_timer update_workload_loop on_pause_success clear_loading_status pause_answered truthy
    stop
handle_all-settles_example =
    handle_all-settles plain_knob quiet_events paused_page
      (record { halted = refl; none_asked = refl }) (omega arith, (omega arith, (omega arith, tt)))

abbrev pausing : Page
pausing = record playing { player = record playing.player { pauses = 1 } }

on_poll_error-silences_example :
    (controls (on_poll_error pausing) ≡ busy)
    × ((handle_all plain_knob (paused no_answer ∷ []) (on_poll_error pausing)).player.qps_points
        ≡ [])
unfolding on_poll_error poll_answered
on_poll_error-silences_example =
    on_poll_error-silences plain_knob (paused no_answer ∷ []) pausing refl refl refl refl
      (omega arith, tt)

press_all-IsStepped_example :
    IsStepped (press_all plain_knob (true ∷ false ∷ false ∷ []) quiet).form.dial_max_value
press_all-IsStepped_example =
    press_all-IsStepped plain_knob true (false ∷ false ∷ []) quiet 10000 refl refl (omega arith)

set_max_dial_value-nan_example :
    (set_max_dial_value plain_knob (λ p. p) (codes "many") quiet
      ≡ set_max_dial_value plain_knob (λ p. record p { livemode = true }) (codes "many") quiet)
    × ((press_all plain_knob
          (true ∷ false ∷ [])
          (set_max_dial_value plain_knob (λ p. p) (codes "many") quiet)).form.dial_max_value
        ≡ num nan)
unfolding parse_int
set_max_dial_value-nan_example =
    set_max_dial_value-nan plain_knob (λ p. p) (λ p. record p { livemode = true }) (codes "many")
      (true ∷ false ∷ []) quiet refl
