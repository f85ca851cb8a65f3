-- ===== src/Earlier.antt =====
-- The front end of the earlier server (stress/static/js), where it is not the one of app/public/js: the
-- version of the server is read off the answer, one graph is drawn, and the requests done are not added
-- up.
pub mod Laws
pub mod Events
use workload_simulator.Prelude.{
  ℕ, ◌==◌, ◌&&◌, ◌||◌, pos, Bool, true, false, not, Option, none, some, List, [], ◌∷◌,
  if◌then◌else◌,
}
use workload_simulator.Js.{Scalar, truthy}
use workload_simulator.Js.Parse.{Text, int, codes, text_eq}
use workload_simulator.Page.{Page}
use workload_simulator.Settings.{
  update_settings, reload_dial_max_value, activate_dial_value, display_settings, hide_settings,
  load_cached_settings,
}
use workload_simulator.Alerts.{Outcome, done, threw, and_then, PageError, create_error}
use workload_simulator.Graph.{record_point}
use workload_simulator.Graph.Config.{ChartConfig, QueryGraph, qps_config, query_graph}
use workload_simulator.Player.{
  Stats, with_player, poll_answered, report, send_pause, show_rates, total_rates, set_timer,
}
use workload_simulator.Console.{
  Console, get_what_sql, answered, continue_init_console, reset_console, on_what_sql_failure,
}

-- `chartConfig`: the configuration of `QPSConfig` with two other texts
abbrev pub chart_config : ChartConfig
chart_config = record qps_config {
  axes = record qps_config.axes { y_title = codes "Queries Per Second" };
  series = record { name = codes "Random data"; points = none } ∷ [];
}

-- `new QueryGraph(title)`
unfoldable pub new_query_graph : Text → QueryGraph
new_query_graph title = query_graph title chart_config

abbrev pub qps_graph : QueryGraph
qps_graph = new_query_graph (codes "Queries Per Second")

-- The answer to the question for the version: an error, or the variables of the server.
pub record VersionAnswer : Type 0 where
  pub error : Option PageError
  pub output : Text

unfoldable pub starts_with : Text → Text → Bool
starts_with [] s = true
starts_with (c ∷ prefix) [] = false
starts_with (c ∷ prefix) (d ∷ s) = (c == d) && starts_with prefix s

-- `text.indexOf(part) != -1`
unfoldable pub includes : Text → Text → Bool
includes part [] = starts_with part []
includes part (c ∷ s) = starts_with part (c ∷ s) || includes part s

unfoldable pub name_of_server : Text → Text
name_of_server output = if includes (codes "MemSQL") output then codes "MemSQL" else codes "MySQL"

unfoldable pub set_what_sql : Text → Console → Console
set_what_sql name c =
    let d : Console = record c { what_sql = name } in
    elim d.jqconsole [
      | none ↦ continue_init_console d
      | some s ↦ if not (text_eq name c.what_sql) then reset_console d else d
    ]

abbrev pub after_report : Console → Outcome → Console × Outcome
after_report c (done q) = (on_what_sql_failure c, done q)
after_report c (threw q) = (answered c, threw q)

-- `onWhatSqlSuccess`
unfoldable pub on_what_sql_success : VersionAnswer → Console × Page → Console × Outcome
on_what_sql_success a (c, p) = elim a.error [
  | some e ↦ after_report c (create_error e p)
  | none ↦ (set_what_sql (name_of_server a.output) (answered c), done p)
]

-- A click on the button of the settings or on the one that closes their form, which also gives the
-- console the focus: with no console the handler stops there.
unfoldable pub press_settings : Console × Page → Console × Outcome
press_settings (c, p) =
    if p.form.shown
    then elim c.jqconsole [
      | none ↦ (c, threw (hide_settings p))
      | some s ↦ (get_what_sql c, done (update_settings (hide_settings p)))
    ]
    else (c, done (display_settings p))

module _ (knob : Scalar → Text → Text) where
  unfoldable pub record_total : Stats → Page → Page
  record_total d p =
      with_player
        (λ s. record s {
          qps_points = record_point p.livemode (total_rates (int (pos 0)) d.stats) s.qps_points;
        })
        p

  -- `onWorkloadReceive`
  unfoldable pub on_workload_receive : Stats → Page → Outcome
  on_workload_receive d p =
      let q : Page = poll_answered p in
      if q.player.running == 0
      then done q
      else (if not (truthy d.running)
          then and_then (report d.error q) (λ r. done (send_pause r))
          else and_then (show_rates knob d.stats q) (λ r. done (set_timer (record_total d r))))

  -- When the page is ready.
  unfoldable pub begin : Console × Page → Console × Page
  begin (c, p) =
      let q : Page = record p { player = record p.player { qps_points = qps_graph.points } } in
      (
        get_what_sql c,
        load_cached_settings knob (activate_dial_value (reload_dial_max_value knob q)),
      )
