-- ===== src/Start.antt =====
-- The start of every page (app/public/js/common.js, its ready handler).
pub mod Laws
use workload_simulator.Prelude.{
  ℕ, Bool, true, false, Option, none, some, List, [], ◌∷◌, if◌then◌else◌,
}
use workload_simulator.Js.{Scalar}
use workload_simulator.Js.Parse.{Text, codes}
use workload_simulator.Js.Names
use workload_simulator.Page.{Page}
use workload_simulator.Graph.Config.{QueryGraph, query_graph, qps_config, r_lag_config}
use workload_simulator.Settings.{
  update_settings, reload_dial_max_value, activate_dial_value, display_settings, hide_settings,
  load_cached_settings, set_max_dial_value, number_input,
}
use workload_simulator.Console.{Console, get_what_sql}

abbrev pub qps_graph : QueryGraph
qps_graph = query_graph (codes "Requests Per Second") qps_config

abbrev pub r_lag_graph : QueryGraph
r_lag_graph = query_graph (codes "Requests Lag") r_lag_config

-- The handler of `settingsUpdated`.
unfoldable pub on_settings_updated : Console × Page → Console × Page
on_settings_updated (c, p) = (get_what_sql c, update_settings p)

-- A click on the button of the settings or on the one that closes their form.
unfoldable pub press_settings : Console × Page → Console × Page
press_settings (c, p) =
    if p.form.shown then on_settings_updated (c, hide_settings p) else (c, display_settings p)

module _ (knob : Scalar → Text → Text) where
  -- A change of the input of the maximum.
  unfoldable pub change_number : (Page → Page) → Page → Page
  change_number report p = elim (Names.find number_input p.form.inputs) [
    | none ↦ p
    | some v ↦ set_max_dial_value knob report v p
  ]

  unfoldable pub begin : Page → Page
  begin p =
      let q : Page = record p {
        player = record p.player { qps_points = qps_graph.points; lag_points = r_lag_graph.points };
      } in
      load_cached_settings knob (activate_dial_value (reload_dial_max_value knob q))
