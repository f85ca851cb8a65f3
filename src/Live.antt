-- ===== src/Live.antt =====
-- Live mode (app/public/js/live.js): the widgets of the queries that the server reports.
pub mod Sorting
pub mod Laws
pub mod Descending
pub mod Order
pub mod Totals
use workload_simulator.Prelude.{
  ℕ, zero, suc, reverse, ◌+◌, ◌-◌, ◌==◌, pos, Bool, true, false, not, Option, none, some, List, [],
  ◌∷◌, ◌++◌, if◌then◌else◌, leb,
}
use workload_simulator.Js.{Scalar, num, truthy, num_add, num_lt}
use workload_simulator.Js.Names
use workload_simulator.Js.Parse.{Text, Num, int, codes}
use workload_simulator.Js.Index.{find, put}
use workload_simulator.Dial.{set_dial_value}
use workload_simulator.Widget.{Widget, with_editor, freeze}
use workload_simulator.Registry.{Registry, new_widget, update, delete_widget}
use workload_simulator.Page.{Page, SettingsMap}
use workload_simulator.Workload.{Entry, get_workload}
use workload_simulator.Graph.{record_point}
use workload_simulator.Metrics.{MetricsValues, Rings, update_values, reload_metrics_chart}
use workload_simulator.Settings.{get_settings}
use workload_simulator.Alerts.{
  Outcome, done, threw, and_then, PageError, create_error, set_loading_status, clear_loading_status,
}
use workload_simulator.Player
use workload_simulator.Player.{report, set_timer, poll_answered, with_player}

abbrev pub max_queries : ℕ
max_queries = 24

-- The widgets by signature, each by its id, with the variables `CURRENT_QUERIES`, `resort` and
-- `metricsValues`, the chart once it has been loaded, and the handlers that wait for new settings.
pub record LiveState : Type 0 where
  pub signature_to_widget : List (Text × ℕ)
  pub current_queries : ℕ
  pub resort : ℕ
  pub metrics_values : MetricsValues
  pub chart : Option Rings
  pub waiting : ℕ

-- The answer to a poll: the memory metrics, and the rates by signature.
pub record LiveStats : Type 0 where
  pub running : Scalar
  pub error : Option PageError
  pub metrics : List (Text × Scalar)
  pub plancache : List (Text × Num)

-- The loop that deletes every widget when the user asks to sort again.
unfoldable pub delete_signatures : List (Text × ℕ) → LiveState × Page → LiveState × Page
delete_signatures [] sp = sp
delete_signatures ((signature, id) ∷ rest) (s, p) = delete_signatures rest (
  record s { signature_to_widget = rest; current_queries = s.current_queries - 1 },
  elim (find id p.registry.query_widget_map) [
    | none ↦ p
    | some w ↦ record p { registry = delete_widget w p.registry }
  ],
)

unfoldable pub sort_again : LiveState × Page → LiveState × Page
sort_again (s, p) =
    if s.resort == 1
    then (let (t, q) = delete_signatures s.signature_to_widget (s, p) in
        (record t { resort = 0 }, q))
    else (s, p)

-- `tuples.sort`, ascending by the rates
unfoldable pub insert_rate : Text × Num → List (Text × Num) → List (Text × Num)
insert_rate t [] = t ∷ []
insert_rate t (u ∷ us) = if num_lt u.1 t.1 then u ∷ insert_rate t us else t ∷ u ∷ us

unfoldable pub sort_rates : List (Text × Num) → List (Text × Num)
sort_rates [] = []
sort_rates (t ∷ ts) = insert_rate t (sort_rates ts)

-- The total that the loop over the sorted rates adds up.
unfoldable pub total_qps : Num → List (Text × Num) → Num
total_qps total [] = total
total_qps total ((_, rate) ∷ rates) = total_qps (num_add total rate) rates

-- `updateMetrics`: the chart is drawn from here the first time.
unfoldable pub update_metrics : List (Text × Scalar) → LiveState → LiveState
update_metrics mets s =
    let values = update_values mets in
    record s {
      metrics_values = values;
      chart = elim s.chart [ none ↦ some (reload_metrics_chart values) | some c ↦ some c ];
    }

-- The timer that redraws the chart, and the click on the button that sorts again.
unfoldable pub redraw : LiveState → LiveState
redraw s = record s { chart = some (reload_metrics_chart s.metrics_values) }

unfoldable pub press_resort : LiveState → LiveState
press_resort s = record s { resort = 1 }

-- What the button that saves the workload asks the server for, leaving the page.
unfoldable pub save_workload : Page → (SettingsMap × List (ℕ × Entry)) × Page
save_workload p = let (settings, q) = get_settings p in ((settings, get_workload q.registry), q)

-- `updateWorkloadLoop`: the settings, which go with the poll, are read first.
unfoldable pub update_workload_loop : Page → Page
update_workload_loop p = Player.update_workload_loop (get_settings p).1

-- New settings: every handler that waits sends a poll once.
unfoldable pub settings_updated : ℕ → Page → Page
settings_updated zero p = p
settings_updated (suc n) p = settings_updated n (update_workload_loop p)

unfoldable pub on_settings_updated : LiveState × Page → LiveState × Page
on_settings_updated (s, p) = (record s { waiting = 0 }, settings_updated s.waiting p)

unfoldable pub record_total : Num → Page → Page
record_total total p =
    with_player (λ s. record s { qps_points = record_point p.livemode total s.qps_points }) p

-- When the page is ready: a point 0 and the first poll.
unfoldable pub begin : Page → Page
begin p = update_workload_loop (record_total (int (pos 0)) p)

-- The dialog that a redirected user gets, and cannot leave.
pub record Modal : Type 0 where
  pub keyboard : Bool
  pub static_backdrop : Bool
  pub shown : Bool

unfoldable pub readonly_modal : Bool → Option Modal
readonly_modal redirected =
    if redirected
    then some (record { keyboard = false; static_backdrop = true; shown = true })
    else none

-- The handler waits for new settings, unless the report stopped it.
unfoldable pub wait_after : LiveState → Outcome → LiveState × Outcome
wait_after s (done q) = (record s { waiting = s.waiting + 1 }, done q)
wait_after s (threw q) = (s, threw q)

module _ (knob : Scalar → Text → Text) where
  -- A new widget for the signature, frozen.
  unfoldable pub signature_widget : Text → Page → Page
  unfolding set_loading_status new_widget update with_editor freeze
  signature_widget signature p =
      let q : Page = set_loading_status (codes "Loading queries from MemSQL plancache.") p in
      let limit = q.form.dial_max_value in
      record q {
        registry =
            update q.registry.global_query_id
              (λ w. freeze knob limit (record w {
                codemirror = with_editor (λ e. record e { value = signature }) w.codemirror;
              }))
              (new_widget knob limit q.registry);
      }

  -- `signatureToQueryWidget`: the id of the widget, if there is one, and what it leaves.
  unfoldable pub signature_to_query_widget : Text → LiveState × Page → Option ℕ × (LiveState × Page)
  signature_to_query_widget signature (s, p) = elim (Names.find signature s.signature_to_widget) [
    | some id ↦ (some id, (s, p))
    | none ↦ if leb max_queries s.current_queries then (none, (s, p)) else (
      some p.registry.global_query_id,
      (
        record s {
          signature_to_widget =
              Names.put signature p.registry.global_query_id s.signature_to_widget;
          current_queries = s.current_queries + 1;
        },
        signature_widget signature p,
      ),
    )
  ]

  -- The body of the loop over the sorted rates.
  unfoldable pub show_query : Text → Num → LiveState × Page → LiveState × Page
  show_query signature rate sp =
      let (found, (s, p)) = signature_to_query_widget signature sp in
      elim found [
        | none ↦ (s, p)
        | some id ↦ (
          s,
          record p {
            registry =
                update id (λ w. record w { dial = set_dial_value knob (num rate) w.dial })
                  p.registry;
          },
        )
      ]

  unfoldable pub show_queries : List (Text × Num) → LiveState × Page → LiveState × Page
  show_queries [] sp = sp
  show_queries ((signature, rate) ∷ rates) sp = show_queries rates (show_query signature rate sp)

  -- The part of the handler for a workload that runs.
  unfoldable pub show_stats : LiveStats → LiveState × Page → LiveState × Page
  show_stats d (s, p) =
      let rates = reverse (sort_rates d.plancache) in
      let (t, q) = show_queries rates (sort_again (update_metrics d.metrics s, p)) in
      (t, set_timer (record_total (total_qps (int (pos 0)) rates) (clear_loading_status q)))

  -- `onWorkloadReceive`
  unfoldable pub on_workload_receive : LiveStats → LiveState × Page → LiveState × Outcome
  on_workload_receive d (s, p) =
      if not (truthy d.running)
      then wait_after s (report d.error (poll_answered p))
      else (let (t, q) = show_stats d (s, poll_answered p) in (t, done q))
