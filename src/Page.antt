-- ===== src/Page.antt =====
-- The state of a page: the global variables of app/public/js, the parts of the document that they
-- read and write, and what the browser keeps.
use workload_simulator.Prelude.{ℕ, Bool, Option, List}
use workload_simulator.Js.{Scalar}
use workload_simulator.Js.Parse.{Text, Num}
use workload_simulator.Registry.{Registry}
use workload_simulator.Workload.{Entry}

-- Settings as an object.
abbrev pub SettingsMap : Type 0
SettingsMap = List (Text × Scalar)

-- The settings form: its inputs in the order of the document, whether it is shown and read-only, the
-- maximum of the dials, and the two buttons that step it with the click handlers bound to each.
pub record SettingsForm : Type 0 where
  pub inputs : List (Text × Text)
  pub shown : Bool
  pub read_only : Bool
  pub dial_max_value : Scalar
  pub dial_value_enabled : Bool
  pub up_handlers : ℕ
  pub down_handlers : ℕ
  pub buttons_disabled : Bool
  pub g_settings : Option SettingsMap

-- `localStorage`; a saved text is kept as what it encodes.
pub record Storage : Type 0 where
  pub workload_cache : Option (List (ℕ × Entry))
  pub settings_cache : Option SettingsMap
  pub settings_cache_live : Option SettingsMap

-- A message under `#notifications`; `alert` is the class that marks an error.
pub record Notice : Type 0 where
  pub message : Text
  pub alert : Bool

-- The messages, the input that has the focus, and the text of the loading message while it is shown.
pub record Alerts : Type 0 where
  pub notices : List Notice
  pub focus : Option Text
  pub loading : Option Text

pub data Label : Type 0 where
  play pause : Label

-- A request that the page has sent.
pub data Request : Type 0 where
  post_workload : List (ℕ × Entry) → SettingsMap → Request
  post_pause get_stats : Request

-- The play button, the points of the two graphs, all requests sent so far (the newest first), how
-- many of each kind wait for their answer, and how many timers are set for the next poll.
pub record Player : Type 0 where
  pub running : ℕ
  pub label : Label
  pub qps_points : List Num
  pub lag_points : List Num
  pub sent : List Request
  pub plays : ℕ
  pub pauses : ℕ
  pub polls : ℕ
  pub timers : ℕ

pub record Page : Type 0 where
  pub livemode : Bool
  pub registry : Registry
  pub form : SettingsForm
  pub storage : Storage
  pub alerts : Alerts
  pub player : Player
