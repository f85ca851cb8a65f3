-- ===== src/Settings.antt =====
-- The settings of a page (app/public/js/common.js, from `updateSettings` to `hideSettings`).
pub mod Limit
use workload_simulator.Prelude.{
  ℕ, ◌+◌, pos, negsuc, Bool, true, false, not, Option, none, some, List, [], ◌∷◌, if◌then◌else◌,
}
use workload_simulator.Js.{
  Scalar, undefined, null, bool, num, str, to_num, to_text, plus, num_add, num_sub, num_rem, num_eq,
}
use workload_simulator.Js.Parse.{Text, Num, nan, int, codes, parse_int, text_eq}
use workload_simulator.Js.Index.{map_values}
use workload_simulator.Js.Names
use workload_simulator.Dial.{Dial, replace_dial}
use workload_simulator.Widget.{Widget}
use workload_simulator.Registry.{Registry}
use workload_simulator.Page.{Page, SettingsForm, SettingsMap, Storage}

abbrev pub max_key : Text
max_key = codes "dial_max_value"

abbrev pub number_input : Text
number_input = codes "qps-number"

-- The loop of `updateSettings` over the inputs of the form.
unfoldable pub read_inputs : List (Text × Text) → SettingsMap → SettingsMap
read_inputs [] s = s
read_inputs ((id, v) ∷ inputs) s = read_inputs inputs (Names.put id (str v) s)

unfoldable pub update_settings : Page → Page
update_settings p = record p {
  form = record form {
    g_settings = some (Names.put max_key form.dial_max_value (read_inputs form.inputs []));
  };
}
  where
    open p use {form}

-- `getSettings`: the settings, and the page, which a first call updates.
unfoldable pub get_settings : Page → SettingsMap × Page
get_settings p = elim p.form.g_settings [
  | some s ↦ (s, p)
  | none ↦
      (Names.put max_key p.form.dial_max_value (read_inputs p.form.inputs []), update_settings p)
]

-- What `JSON.stringify` and `JSON.parse` make of a value: NaN comes back as `null`.
unfoldable pub json : Scalar → Scalar
json (num nan) = null
json v = v

-- The same for an object, whose undefined fields are left out.
unfoldable pub json_map : SettingsMap → SettingsMap
json_map [] = []
json_map ((k, undefined) ∷ s) = json_map s
json_map ((k, v) ∷ s) = (k, json v) ∷ json_map s

unfoldable pub cache_settings : Page → Page
cache_settings p =
    let (s, q) = get_settings p in
    record q {
      storage =
          if q.livemode
          then record q.storage { settings_cache_live = some (json_map s) }
          else record q.storage { settings_cache = some (json_map s) };
    }

-- What an input shows after `.val(v)`.
unfoldable pub val_text : Scalar → Text
val_text undefined = []
val_text null = []
val_text v = to_text v

-- What an input shows after `.attr('value', v)`, where it showed `old`.
unfoldable pub attr_text : Scalar → Text → Text
attr_text undefined old = old
attr_text null old = []
attr_text v old = to_text v

unfoldable pub set_number_input : Scalar → List (Text × Text) → List (Text × Text)
set_number_input v [] = []
set_number_input v ((id, old) ∷ inputs) =
    (id, if text_eq id number_input then attr_text v old else old) ∷ set_number_input v inputs

-- The loop of `loadSettings`.
unfoldable pub write_inputs : SettingsMap → List (Text × Text) → List (Text × Text)
write_inputs [] inputs = inputs
write_inputs ((id, v) ∷ s) inputs = write_inputs s (Names.assign id (val_text v) inputs)

abbrev pub or_undefined : Option Scalar → Scalar
or_undefined none = undefined
or_undefined (some v) = v

-- The new maximum after a press of a button that steps it.
unfoldable pub step_max : Bool → Scalar → Scalar
step_max up v =
    let raised = to_num (plus v (num (int (pos 4999)))) in
    let rounded = num_sub raised (num_rem raised 5000) in
    let stepped =
      if up then num_add rounded (int (pos 5000)) else num_sub rounded (int (pos 5000)) in
    num (if num_eq stepped (int (pos 0)) then int (pos 1) else stepped)

abbrev pub with_max : Scalar → Page → Page
with_max v p = record p { form = record p.form { dial_max_value = v } }

module _ (knob : Scalar → Text → Text) where
  -- A widget whose dial is replaced for the new maximum.
  unfoldable pub redial : Scalar → Widget → Widget
  redial dial_max_value w = record w {
    dial = replace_dial knob dial_max_value false (str w.dial.text);
  }

  unfoldable pub reload_dial_max_value : Page → Page
  reload_dial_max_value p = record p {
    form = record form { inputs = set_number_input form.dial_max_value form.inputs };
    registry = record registry {
      query_widget_map = map_values (redial form.dial_max_value) registry.query_widget_map;
    };
  }
    where
      open p use {form, registry}

  unfoldable pub load_settings : SettingsMap → Page → Page
  load_settings s p =
      let q = reload_dial_max_value (with_max (or_undefined (Names.find max_key s)) p) in
      update_settings (record q { form = record q.form { inputs = write_inputs s q.form.inputs } })

  unfoldable pub load_cached_settings : Page → Page
  load_cached_settings p =
      elim (if p.livemode then p.storage.settings_cache_live else p.storage.settings_cache) [
        | none ↦ p
        | some s ↦ load_settings s p
      ]

  unfoldable pub update_dial_value : Bool → Page → Page
  update_dial_value up p =
      if not p.form.dial_value_enabled
      then p
      else reload_dial_max_value (with_max (step_max up p.form.dial_max_value) p)

  -- `setMaxDialValue`. The test `vInt == NaN` is false for every number, so its branch is never taken.
  unfoldable pub set_max_dial_value : (Page → Page) → Text → Page → Page
  set_max_dial_value report v p =
      if num_eq (parse_int v) nan
      then report p
      else reload_dial_max_value (with_max (num (parse_int v)) p)

unfoldable pub activate_dial_value : Page → Page
activate_dial_value p = record p {
  form = record p.form {
    dial_value_enabled = true;
    up_handlers = 1;
    down_handlers = 1;
    buttons_disabled = false;
  };
}

unfoldable pub deactivate_dial_value : Page → Page
deactivate_dial_value p = record p {
  form = record p.form {
    dial_value_enabled = false;
    up_handlers = 0;
    down_handlers = 0;
    buttons_disabled = true;
  };
}

unfoldable pub display_settings : Page → Page
display_settings p = record p { form = record p.form { shown = true } }

unfoldable pub hide_settings : Page → Page
hide_settings p = record p { form = record p.form { shown = false } }
