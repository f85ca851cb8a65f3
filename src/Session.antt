-- ===== src/Session.antt =====
-- The session of the player page (app/public/js/stress.js, from `clearWorkload` to the end): session
-- files, the saved workload, and the start of the page.
pub mod Laws
use workload_simulator.Prelude.{
  ℕ, zero, suc, ◌==◌, ◌&&◌, Bool, true, false, pos, Option, none, some, List, [], ◌∷◌, map,
  if◌then◌else◌,
}
use workload_simulator.Js.{Scalar, num}
use workload_simulator.Js.Parse.{Text, int, codes}
use workload_simulator.Registry.{Registry, new_widget, clear_query_widgets}
use workload_simulator.Workload.{
  Workload, Entry, get_workload, cached_workload, load_workload, parsed, load_slot, rounds,
  max_index,
}
use workload_simulator.Page.{Page, SettingsMap, play}
use workload_simulator.Settings.{
  max_key, get_settings, cache_settings, load_settings, reload_dial_max_value, with_max,
  or_undefined, write_inputs,
}
use workload_simulator.Js.Index.{find, map_values}
use workload_simulator.Js.Names
use workload_simulator.Alerts.{Outcome, done, threw, and_then, PageError, er_js, create_error}
use workload_simulator.Player.{send_pause, with_player}

-- An entry of the workload of a file, whose query may be missing or no text.
pub record FileEntry : Type 0 where
  pub query : Option Text
  pub qps : Scalar

-- The workload of a file, by its keys as in `Workload`.
pub record FileWorkload : Type 0 where
  pub indexed : List (ℕ × Option FileEntry)
  pub named : List (Text × Option FileEntry)

-- A file that the user chose: no JSON, or an object with its settings and its workload, where it has
-- them.
pub data Contents : Type 0 where
  no_json : Contents
  object : Option SettingsMap → Option FileWorkload → Contents

-- `readSessionFile`, `none` where it throws
unfoldable pub read_session_file : Contents → Option (SettingsMap × FileWorkload)
read_session_file (object (some settings) (some workload)) = some (settings, workload)
read_session_file _ = none

abbrev pub invalid_file : PageError
invalid_file = record {
  errno = num (int (pos er_js));
  message = codes "Invalid workload file";
  query_map = [];
}

-- `cacheWorkload`
unfoldable pub cache_workload : Page → Page
cache_workload p = record p {
  storage = record p.storage { workload_cache = some (cached_workload p.registry) };
}

-- `clearWorkload`
unfoldable pub clear_workload : Page → Page
clear_workload p = record p {
  registry = clear_query_widgets p.registry;
  storage = record p.storage { workload_cache = none };
}

-- What the button that saves the workload sends, and the page, which a first reading of the settings
-- updates.
unfoldable pub save_workload : Page → (SettingsMap × List (ℕ × Entry)) × Page
save_workload p = let (settings, q) = get_settings p in ((settings, get_workload q.registry), q)

-- The slot of an entry of a file; `none` where its query is no text.
abbrev pub slot_of : Option (Option FileEntry) → Option (Option (Option Entry))
slot_of none = some none
slot_of (some none) = some (some none)
slot_of (some (some e)) = elim e.query [
  | none ↦ none
  | some query ↦ some (some (some (record { query = query; qps = e.qps })))
]

-- The keys of a workload, which are all that the first loop of `loadWorkload` reads.
abbrev pub keys_of : FileWorkload → Workload
keys_of w = record {
  indexed = map_values (λ _. none) w.indexed;
  named = map (λ t. (t.0, none)) w.named;
}

unfoldable pub all_select : (Text → Bool) → SettingsMap → Bool
all_select selects [] = true
all_select selects ((id, _) ∷ s) = selects id && all_select selects s

-- The settings before the first key that makes no selector.
unfoldable pub before_bad : (Text → Bool) → SettingsMap → SettingsMap
before_bad selects [] = []
before_bad selects ((id, v) ∷ s) =
    let rest = before_bad selects s in if selects id then (id, v) ∷ rest else []

module _ (knob : Scalar → Text → Text) where
  unfoldable pub load_into : Workload → Page → Page
  load_into w p = record p { registry = load_workload knob p.form.dial_max_value w p.registry }

  -- The second loop of `loadWorkload` over the workload of a file, and whether it comes to its end. The
  -- editor throws when the value that it is given is no text; its widget is there by then.
  unfoldable pub load_file_from :
      Scalar → ℕ → ℕ → List (ℕ × Option FileEntry) → Registry → Bool × Registry
  load_file_from limit zero i w r = (true, r)
  load_file_from limit (suc n) i w r = elim (slot_of (find i w)) [
    | none ↦ (false, new_widget knob limit r)
    | some slot ↦ load_file_from limit n (suc i) w (load_slot knob limit slot r)
  ]

  abbrev pub ended : Bool → Page → Outcome
  ended whole p = if whole then done p else threw p

  -- `loadWorkload` for the workload of a file
  unfoldable pub load_file : FileWorkload → Page → Outcome
  load_file w p =
      let (whole, r) =
        load_file_from p.form.dial_max_value (rounds (max_index (keys_of w))) 0 w.indexed
          (clear_query_widgets p.registry) in
      ended whole (record p { registry = r })

  -- What `loadSettings` has done when it throws at a key that makes no selector.
  abbrev pub partly_set : (Text → Bool) → SettingsMap → Page → Page
  partly_set selects s p =
      let q = reload_dial_max_value knob (with_max (or_undefined (Names.find max_key s)) p) in
      record q {
        form = record q.form { inputs = write_inputs (before_bad selects s) q.form.inputs };
      }

  -- `loadSettings` for the settings of a file, with the keys that make a selector after a `#`, for which
  -- the library that looks for the inputs does not throw.
  unfoldable pub load_file_settings : (Text → Bool) → SettingsMap → Page → Outcome
  load_file_settings selects s p =
      if all_select selects s then done (load_settings knob s p) else threw (partly_set selects s p)

  unfoldable pub load_session : (Text → Bool) → SettingsMap → FileWorkload → Page → Outcome
  load_session selects settings w p =
      and_then (load_file_settings selects settings p)
        (λ q. and_then (load_file w q) (λ r. done (cache_workload (cache_settings r))))

  -- `handleUpload`, when the file has been read. After a file that is refused the handler reads the
  -- settings of `null`, which throws.
  unfoldable pub handle_upload : (Text → Bool) → Option Contents → Page → Outcome
  handle_upload selects none p = done p
  handle_upload selects (some contents) p = elim (read_session_file contents) [
    | none ↦ and_then (create_error invalid_file p) threw
    | some (settings, w) ↦ load_session selects settings w p
  ]

  unfoldable pub add_widget : Page → Page
  add_widget p = record p { registry = new_widget knob p.form.dial_max_value p.registry }

  -- A click on the button that adds a widget.
  unfoldable pub press_new_widget : Page → Page
  press_new_widget p = if p.player.running == 0 then add_widget p else p

  -- The part of the start that builds the widgets.
  unfoldable pub restore_workload : Page → Page
  restore_workload p = elim p.storage.workload_cache [
    | some saved ↦ load_into (parsed saved) p
    | none ↦ add_widget p
  ]

  -- When the page is ready: the play button, the widgets, and a pause.
  unfoldable pub begin : Page → Page
  begin p =
      send_pause (restore_workload (with_player (λ s. record s { running = 0; label = play }) p))
