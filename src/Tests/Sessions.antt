-- ===== src/Tests/Sessions.antt =====
-- Session files, the start of the page, the server watch and the console at concrete inputs.
use workload_simulator.Prelude.{
  ◌+◌, ◌≡◌, ◌⊎◌, refl, Bool, none, some, [], ◌∷◌, pos, true, false, arith, All, eq_ℤ,
}
use workload_simulator.Js.{Scalar, num, eq_num, to_num, floor}
use workload_simulator.Js.Index.{put}
use workload_simulator.Js.Parse.{text_eq, Text, int, codes, parse_int, show, text_eq}
use workload_simulator.Dial.{KnobKeeps, replace_dial}
use workload_simulator.Widget.{initialize}
use workload_simulator.Registry.{empty, new_widget}
use workload_simulator.Registry.Invariant.{IsValid, empty-IsValid, new_widget-IsValid}
use workload_simulator.Workload.{cached_workload, collect_all, add_cached}
use workload_simulator.Workload.RoundTrip.{values, InRange, in_range}
use workload_simulator.Page.{Page, SettingsMap}
use workload_simulator.Settings.{cache_settings, update_settings, load_cached_settings}
use workload_simulator.Start.Laws.{no_inputs, input, load_cached_settings-cache_settings}
use workload_simulator.Alerts.{done, threw, notify}
use workload_simulator.Session.{
  FileWorkload, Contents, object, read_session_file, invalid_file, cache_workload, all_select,
  handle_upload, begin,
}
use workload_simulator.Session.Laws.{Lacks, handle_upload-IsValid, begin-cache_workload}
use workload_simulator.Watch
use workload_simulator.Watch.{Watch, watch, tick, leave, answered}
use workload_simulator.Watch.Laws.{run-stopped}
use workload_simulator.Tests.Playing.{quiet}

abbrev plain_knob : Scalar → Text → Text
plain_knob limit text = text

plain_knob-keeps : KnobKeeps plain_knob
plain_knob-keeps = record { keeps = λ m n h. refl }

abbrev limit : Scalar
limit = num (int (pos 10000))

quiet-IsValid : IsValid quiet.registry
quiet-IsValid = new_widget-IsValid plain_knob limit empty empty-IsValid

-- A file with an entry that has no query.
abbrev incomplete : Contents
incomplete = object (some []) (
    some (record {
      indexed = (0, some (record { query = none; qps = num (int (pos 5)) })) ∷ [];
      named = [];
    }))

abbrev any_id : Text → Bool
any_id id = true

handle_upload-IsValid_example :
    ((read_session_file incomplete ≡ none)
      × (handle_upload plain_knob any_id (some incomplete) quiet
          ≡ threw (notify false invalid_file quiet)))
    ⊎ ((settings : SettingsMap) × (w : FileWorkload) × (q : Page) × (read_session_file incomplete
          ≡ some (settings, w))
        × ((all_select any_id settings ≡ false) ⊎ Lacks w.indexed)
        × (handle_upload plain_knob any_id (some incomplete) quiet ≡ threw q)
        × IsValid q.registry
        × (q.storage.workload_cache ≡ quiet.storage.workload_cache))
    ⊎ ((q : Page) × (handle_upload plain_knob any_id (some incomplete) quiet ≡ done q)
        × IsValid q.registry
        × (q.storage.workload_cache ≡ some (cached_workload q.registry)))
handle_upload-IsValid_example =
    handle_upload-IsValid plain_knob any_id incomplete quiet quiet-IsValid

quiet-InRange : All (InRange 10000) (values (cached_workload quiet.registry))
unfolding cached_workload collect_all add_cached new_widget put initialize replace_dial eq_num
    to_num floor parse_int show eq_ℤ
quiet-InRange = (in_range 0 (omega arith) refl, tt)

-- The page after a reload, before it starts.
abbrev reloaded : Page
reloaded = record quiet { registry = empty; storage = (cache_workload quiet).storage }

begin-cache_workload_example :
    (values (cached_workload (begin plain_knob reloaded).registry)
      ≡ values (cached_workload quiet.registry))
    × ((begin plain_knob reloaded).player.pauses ≡ quiet.player.pauses + 1)
unfolding cache_workload
begin-cache_workload_example =
    begin-cache_workload plain_knob plain_knob-keeps 10000 quiet reloaded quiet-IsValid
      empty-IsValid refl refl quiet-InRange

run-stopped_example :
    ((Watch.run (answered (some (codes "Bad Gateway")) ∷ tick ∷ leave ∷ []) watch).pinging_stopped
      ≡ true)
    × ((Watch.run (answered (some (codes "Bad Gateway")) ∷ tick ∷ leave ∷ []) watch).pings ≡ 0)
    × ((Watch.run (answered (some (codes "Bad Gateway")) ∷ tick ∷ leave ∷ []) watch).unloads ≡ 0)
unfolding text_eq Watch.on_ping_response Watch.on_ping_failure
run-stopped_example =
    run-stopped (answered (some (codes "Bad Gateway"))) (tick ∷ leave ∷ []) watch refl

-- The next page, whose form shows what the document has.
abbrev next_page : Page
next_page = record quiet {
  form = record quiet.form {
    inputs = (codes "qps-number", codes "1") ∷ [];
    dial_max_value = num (int (pos 7));
  };
  storage = (cache_settings (update_settings quiet)).storage;
}

load_cached_settings-cache_settings_example :
    ((load_cached_settings plain_knob next_page).form.inputs ≡ quiet.form.inputs)
    × ((load_cached_settings plain_knob next_page).form.dial_max_value ≡ num (int (pos 10000)))
unfolding text_eq
load_cached_settings-cache_settings_example =
    load_cached_settings-cache_settings plain_knob quiet next_page (pos 10000) refl (tt, refl, tt)
      (input no_inputs) refl refl
