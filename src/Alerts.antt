-- ===== src/Alerts.antt =====
-- Error messages (app/public/js/common.js, from `genericError` to `clearLoadingStatus`).
pub mod Frame
use workload_simulator.Prelude.{
  ℕ, Bool, true, false, ◌||◌, Option, none, some, List, [], ◌∷◌, ◌++◌, if◌then◌else◌, pos,
}
use workload_simulator.Js.{Scalar, eq_num}
use workload_simulator.Js.Parse.{Text, codes, int}
use workload_simulator.Js.Index.{find, put}
use workload_simulator.Widget.{highlight_error}
use workload_simulator.Page.{Page, Notice}
use workload_simulator.Settings.{display_settings}

-- What a handler leaves: the page, and whether it stopped with an exception.
pub data Outcome : Type 0 where
  done : Page → Outcome
  threw : Page → Outcome

abbrev pub page_of : Outcome → Page
page_of (done p) = p
page_of (threw p) = p

abbrev pub and_then : Outcome → (Page → Outcome) → Outcome
and_then (done p) f = f p
and_then (threw p) f = threw p

abbrev pub er_unknown : ℕ
er_unknown = 0

abbrev pub er_dbconn : ℕ
er_dbconn = 1

abbrev pub er_dbname : ℕ
er_dbname = 2

abbrev pub er_js : ℕ
er_js = 3

abbrev pub er_query : ℕ
er_query = 4

abbrev pub er_settings : ℕ
er_settings = 5

-- An error as the server sends it or a handler makes it.
pub record PageError : Type 0 where
  pub errno : Scalar
  pub message : Text
  pub query_map : List (ℕ × Text)

-- `errno == n`
abbrev pub is : Scalar → ℕ → Bool
is errno n = eq_num errno (int (pos n))

unfoldable pub errno_to_hint : Scalar → Option Text
errno_to_hint errno =
    if is errno er_unknown
    then some (codes "Internal Error")
    else if is errno er_dbconn
    then none
    else if is errno er_dbname
    then none
    else if is errno er_js
    then none
    else if is errno er_query
    then none
    else if is errno er_settings
    then none
    else some (codes "Unknown Error")

unfoldable pub message_of : PageError → Text
message_of err = elim (errno_to_hint err.errno) [
  | none ↦ err.message
  | some hint ↦ codes "[" ++ (hint ++ (codes "] " ++ err.message))
]

-- The loop over `err.query_map`: an id with no widget stops it with a TypeError.
unfoldable pub highlight_all : List (ℕ × Text) → Page → Outcome
highlight_all [] p = done p
highlight_all ((id, message) ∷ errors) p = elim (find id p.registry.query_widget_map) [
  | none ↦ threw p
  | some w ↦ highlight_all errors (record p {
    registry = record p.registry {
      query_widget_map = put id (highlight_error message w) p.registry.query_widget_map;
    };
  })
]

abbrev with_focus : Text → Page → Page
with_focus id p = record p { alerts = record p.alerts { focus = some id } }

-- The message is put under `#notifications`, in the colour of an error if `alert`.
unfoldable pub notify : Bool → PageError → Page → Page
notify alert err p = record p {
  alerts = record p.alerts {
    notices = p.alerts.notices ++ record { message = message_of err; alert = alert } ∷ [];
  };
}

unfoldable pub create_error : PageError → Page → Outcome
unfolding display_settings notify
create_error err p =
    if is err.errno er_dbconn
    then done (with_focus (codes "memsql_host") (display_settings (notify true err p)))
    else if is err.errno er_dbname || is err.errno er_settings
    then done (with_focus (codes "memsql_db") (display_settings (notify true err p)))
    else if is err.errno er_js
    then done (notify false err p)
    else if is err.errno er_query
    then highlight_all err.query_map (notify true err p)
    else done (notify true err p)

abbrev later : List Notice → List Notice
later [] = []
later (_ ∷ notices) = notices

-- The timer of the oldest notice: it fades out.
unfoldable pub fade_oldest : Page → Page
fade_oldest p = record p { alerts = record p.alerts { notices = later p.alerts.notices } }

unfoldable pub freeze_settings_form : Page → Page
freeze_settings_form p = record p { form = record p.form { read_only = true } }

unfoldable pub unfreeze_settings_form : Page → Page
unfreeze_settings_form p = record p { form = record p.form { read_only = false } }

unfoldable pub set_loading_status : Text → Page → Page
set_loading_status message p = record p { alerts = record p.alerts { loading = some message } }

unfoldable pub is_loading_status_active : Page → Bool
is_loading_status_active p = elim p.alerts.loading [ none ↦ false | some _ ↦ true ]

unfoldable pub clear_loading_status : Page → Page
clear_loading_status p = record p { alerts = record p.alerts { loading = none } }
