-- ===== src/Console.antt =====
-- The SQL console (app/public/js/common.js, from `format` to `resetConsole`). What the console plug-in
-- shows is what is handed to it.
pub mod Laws
use workload_simulator.Prelude.{
  ℕ, zero, suc, ◌+◌, ◌-◌, ◌==◌, pos, Bool, true, false, not, ◌&&◌, Option, none, some, List, [],
  ◌∷◌, ◌++◌, reverse, if◌then◌else◌, leb, length,
}
use workload_simulator.Js.{Scalar, num, bool}
use workload_simulator.Js.Names
use workload_simulator.Js.Parse.{lower_code, Text, int, codes, text_eq, show_ℕ, skip_space}
use workload_simulator.Page.{Page, SettingsMap}
use workload_simulator.Alerts.{Outcome, done, threw}
use workload_simulator.Settings.{get_settings, cache_settings}

-- `args[number]`, for the text of a number, from the argument `i` on
unfoldable pub argument : ℕ → List Text → Text → Option Text
argument i [] number = none
argument i (a ∷ args) number =
    if text_eq number (show_ℕ i) then some a else argument (suc i) args number

unfoldable pub is_digit : ℕ → Bool
is_digit c = leb 48 c && leb c 57

-- What `{number}` is replaced by.
unfoldable pub replaced : List Text → Text → Text
replaced args number = elim (argument 0 args number) [
  | none ↦ b'{' ∷ number ++ b'}' ∷ []
  | some a ↦ a
]

-- The rest of a text, after a brace and the digits behind it if there was one.
unfoldable pub format_from : List Text → Option Text → Text → Text
format_from args none [] = []
format_from args none (c ∷ s) =
    let opened = format_from args (some []) s in
    let plain = format_from args none s in if c == b'{' then opened else c ∷ plain
format_from args (some number) [] = b'{' ∷ number
format_from args (some number) (c ∷ s) =
    let opened = format_from args (some []) s in
    let more = format_from args (some (number ++ c ∷ [])) s in
    let plain = format_from args none s in
    if is_digit c
    then more
    else if c == b'}' && leb 1 (length number)
    then replaced args number ++ plain
    else if c == b'{'
    then b'{' ∷ number ++ opened
    else b'{' ∷ number ++ c ∷ plain

-- `String.prototype.format`
unfoldable pub format : List Text → Text → Text
format args s = format_from args none s

-- `toLowerCase`, on ASCII letters
unfoldable pub to_lower_case : Text → Text
to_lower_case [] = []
to_lower_case (c ∷ s) = lower_code c ∷ to_lower_case s

-- `trim`
unfoldable pub trim : Text → Text
trim s = reverse (skip_space (reverse (skip_space s)))

-- The last character of a text.
unfoldable pub last_code : Text → Option ℕ
last_code [] = none
last_code (c ∷ []) = some c
last_code (c ∷ d ∷ s) = last_code (d ∷ s)

-- `checkEOI`: `false` ends the input, 0 goes on in the next line.
unfoldable pub check_eoi : Text → Scalar
check_eoi input = elim (last_code (trim input)) [
  | none ↦ num (int (pos 0))
  | some c ↦ if c == b';' then bool false else num (int (pos 0))
]

-- The console plug-in: its main prompt, all that has been written, and how often a prompt was started.
pub record Shell : Type 0 where
  pub prompt_label_main : Text
  pub written : Text
  pub prompts : ℕ

-- `whatSql`, `jqconsole`, and how many requests for the version wait for an answer.
pub record Console : Type 0 where
  pub what_sql : Text
  pub jqconsole : Option Shell
  pub asked : ℕ

-- The answer to a command: what it printed, and the database if it chose one.
pub record SqlOutput : Type 0 where
  pub output : Text
  pub db : Option Text

unfoldable pub welcome_format : Text
welcome_format =
    codes "Welcome to {0}! you can use this console to run commands against the database.\n\n"

unfoldable pub prompt_label : Text → Text
prompt_label what_sql = to_lower_case what_sql ++ codes "> "

-- `getWhatSql`
unfoldable pub get_what_sql : Console → Console
get_what_sql c = record c { asked = c.asked + 1 }

-- `startPrompt`
unfoldable pub start_prompt : Shell → Shell
start_prompt s = record s { prompts = s.prompts + 1 }

unfoldable pub continue_init_console : Console → Console
continue_init_console c = record c {
  jqconsole = some (
      start_prompt (record {
        prompt_label_main = prompt_label c.what_sql;
        written = format (c.what_sql ∷ []) welcome_format;
        prompts = 0;
      }));
}

unfoldable pub reset_console : Console → Console
reset_console c = record c {
  jqconsole = elim c.jqconsole [
    | none ↦ none
    | some s ↦ some (
        start_prompt (record s {
          prompt_label_main = prompt_label c.what_sql;
          written = s.written ++ format (c.what_sql ∷ []) welcome_format;
        }))
  ];
}

unfoldable pub answered : Console → Console
answered c = record c { asked = c.asked - 1 }

-- `onWhatSqlSuccess`
unfoldable pub on_what_sql_success : Console → Console
on_what_sql_success c =
    let old_what_sql = c.what_sql in
    let d : Console = record (answered c) { what_sql = codes "NoSQL" } in
    elim d.jqconsole [
      | none ↦ continue_init_console d
      | some s ↦ if not (text_eq d.what_sql old_what_sql) then reset_console d else d
    ]

unfoldable pub on_what_sql_failure : Console → Console
on_what_sql_failure c = elim c.jqconsole [
  | none ↦ continue_init_console (answered c)
  | some s ↦ answered c
]

-- What `sendSqlCommand` sends: the command and the settings.
unfoldable pub send_sql_command : Text → Page → (Text × SettingsMap) × Page
send_sql_command command p = let (settings, q) = get_settings p in ((command, settings), q)

unfoldable pub choose_db : Option Text → Page → Page
choose_db none p = p
choose_db (some db) p = cache_settings (record p {
  form = record p.form { inputs = Names.assign (codes "memsql_db") db p.form.inputs };
})

-- `onSqlOutput`, of a page that has its console
unfoldable pub on_sql_output : SqlOutput → Shell × Page → Shell × Page
on_sql_output o (s, p) =
    (start_prompt (record s { written = s.written ++ o.output ++ codes "\n" }), choose_db o.db p)

-- The answer to a command on any page. Where there is no console the first line is a TypeError.
unfoldable pub on_sql_answer : SqlOutput → Console × Page → Console × Outcome
on_sql_answer o (c, p) = elim c.jqconsole [
  | none ↦ (c, threw p)
  | some s ↦ let (t, q) = on_sql_output o (s, p) in (record c { jqconsole = some t }, done q)
]
