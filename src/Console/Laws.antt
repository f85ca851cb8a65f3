-- ===== src/Console/Laws.antt =====
-- The console's prompt, the end of a command, and the settings after a change of the database.
use workload_simulator.Prelude.{
  ℕ, ◌≡◌, ◌==◌, refl, sym, ap, ◌∙◌, true, false, none, some, List, [], ◌∷◌, ◌++◌, append_assoc,
  append-nil, reverse, All, All-append, if◌then◌else◌, Bool-cases, inl, inr, ◌⊎◌, pos,
}
use workload_simulator.Js.{Scalar, num, bool}
use workload_simulator.Js.Names
use workload_simulator.Js.Parse.{Text, codes, text_eq, int, show_ℕ, skip_space, is_space}
use workload_simulator.Page.{Page, SettingsMap}
use workload_simulator.Settings.{get_settings, update_settings, cache_settings, json_map}
use workload_simulator.Console.{
  argument, is_digit, replaced, format_from, format, to_lower_case, trim, last_code, check_eoi,
  Shell, Console, welcome_format, prompt_label, get_what_sql, start_prompt, continue_init_console,
  answered, on_what_sql_success, on_what_sql_failure, choose_db,
}

-- A text with no brace.
abbrev pub Plain : Text → Type 0
Plain s = All (λ c. (c == b'{') ≡ false) s

format_from-Plain :
    (args : List Text) (s t : Text)
    → Plain s
    → format_from args none (s ++ t) ≡ s ++ format_from args none t
unfolding format_from
format_from-Plain args [] t p = refl
format_from-Plain args (c ∷ s) t (h, p) = rw h (ap (λ r. c ∷ r) (format_from-Plain args s t p))

hole :
    (a : Text) (args : List Text) (t : Text)
    → format_from (a ∷ args) none (codes "{0}" ++ t) ≡ a ++ format_from (a ∷ args) none t
unfolding format_from replaced argument is_digit show_ℕ text_eq
hole a args t = refl

-- In a text with one hole and no brace besides, the hole `{0}` is replaced by the first argument, and
-- the rest is kept.
pub format-append :
    (a : Text) (args : List Text) (s t : Text)
    → Plain s
    → Plain t
    → format (a ∷ args) (s ++ (codes "{0}" ++ t)) ≡ s ++ (a ++ t)
unfolding format format_from replaced argument is_digit show_ℕ text_eq
format-append a args s t p q =
    format_from-Plain (a ∷ args) s (codes "{0}" ++ t) p
    ∙ ap (λ r. s ++ r) (hole a args t)
    ∙ ap (λ r. s ++ (a ++ r))
        (ap (format_from (a ∷ args) none) (sym (append-nil t))
          ∙ format_from-Plain (a ∷ args) t [] q
          ∙ append-nil t)

-- Spaces in front are skipped, and what follows from the first other character on is kept.
skip_space-append :
    (s : Text) (c : ℕ) (w : Text)
    → is_space c ≡ false
    → (t : Text) × (skip_space (s ++ c ∷ w) ≡ t ++ c ∷ w)
unfolding skip_space
skip_space-append [] c w h = ([], rw h refl)
skip_space-append (b ∷ s) c w h = elim (Bool-cases (is_space b)) [
  | inl space ↦ rw space (skip_space-append s c w h)
  | inr other ↦ (b ∷ s, rw other refl)
]

skip_space-spaces :
    (w : Text) (c : ℕ) (s : Text)
    → All (λ b. is_space b ≡ true) w
    → is_space c ≡ false
    → skip_space (w ++ c ∷ s) ≡ c ∷ s
unfolding skip_space
skip_space-spaces [] c s a h = rw h refl
skip_space-spaces (b ∷ w) c s (e, a) h = rw e (skip_space-spaces w c s a h)

reverse-append : (s t : Text) → reverse (s ++ t) ≡ reverse t ++ reverse s
unfolding reverse
reverse-append [] t = sym (append-nil (reverse t))
reverse-append (c ∷ s) t =
    ap (λ r. r ++ c ∷ []) (reverse-append s t) ∙ append_assoc (reverse t) (reverse s) (c ∷ [])

All-reverse : (w : Text) → All (λ b. is_space b ≡ true) w → All (λ b. is_space b ≡ true) (reverse w)
unfolding reverse
All-reverse [] a = tt
All-reverse (c ∷ w) (h, a) = All-append _ (reverse w) (c ∷ []) (All-reverse w a) (h, tt)

last_code-append : (s : Text) (c : ℕ) → last_code (s ++ c ∷ []) ≡ some c
unfolding last_code
last_code-append [] c = refl
last_code-append (b ∷ []) c = refl
last_code-append (b ∷ d ∷ s) c = last_code-append (d ∷ s) c

-- A command ends with a semicolon, whatever stands before it and whatever white space behind it.
pub check_eoi-append :
    (s w : Text) → All (λ b. is_space b ≡ true) w → check_eoi (s ++ b';' ∷ w) ≡ bool false
unfolding check_eoi trim reverse
check_eoi-append s w a =
    let (t, front) = skip_space-append s b';' w refl in
    let back = skip_space-spaces (reverse w) b';' (reverse t) (All-reverse w a) refl in
    ap
      (λ o. elim o as (λ _. Scalar) [
        | none ↦ num (int (pos 0))
        | some c ↦ if c == b';' then bool false else num (int (pos 0))
      ])
      (ap (λ r. last_code (reverse (skip_space (reverse r)))) front
        ∙ ap (λ r. last_code (reverse (skip_space r)))
            (reverse-append t (b';' ∷ w) ∙ append_assoc (reverse w) (b';' ∷ []) (reverse t))
        ∙ ap (λ r. last_code (reverse r)) back
        ∙ last_code-append (reverse (reverse t)) b';')

get_settings-known :
    (q : Page) {s : SettingsMap} → q.form.g_settings ≡ some s → get_settings q ≡ (s, q)
unfolding get_settings update_settings
get_settings-known q known =
    ap
      (λ o. elim o as (λ _. SettingsMap × Page) [
        | some s ↦ (s, q)
        | none ↦ get_settings (record q { form = record q.form { g_settings = none } })
      ])
      known

cache_settings-known :
    (q : Page) {s : SettingsMap}
    → q.livemode ≡ false
    → q.form.g_settings ≡ some s
    → cache_settings q
      ≡ record q { storage = record q.storage { settings_cache = some (json_map s) } }
unfolding cache_settings
cache_settings-known q {s} live known =
    ap cached (get_settings-known q known)
    ∙ ap
        (λ b. record q {
          storage =
              if b
              then record q.storage { settings_cache_live = some (json_map s) }
              else record q.storage { settings_cache = some (json_map s) };
        })
        live
  where
    cached : SettingsMap × Page → Page
    cached (t, r) = record r {
      storage =
          if r.livemode
          then record r.storage { settings_cache_live = some (json_map t) }
          else record r.storage { settings_cache = some (json_map t) };
    }

-- What the browser keeps of the settings, and what goes with the next command, after a command that
-- chose a database: the settings as they were, though the form shows the new database.
pub choose_db-get_settings :
    (db : Text) (p : Page) {s : SettingsMap}
    → p.livemode ≡ false
    → p.form.g_settings ≡ some s
    → ((choose_db (some db) p).form.inputs ≡ Names.assign (codes "memsql_db") db p.form.inputs)
      × ((choose_db (some db) p).storage.settings_cache ≡ some (json_map s))
      × ((get_settings (choose_db (some db) p)).0 ≡ s)
unfolding choose_db
choose_db-get_settings db p {s} live known =
    let q : Page = record p {
      form = record p.form { inputs = Names.assign (codes "memsql_db") db p.form.inputs };
    } in
    let cached = cache_settings-known q live known in
    (
      ap (λ (r : Page). r.form.inputs) cached,
      ap (λ (r : Page). r.storage.settings_cache) cached,
      ap (λ r. (get_settings r).0) cached
          ∙ ap (λ (x : SettingsMap × Page). x.0)
              (get_settings-known
                (record q { storage = record q.storage { settings_cache = some (json_map s) } })
                known),
    )

-- What can happen to the console: new settings, and the two answers to the question for the version.
pub data Event : Type 0 where
  settings_updated version_told version_failed : Event

abbrev pub on_event : Event → Console → Console
on_event settings_updated c = get_what_sql c
on_event version_told c = on_what_sql_success c
on_event version_failed c = on_what_sql_failure c

abbrev pub run : List Event → Console → Console
run [] c = c
run (e ∷ es) c = run es (on_event e c)

abbrev pub no_console : Console
no_console = record { what_sql = codes "NoSQL"; jqconsole = none; asked = 1 }

abbrev pub first_shell : Shell
first_shell = record {
  prompt_label_main = codes "nosql> ";
  written = format (codes "NoSQL" ∷ []) welcome_format;
  prompts = 1;
}

abbrev pub Unnamed : Console → Type 0
Unnamed c = (c.what_sql ≡ codes "NoSQL") × ((c.jqconsole ≡ none) ⊎ (c.jqconsole ≡ some first_shell))

on_event-Unnamed : (e : Event) (c : Console) → Unnamed c → Unnamed (on_event e c)
unfolding get_what_sql on_what_sql_success on_what_sql_failure continue_init_console answered
    start_prompt prompt_label text_eq to_lower_case
on_event-Unnamed settings_updated c u = u
on_event-Unnamed version_told c (named, inl e) = rw (e, on_what_sql_success) (refl, inr refl)
on_event-Unnamed version_told c (named, inr e) = rw (e, on_what_sql_success, named) (refl, inr e)
on_event-Unnamed version_failed c (named, inl e) =
    rw (e, on_what_sql_failure, named) (refl, inr refl)
on_event-Unnamed version_failed c (named, inr e) = rw (e, on_what_sql_failure) (named, inr e)

run-Unnamed : (es : List Event) (c : Console) → Unnamed c → Unnamed (run es c)
run-Unnamed [] c u = u
run-Unnamed (e ∷ es) c u = run-Unnamed es (on_event e c) (on_event-Unnamed e c u)

-- Whatever the server answers to the question for its version, the console calls it `NoSQL`: there is
-- no console yet, or one with the prompt and the welcome of that name that was never reset.
pub what_sql-run :
    (es : List Event)
    → ((run es no_console).what_sql ≡ codes "NoSQL")
      × (((run es no_console).jqconsole ≡ none)
          ⊎ ((run es no_console).jqconsole ≡ some first_shell))
what_sql-run es = run-Unnamed es no_console (refl, inl refl)
