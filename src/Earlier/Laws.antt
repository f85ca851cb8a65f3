-- ===== src/Earlier/Laws.antt =====
-- The prompt of the console names the server that answered.
use workload_simulator.Prelude.{
  ◌≡◌, refl, sym, ap, ◌∙◌, none, some, [], ◌∷◌, ◌++◌, Bool-cases, Option-cases, inl, inr,
}
use workload_simulator.Js.Parse.{Text, text_eq}
use workload_simulator.Js.Parse.Laws.{eq_of_text_eq}
use workload_simulator.Page.{Page}
use workload_simulator.Alerts.{Outcome, done, threw, create_error}
use workload_simulator.Console.{
  Shell, Console, prompt_label, answered, continue_init_console, reset_console, start_prompt,
  on_what_sql_failure, format, welcome_format,
}
use workload_simulator.Earlier.{
  VersionAnswer, name_of_server, set_what_sql, after_report, on_what_sql_success,
}

-- The console, if there is one, has the prompt of the server that `whatSql` names.
pub data Named (c : Console) : Type 0 where
  no_console : c.jqconsole ≡ none → Named c
  prompt_of :
      (s : Shell) → c.jqconsole ≡ some s → s.prompt_label_main ≡ prompt_label c.what_sql → Named c

reset_console-Named : (c : Console) (s : Shell) → c.jqconsole ≡ some s → Named (reset_console c)
unfolding reset_console start_prompt
reset_console-Named c s e =
    prompt_of
      (start_prompt (record s {
        prompt_label_main = prompt_label c.what_sql;
        written = s.written ++ format (c.what_sql ∷ []) welcome_format;
      }))
      (rw (e, reset_console) refl) refl

set_what_sql-Named : (name : Text) (c : Console) → Named c → Named (set_what_sql name c)
unfolding set_what_sql continue_init_console start_prompt
set_what_sql-Named name c (no_console e) = rw (e, set_what_sql) (prompt_of _ refl refl)
set_what_sql-Named name c (prompt_of s e h) = elim (Bool-cases (text_eq name c.what_sql)) [
  | inl same ↦
      rw (e, set_what_sql, same)
        (prompt_of s e (h ∙ ap prompt_label (sym (eq_of_text_eq name c.what_sql same))))
  | inr other ↦ rw (e, set_what_sql, other) (reset_console-Named (record c { what_sql = name }) s e)
]

on_what_sql_failure-Named : (c : Console) → Named c → Named (on_what_sql_failure c)
unfolding on_what_sql_failure continue_init_console start_prompt answered
on_what_sql_failure-Named c (no_console e) = rw (e, on_what_sql_failure) (prompt_of _ refl refl)
on_what_sql_failure-Named c (prompt_of s e h) = rw (e, on_what_sql_failure) (prompt_of s e h)

answered-Named : (c : Console) → Named c → Named (answered c)
unfolding answered
answered-Named c (no_console e) = no_console e
answered-Named c (prompt_of s e h) = prompt_of s e h

after_report-Named : (c : Console) (o : Outcome) → Named c → Named (after_report c o).0
after_report-Named c (done q) n = on_what_sql_failure-Named c n
after_report-Named c (threw q) n = answered-Named c n

-- On the pages of the earlier server an answer to the question for the version keeps the prompt of the
-- console, if there is one, that of the server that `whatSql` names, whether the answer has an error or
-- not.
pub on_what_sql_success-Named :
    (a : VersionAnswer) (c : Console) (p : Page) → Named c → Named (on_what_sql_success a (c, p)).0
unfolding on_what_sql_success
on_what_sql_success-Named a c p n = elim (Option-cases a.error) [
  | inl fine ↦
      rw (fine, on_what_sql_success)
        (set_what_sql-Named (name_of_server a.output) (answered c) (answered-Named c n))
  | inr (e, failed) ↦ rw (failed, on_what_sql_success) (after_report-Named c (create_error e p) n)
]
