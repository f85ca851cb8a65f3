-- ===== src/Service/Accepted.antt =====
-- What the earlier server has done when it answers that a play runs.
use mathlib.Core.Path.{subst}
use workload_simulator.Prelude.{
  ℕ, ◌≡◌, ◌≢◌, refl, sym, ap, ap₂, ◌∙◌, Bool, true, false, not, if◌then◌else◌, some, List, [], ◌∷◌,
  Bool-cases, inl, inr, All,
}
use workload_simulator.Js.Parse.{Text, codes}
use workload_simulator.QueryTable.{QueryTable, QueryObject, query_table, is_empty}
use workload_simulator.Service.Act.{
  server_exception, Ended, returned, raised, crashed, Act, done, throw, reads, ◌>>=◌, ◌>>◌, began,
  bind-returned,
}
use workload_simulator.Service.State.{Server, WorkerPool, set_settings, no_settings, eq_settings}
use workload_simulator.Service.Workers.{all, pause_pool, send_workload}
use workload_simulator.Service.Requests.{
  er_unknown, World, Request, Response, Reply, reply_of, response, answer, submit_workload,
  play_workload, read_entries, set_workload, read_settings, ensure_workers, check_workers,
  pause_workers, send, validate_workload,
}
use workload_simulator.Service.Answers.{with_pool}
use workload_simulator.Service.Reading.{Holds, validate_workload-Holds, read_entries-g_workload}
use workload_simulator.Service.Took.{Took}
use workload_simulator.Service.Returned.{
  read_settings-returned, check_workers-returned, ensure_at, validate_workload-returned,
}

module _ (is_str : Text → Bool) (randint : ℕ → ℕ) (clock : ℕ → Text) (r : Request) (w : World) where
  -- From the state `s` the server came to `v`, where its workers carry out the workload of the request,
  -- with the settings of the request, after each of them said that it lives and stopped what it did,
  -- and after the database took every query of the workload.
  pub record Plays (workload : List QueryObject) (v : Server) : Type 0 where
    pub pool : WorkerPool
    pub there : v.g_workers ≡ some pool
    pub runs : pool.running ≡ some workload
    pub unpaused : pool.paused ≡ false
    pub kept : v.g_workload ≡ some workload
    pub chosen : set_settings is_str r.settings no_settings ≡ some v.g_settings
    pub same : eq_settings pool.settings_dict v.g_settings ≡ true
    pub lives : all w.alive_then ≡ true
    pub synced : all w.synced ≡ true
    pub connects : w.mysql_connects ≡ true
    pub table : QueryTable
    pub made : query_table workload ≡ some table
    pub some_rate : is_empty table ≡ false
    pub passed : All (Took randint clock w) table.query_objects

  -- The last part of a play, with the pool that it is sent to.
  abbrev last_part : List QueryObject → Act Server Response
  last_part workload = do
    b ← pause_workers w.synced
    if not b
        then throw (server_exception er_unknown (codes "Unknown Error- workers failed"))
        else do send workload; done (answer true)

  sent_to :
      (workload : List QueryObject) (p : WorkerPool) (s v : Server)
      → last_part workload (with_pool p s) ≡ (returned (answer true), v)
      → (all w.synced ≡ true) × (v ≡ with_pool (send_workload workload (pause_pool w.synced p).1) s)
  unfolding pause_workers send ◌>>=◌ reads throw done pause_pool
  sent_to workload p s v e = elim (Bool-cases (all w.synced)) [
    | inl yes_all ↦ (yes_all, cc (rw yes_all at e))
    | inr fails ↦ cc (rw fails at e)
  ]

  -- The state in which the workload is validated.
  record Prepared (workload : List QueryObject) (u : Server) : Type 0 where
    pool : WorkerPool
    there : u.g_workers ≡ some pool
    loaded : u.g_workload ≡ some workload
    chosen : set_settings is_str r.settings no_settings ≡ some u.g_settings
    same : eq_settings pool.settings_dict u.g_settings ≡ true
    lives : all w.alive_then ≡ true

  Prepared-Plays :
      (workload : List QueryObject) (u v : Server)
      → Prepared workload u
      → (validate_workload randint clock w >> last_part workload) u ≡ (returned (answer true), v)
      → Plays workload v
  unfolding send_workload pause_pool
  Prepared-Plays workload u v ready e =
      let four = began (validate_workload randint clock w) _ u (answer true) v e in
      let (connects, (table, made, some_rate, passed)) =
        validate_workload-returned randint clock w workload u four.between ready.loaded
          four.first in
      let held : Holds u.g_workers u.g_workload u.g_settings four.between =
        subst (λ (x : Ended Unit × Server). Holds u.g_workers u.g_workload u.g_settings x.1)
          four.first (validate_workload-Holds randint clock w u) in
      let (synced, ends) = sent_to workload ready.pool four.between v (
        ap (λ o. last_part workload (record four.between { g_workers = o }))
          (sym (held.pool ∙ ready.there))
        ∙ four.later) in
      let settled : v.g_settings ≡ u.g_settings =
        ap (λ (x : Server). x.g_settings) ends ∙ held.chosen in
      record {
        pool = send_workload workload (pause_pool w.synced ready.pool).1;
        there = ap (λ (x : Server). x.g_workers) ends;
        runs = refl;
        unpaused = refl;
        kept = ap (λ (x : Server). x.g_workload) ends ∙ held.loaded ∙ ready.loaded;
        chosen = ready.chosen ∙ ap some (sym settled);
        same = ap (λ t. eq_settings ready.pool.settings_dict t) settled ∙ ready.same;
        lives = ready.lives;
        synced = synced;
        connects = connects;
        table = table;
        made = made;
        some_rate = some_rate;
        passed = passed;
      }

  play_workload-returned :
      (workload : List QueryObject) (s v : Server)
      → s.g_workload ≡ some workload
      → play_workload is_str randint clock r w workload s ≡ (returned (answer true), v)
      → (workload ≢ []) × Plays workload v
  unfolding play_workload throw
  play_workload-returned [] s v now e = cc
  play_workload-returned (q ∷ workload) s v now e =
      let one = began (read_settings is_str r.settings) _ s (answer true) v e in
      let (t, chosen, set) = read_settings-returned is_str r.settings s one.between one.first in
      let two = began (ensure_workers w) _ one.between (answer true) v one.later in
      let (p, there, same) = ensure_at w one.between.g_workers one.between two.between two.first in
      let three = began (check_workers w w.alive_then) _ two.between (answer true) v two.later in
      let (lives, passed) = check_workers-returned w w.alive_then p one.between three.between (
        subst (λ x. check_workers w w.alive_then x ≡ (returned tt, three.between)) there
          three.first) in
      let settled : three.between.g_settings ≡ one.between.g_settings =
        ap (λ (x : Server). x.g_settings) passed in
      (
        λ none_left. cc,
        Prepared-Plays (q ∷ workload) three.between v
            (record {
              pool = p;
              there = ap (λ (x : Server). x.g_workers) passed;
              loaded =
                  ap (λ (x : Server). x.g_workload) passed
                  ∙ ap (λ (x : Server). x.g_workload) set
                  ∙ now;
              chosen = chosen ∙ ap some (sym (settled ∙ ap (λ (x : Server). x.g_settings) set));
              same = ap (λ x. eq_settings p.settings_dict x) settled ∙ same;
              lives = lives;
            })
            three.later,
      )

  only_true :
      (x : Ended Response) → reply_of x ≡ response (answer true) → x ≡ returned (answer true)
  only_true (returned a) e = cc
  only_true (raised x) e = cc
  only_true crashed e = cc

  pub submit_workload-Plays :
      (s v : Server)
      → submit_workload is_str randint clock r w s ≡ (response (answer true), v)
      → (workload : List QueryObject) × ((read_entries [] r.workload
            (record s { g_workload = some [] })).0
          ≡ returned workload)
        × (workload ≢ [])
        × Plays workload v
  unfolding submit_workload
  submit_workload-Plays s v e =
      let given : Server = record s { g_workload = some [] } in
      let rest : List QueryObject → Act Server Response =
        λ workload. play_workload is_str randint clock r w workload in
      let body : Act Server Response = set_workload [] >> (read_entries [] r.workload >>= rest) in
      let ran : body s ≡ (returned (answer true), v) =
        ap₂ (λ (a : Ended Response) (b : Server). (a, b))
          (only_true (body s).0 (ap (λ (x : Reply × Server). x.0) e))
          (ap (λ (x : Reply × Server). x.1) e) in
      let one = began (read_entries [] r.workload) rest given (answer true) v (
        sym (
          bind-returned (set_workload []) (λ _. read_entries [] r.workload >>= rest) s tt given
            refl)
        ∙ ran) in
      let reads_them : (read_entries [] r.workload given).0 ≡ returned one.value =
        ap (λ (x : Ended (List QueryObject) × Server). x.0) one.first in
      let now : one.between.g_workload ≡ some one.value =
        ap (λ (x : Ended (List QueryObject) × Server). x.1.g_workload)
          (sym one.first ∙ read_entries-g_workload r.workload [] one.value given refl reads_them) in
      let (some_query, plays) = play_workload-returned one.value one.between v now one.later in
      (one.value, reads_them, some_query, plays)
