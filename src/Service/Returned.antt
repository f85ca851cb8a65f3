-- ===== src/Service/Returned.antt =====
-- What the parts of a play have done when they return.
use workload_simulator.Prelude.{
  ℕ, ℤ, ◌≡◌, refl, sym, ap, ◌∙◌, Bool, true, false, Option, none, some, List, [], ◌∷◌, Option-cases,
  Bool-cases, inl, inr, eq_ℤ_self, All,
}
use workload_simulator.Js.Parse.{Text}
use workload_simulator.Js.Parse.Laws.{text_eq_self}
use workload_simulator.QueryTable.{QueryTable, QueryObject, query_table, is_empty}
use workload_simulator.Service.Act.{Ended, returned, Act, done, throw, crash, reads, ◌>>=◌, began}
use workload_simulator.Service.State.{
  Settings, Server, WorkerPool, set_settings, no_settings, eq_settings, eq_text, eq_int,
}
use workload_simulator.Service.Workers.{all, is_alive, worker_pool}
use workload_simulator.Service.Requests.{
  World, read_settings, ensure_workers, check_workers, reset_workers, check_connection_settings,
  set_workers, workers_alive, validate_workload, validate_queries, verdict,
}
use workload_simulator.Service.Sound.{worker_pool_lem}
use workload_simulator.Service.Answers.{
  check_connection_settings_lem, with_pool, check_workers-alive, check_workers-dead,
}
use workload_simulator.Service.Took.{Took, validate_queries-Took}
use workload_simulator.Service.Reading.{ensure_workers-same}

eq_text_self : (o : Option Text) → eq_text o o ≡ true
eq_text_self none = refl
eq_text_self (some s) = text_eq_self s

eq_int_self : (o : Option ℤ) → eq_int o o ≡ true
eq_int_self none = refl
eq_int_self (some n) = eq_ℤ_self n

eq_settings_self : (t : Settings) → eq_settings t t ≡ true
eq_settings_self t =
    rw
      (
        eq_text_self t.memsql_host,
        eq_int_self t.memsql_port,
        eq_text_self t.memsql_user,
        eq_text_self t.memsql_pass,
        eq_text_self t.memsql_db,
        eq_int_self t.workers,
      )
      refl

pub read_settings-returned :
    (is_str : Text → Bool) (d : List (Text × Text)) (s u : Server)
    → read_settings is_str d s ≡ (returned tt, u)
    → (t : Settings) × (set_settings is_str d no_settings ≡ some t)
      × (u ≡ record s { g_settings = t })
unfolding read_settings throw
read_settings-returned is_str d s u e = elim (Option-cases (set_settings is_str d no_settings)) [
  | inl fails ↦ cc (rw (fails, read_settings) at e)
  | inr (t, found) ↦ (t, found, cc (rw (found, read_settings) at e))
]

-- What the making of a pool ends with, for what `WorkerPool` gives.
set_new :
    (o : Option WorkerPool) (s u v : Server)
    → (elim o as (λ _. Act Server Unit) [ none ↦ crash | some p ↦ set_workers p ]) v
      ≡ (returned tt, u)
    → v ≡ record s { g_workers = v.g_workers }
    → (p : WorkerPool) × (o ≡ some p) × (u ≡ with_pool p s)
unfolding crash
set_new none s u v e same = cc
set_new (some p) s u v e same = (p, refl, cc (e, ap (λ (x : Server). with_pool p x) same))

reset_workers-returned :
    (s u : Server)
    → reset_workers s ≡ (returned tt, u)
    → (p : WorkerPool) × (u ≡ with_pool p s) × (eq_settings p.settings_dict s.g_settings ≡ true)
unfolding reset_workers ◌>>=◌ reads crash
reset_workers-returned s u e =
    let (p, made, same) = set_new (worker_pool s.g_settings) s u _ e refl in
    let (_, _, dict) = worker_pool_lem s.g_settings p made in
    (p, same, ap (λ d. eq_settings d s.g_settings) dict ∙ eq_settings_self s.g_settings)

pub check_workers-returned :
    (w : World) (alive : List Bool) (p : WorkerPool) (s u : Server)
    → check_workers w alive (with_pool p s) ≡ (returned tt, u)
    → (all alive ≡ true) × (u ≡ with_pool p s)
check_workers-returned w alive p s u e = elim (Bool-cases (all alive)) [
  | inl lives ↦ (lives, cc (e, check_workers-alive w alive s p lives))
  | inr dead ↦ let (x, fails) = check_workers-dead w alive s p dead in cc (e, fails)
]

pub ensure_at :
    (w : World) (o : Option WorkerPool) (s u : Server)
    → ensure_workers w (record s { g_workers = o }) ≡ (returned tt, u)
    → (p : WorkerPool) × (u ≡ with_pool p s) × (eq_settings p.settings_dict s.g_settings ≡ true)
unfolding ensure_workers workers_alive ◌>>=◌ reads done is_alive reset_workers
ensure_at w none s u e = reset_workers-returned (record s { g_workers = none }) u e
ensure_at w (some p) s u e = elim (Bool-cases (all w.alive)) [
  | inl lives ↦ elim (Bool-cases (eq_settings p.settings_dict s.g_settings)) [
    | inl same ↦ (p, cc (e, ensure_workers-same w p s lives same), same)
    | inr differs ↦
        let new : ensure_workers w (with_pool p s)
            ≡ reset_workers (with_pool (is_alive w.alive p).1 s) =
          rw (lives, differs) refl in
        reset_workers-returned (with_pool (is_alive w.alive p).1 s) u (sym new ∙ e)
  ]
  | inr dead ↦
      let new : ensure_workers w (with_pool p s)
          ≡ reset_workers (with_pool (is_alive w.alive p).1 s) =
        rw dead refl in
      reset_workers-returned (with_pool (is_alive w.alive p).1 s) u (sym new ∙ e)
]

verdict-returned :
    (qt : QueryTable) (failed : List (ℕ × Text)) (s u : Server)
    → verdict qt failed s ≡ (returned tt, u)
    → (failed ≡ []) × (is_empty qt ≡ false)
unfolding throw done
verdict-returned qt (f ∷ failed) s u e = cc
verdict-returned qt [] s u e = elim (Bool-cases (is_empty qt)) [
  | inl nothing ↦ cc (rw nothing at e)
  | inr full ↦ (refl, full)
]

module _ (randint : ℕ → ℕ) (clock : ℕ → Text) (w : World) where
  abbrev judge : QueryTable → Act Server Unit
  judge qt = validate_queries randint clock w qt.query_objects [] >>= λ failed. verdict qt failed

  judge-returned :
      (qt : QueryTable) (s u : Server)
      → judge qt s ≡ (returned tt, u)
      → (is_empty qt ≡ false)
        × ((validate_queries randint clock w qt.query_objects [] s).0 ≡ returned [])
  judge-returned qt s u e =
      let b = began (validate_queries randint clock w qt.query_objects []) _ s tt u e in
      let (nothing, full) = verdict-returned qt b.value b.between u b.later in
      (full, ap (λ (r : Ended (List (ℕ × Text)) × Server). r.0) b.first ∙ ap returned nothing)

  table_returned :
      (o : Option QueryTable) (s u : Server)
      → (elim o as (λ _. Act Server Unit) [ none ↦ crash | some qt ↦ judge qt ]) s
        ≡ (returned tt, u)
      → (qt : QueryTable) × (o ≡ some qt)
        × (is_empty qt ≡ false)
        × ((validate_queries randint clock w qt.query_objects [] s).0 ≡ returned [])
  unfolding crash
  table_returned none s u e = cc
  table_returned (some qt) s u e =
      let (full, passes) = judge-returned qt s u e in (qt, refl, full, passes)

  pub validate_workload-returned :
      (workload : List QueryObject) (s u : Server)
      → s.g_workload ≡ some workload
      → validate_workload randint clock w s ≡ (returned tt, u)
      → (w.mysql_connects ≡ true)
        × ((qt : QueryTable) × (query_table workload ≡ some qt)
            × (is_empty qt ≡ false)
            × All (Took randint clock w) qt.query_objects)
  unfolding validate_workload ◌>>=◌ reads throw check_connection_settings
  validate_workload-returned workload s u now e = elim (Bool-cases w.mysql_connects) [
    | inl connects ↦
        let (qt, made, full, passes) =
          table_returned (query_table workload) s u (sym (rw (connects, now) refl) ∙ e) in
        (
          connects,
          (qt, made, full, (validate_queries-Took randint clock w qt.query_objects [] s passes).1),
        )
    | inr fails ↦ elim (check_connection_settings_lem w s) [
      | inl passes ↦ cc (rw (fails, passes) at e)
      | inr (x, raises) ↦ cc (rw (fails, raises) at e)
    ]
  ]
