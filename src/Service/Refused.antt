-- ===== src/Service/Refused.antt =====
-- A play that the earlier server refuses while its workers carry out an earlier one.
use mathlib.Core.Path.{subst}
use workload_simulator.Prelude.{
  ℕ, ℤ, ◌≡◌, ◌%◌, ◌==◌, refl, ap, ◌∙◌, Bool, true, false, not, none, some, List, [], ◌∷◌, Option,
  Bool-cases, inl, inr,
}
use workload_simulator.Js.Parse.{Text}
use workload_simulator.QueryTable.{QueryObject}
use workload_simulator.Service.Act.{
  ServerException, Ended, returned, raised, done, reads, ◌>>=◌, bind-returned, bind-raised, crash,
  Act,
}
use workload_simulator.Service.State.{
  Settings, Server, WorkerPool, set_settings, no_settings, eq_settings,
}
use workload_simulator.Service.Workers.{all}
use workload_simulator.Service.Requests.{
  World, Request, Response, response, answer, refusal, submit_workload, play_workload, read_entries,
  set_workload, read_settings, ensure_workers, check_workers, validate_workload, get_status,
  reply_of, Reply, internal_error, rates_of, answer_rates, get_stats, full_check_period,
}
use workload_simulator.Service.Answers.{with_pool, check_workers-alive}
use workload_simulator.Service.Reading.{
  Holds, validate_workload-Holds, read_entries-g_workload, ensure_workers-same,
}

-- The answer to a question for the state, with workers that live.
get_status-alive :
    (w : World) (p : WorkerPool) (s : Server)
    → all w.alive ≡ true
    → (get_status w (with_pool p s)).0 ≡ response (answer (not p.paused))
unfolding get_status ◌>>=◌ reads done
get_status-alive w p s lives = rw (check_workers-alive w w.alive s p lives) refl

abbrev pub shown : Option (List (ℕ × ℕ)) → Reply
shown none = internal_error
shown (some rates) = response (record { running = true; error = none; stats = some rates })

-- The answer to a poll for a workload, with the rates that the shared memory has under its queries.
abbrev pub polled : (ℕ → ℤ) → List QueryObject → Reply
polled qps_array workload = shown (rates_of qps_array workload)

shown_lem :
    (o : Option (List (ℕ × ℕ))) (s : Server)
    → reply_of
        ((elim o as (λ _. Act Server Response) [
          | none ↦ crash
          | some rates ↦ done (record { running = true; error = none; stats = some rates })
        ])
          s).0
      ≡ shown o
unfolding crash done
shown_lem none s = refl
shown_lem (some rates) s = refl

answer_rates-polled :
    (qps_array : ℕ → ℤ) (workload : List QueryObject) (s : Server)
    → s.g_workload ≡ some workload
    → reply_of (answer_rates qps_array s).0 ≡ polled qps_array workload
unfolding answer_rates ◌>>=◌ reads
answer_rates-polled qps_array workload s loaded =
    rw loaded (shown_lem (rates_of qps_array workload) _)

get_stats-alive :
    (w : World) (qps_array : ℕ → ℤ) (workload : List QueryObject) (p : WorkerPool) (s : Server)
    → s.g_workload ≡ some workload
    → all w.alive ≡ true
    → (get_stats w qps_array (with_pool p s)).0 ≡ polled qps_array workload
unfolding get_stats ◌>>=◌ reads done
get_stats-alive w qps_array workload p s loaded lives =
    elim (Bool-cases (s.stat_check_count % full_check_period == 0)) [
      | inl due ↦
          rw (due, check_workers-alive w w.alive s p lives)
            (answer_rates-polled qps_array workload _ loaded)
      | inr early ↦ rw early (answer_rates-polled qps_array workload _ loaded)
    ]

module _ (is_str : Text → Bool) (randint : ℕ → ℕ) (clock : ℕ → Text) where
  play_workload-raised :
      (q : QueryObject) (workload : List QueryObject) (r : Request) (w : World) (p : WorkerPool)
      (s v : Server) (t : Settings) (e : ServerException)
      → set_settings is_str r.settings no_settings ≡ some t
      → eq_settings p.settings_dict t ≡ true
      → all w.alive ≡ true
      → all w.alive_then ≡ true
      → validate_workload randint clock w (with_pool p (record s { g_settings = t }))
        ≡ (raised e, v)
      → play_workload is_str randint clock r w (q ∷ workload) (with_pool p s) ≡ (raised e, v)
  unfolding play_workload read_settings
  play_workload-raised q workload r w p s v t e settings same lives still fails =
      let u : Server = with_pool p (record s { g_settings = t }) in
      bind-returned (read_settings is_str r.settings) _ (with_pool p s) tt u
        (rw (settings, read_settings) refl)
      ∙ bind-returned (ensure_workers w) _ u tt u
          (ensure_workers-same w p (record s { g_settings = t }) lives same)
      ∙ bind-returned (check_workers w w.alive_then) _ u tt u
          (check_workers-alive w w.alive_then (record s { g_settings = t }) p still)
      ∙ bind-raised (validate_workload randint clock w) _ u e v fails

  pub submit_workload-refused :
      (q : QueryObject) (workload : List QueryObject) (r : Request) (w later : World)
      (qps_array : ℕ → ℤ) (p : WorkerPool) (s v : Server) (t : Settings) (e : ServerException)
      → p.paused ≡ false
      → (read_entries [] r.workload (with_pool p (record s { g_workload = some [] }))).0
        ≡ returned (q ∷ workload)
      → set_settings is_str r.settings no_settings ≡ some t
      → eq_settings p.settings_dict t ≡ true
      → all w.alive ≡ true
      → all w.alive_then ≡ true
      → validate_workload randint clock w
          (with_pool p (record s { g_workload = some (q ∷ workload); g_settings = t }))
        ≡ (raised e, v)
      → all later.alive ≡ true
      → (submit_workload is_str randint clock r w (with_pool p s) ≡ (response (refusal e), v))
        × (v.g_workers ≡ some p)
        × (v.g_workload ≡ some (q ∷ workload))
        × ((get_status later v).0 ≡ response (answer true))
        × ((get_stats later qps_array v).0 ≡ polled qps_array (q ∷ workload))
  unfolding submit_workload
  submit_workload-refused q workload r w later qps_array p s v t e plays reads_them settings same
        lives still fails lives_later =
      let given : Server = with_pool p (record s { g_workload = some [] }) in
      let read : Server = record s { g_workload = some (q ∷ workload) } in
      let held : Holds (some p) (some (q ∷ workload)) t v =
        subst (λ (x : Ended Unit × Server). Holds (some p) (some (q ∷ workload)) t x.1) fails
          (validate_workload-Holds randint clock w
            (with_pool p (record read { g_settings = t }))) in
      (
        ap (λ (x : Ended Response × Server). (reply_of x.0, x.1))
            (bind-returned (set_workload []) _ (with_pool p s) tt given refl
              ∙ bind-returned (read_entries [] r.workload) _ given (q ∷ workload) (with_pool p read)
                  (read_entries-g_workload r.workload [] (q ∷ workload) given refl reads_them)
              ∙ play_workload-raised q workload r w p read v t e settings same lives still fails),
        held.pool,
        held.loaded,
        ap (λ o. (get_status later (record v { g_workers = o })).0) held.pool
            ∙ get_status-alive later p v lives_later
            ∙ ap (λ b. response (answer (not b))) plays,
        ap (λ o. (get_stats later qps_array (record v { g_workers = o })).0) held.pool
            ∙ get_stats-alive later qps_array (q ∷ workload) p v held.loaded lives_later,
      )
