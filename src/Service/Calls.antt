-- ===== src/Service/Calls.antt =====
-- Any sequence of the requests that the pages of the earlier server send.
use workload_simulator.Prelude.{
  ℕ, ℤ, ◌≡◌, ◌≢◌, refl, Bool, true, false, none, some, List, [], ◌∷◌, Bool-cases, inl, inr,
}
use workload_simulator.Js.Parse.{Text}
use workload_simulator.QueryTable.{Globals}
use workload_simulator.Service.Act.{done, crash, reads, ◌>>=◌, ◌>>◌}
use workload_simulator.Service.Act.Keeps.{
  Keeps, Keeps-done, Keeps-crash, Keeps-reads, Keeps-if, Keeps-option, Keeps-bind, keeps_rules,
}
use workload_simulator.Service.State.{Server, WorkerPool, Settings}
use workload_simulator.Service.Workers.{all, clear}
use workload_simulator.Service.Requests.{
  World, Request, Response, Reply, response, answer, submit_workload, pause, get_status, get_stats,
  kill, read_entries, check_workers, pause_workers, count_check, answer_rates, rates_of,
}
use workload_simulator.Service.Sound.{
  IsSound, Keeps-pool, Keeps-set_workload, Keeps-read_entries, Keeps-play_workload,
  Keeps-check_workers, Keeps-pause_workers, Keeps-count_check, replaced, clear-IsPool,
}
use workload_simulator.Service.Answers.{
  Stopped, pause-Stopped, by_pool, check_workers-alive, check_workers-dead,
}

pub data Call : Type 0 where
  play : Request → World → Call
  stop ask : World → Call
  poll : World → (ℕ → ℤ) → Call
  end : Call

pause-IsSound : (w : World) (s : Server) → IsSound false s → IsSound false (pause w s).1
unfolding pause
pause-IsSound w s h =
    (Keeps-pool (done (answer false)) _ (Keeps-done (answer false)) (λ s p e h.
        (Keeps-if {P = IsSound false} p.paused (done (answer false))
            (check_workers w w.alive >> (pause_workers w.synced >> done (answer false)))
            (Keeps-done (answer false))
            (search (keeps_rules, Keeps-check_workers, Keeps-pause_workers))).kept
          s h)).kept
      s h

get_status-IsSound : (w : World) (s : Server) → IsSound false s → IsSound false (get_status w s).1
unfolding get_status done
get_status-IsSound w s h =
    (Keeps-pool (done (answer false)) _ (Keeps-done (answer false)) (λ s p e h.
        (Keeps-bind (check_workers w w.alive) _ (Keeps-check_workers w w.alive)
            (λ _. Keeps-pool crash _ Keeps-crash (λ s q e h. h))).kept
          s h)).kept
      s h

Keeps-answer_rates : (qps_array : ℕ → ℤ) → Keeps (IsSound false) (answer_rates qps_array)
unfolding answer_rates
Keeps-answer_rates qps_array = Keeps-bind (reads _) _ (Keeps-reads _) (λ workload.
    Keeps-option workload crash _ Keeps-crash (λ queries _.
      Keeps-option (rates_of qps_array queries) crash _ Keeps-crash (λ rates _. Keeps-done _)))

get_stats-IsSound :
    (w : World) (qps_array : ℕ → ℤ) (s : Server)
    → IsSound false s
    → IsSound false (get_stats w qps_array s).1
unfolding get_stats
get_stats-IsSound w qps_array s h =
    (Keeps-pool (done (answer false)) _ (Keeps-done (answer false)) (λ s p e h.
        (Keeps-bind (reads _) _ (Keeps-reads _) (λ count.
            Keeps-bind _ _ (Keeps-if _ _ _ (Keeps-check_workers w w.alive) (Keeps-done tt)) (λ _.
              Keeps-bind count_check _ Keeps-count_check (λ _. Keeps-answer_rates qps_array)))).kept
          s h)).kept
      s h

kill-IsSound : (s : Server) → IsSound false s → IsSound false (kill s).1
unfolding kill ◌>>=◌ crash
kill-IsSound s h =
    (Keeps-pool crash _ Keeps-crash (λ s p e h. replaced s p (clear p) e (clear-IsPool p) h)).kept s
      h

module _ (is_str : Text → Bool) (randint : ℕ → ℕ) (clock : ℕ → Text) where
  unfoldable pub serve : Call → Server → Reply × Server
  serve (play r w) s = submit_workload is_str randint clock r w s
  serve (stop w) s = pause w s
  serve (ask w) s = get_status w s
  serve (poll w qps_array) s = get_stats w qps_array s
  serve end s = kill s

  unfoldable pub serve_all : List Call → Server → Server
  serve_all [] s = s
  serve_all (c ∷ calls) s = serve_all calls (serve c s).1

  submit_workload-IsSound :
      (r : Request) (w : World) (s : Server)
      → IsSound false s
      → IsSound false (submit_workload is_str randint clock r w s).1
  unfolding submit_workload ◌>>=◌
  submit_workload-IsSound r w s h =
      let given : Server = record s { g_workload = some [] } in
      let set : IsSound true given = record {
        matches = ((Keeps-set_workload []).kept s h).matches;
        loaded = λ _ gone. cc;
      } in
      let kept =
        (Keeps-bind (read_entries [] r.workload) _ (Keeps-read_entries r.workload [])
            (λ workload. Keeps-play_workload is_str randint clock r w workload)).kept
          given set in
      record { matches = kept.matches; loaded = λ e. cc }

  serve-IsSound : (c : Call) (s : Server) → IsSound false s → IsSound false (serve c s).1
  unfolding serve
  serve-IsSound (play r w) s h = submit_workload-IsSound r w s h
  serve-IsSound (stop w) s h = pause-IsSound w s h
  serve-IsSound (ask w) s h = get_status-IsSound w s h
  serve-IsSound (poll w qps_array) s h = get_stats-IsSound w qps_array s h
  serve-IsSound end s h = kill-IsSound s h

  pub serve_all-IsSound :
      (calls : List Call) (s : Server) → IsSound false s → IsSound false (serve_all calls s)
  unfolding serve_all
  serve_all-IsSound [] s h = h
  serve_all-IsSound (c ∷ calls) s h = serve_all-IsSound calls (serve c s).1 (serve-IsSound c s h)

-- The globals when the server starts, with the settings of its options.
abbrev pub started : Settings → Globals → Server
started settings g = record {
  g_workload = none;
  g_workers = none;
  g_settings = settings;
  stat_check_count = 0;
  query_globals = g;
}

-- The processes carry out the workload that was sent last, and there is one.
pub record Works (s : Server) : Type 0 where
  pub pool : WorkerPool
  pub there : s.g_workers ≡ some pool
  pub busy : (pool.running ≡ pool.workload) × (pool.workload ≢ none)

get_status-Works :
    (w : World) (s : Server)
    → IsSound false s
    → (get_status w s).0 ≡ response (answer true)
    → Works s
unfolding get_status ◌>>=◌ reads done
get_status-Works w =
    by_pool (λ s. IsSound false s → (get_status w s).0 ≡ response (answer true) → Works s)
      (λ s h e. cc)
      (λ p s h e. elim (Bool-cases (all w.alive)) [
        | inl lives ↦ cc (e, check_workers-alive w w.alive s (record p { paused = true }) lives)
        | inr dead ↦
            let (x, fails) = check_workers-dead w w.alive s (record p { paused = true }) dead in
            cc (e, fails)
      ])
      (λ p s h e. record {
        pool = record p { paused = false };
        there = refl;
        busy = h.matches.0.playing refl;
      })

module _ (is_str : Text → Bool) (randint : ℕ → ℕ) (clock : ℕ → Text) where
  -- Whatever plays, pauses, polls, questions and kills come after the start: when the server then
  -- answers the question for its state with `running`, its workers carry out a workload, the one that
  -- was sent to them last.
  pub serve_all-Works :
      (settings : Settings) (g : Globals) (calls : List Call) (w : World)
      → (get_status w (serve_all is_str randint clock calls (started settings g))).0
        ≡ response (answer true)
      → Works (serve_all is_str randint clock calls (started settings g))
  serve_all-Works settings g calls w e =
      get_status-Works w (serve_all is_str randint clock calls (started settings g))
        (serve_all-IsSound is_str randint clock calls (started settings g)
          (record { matches = tt; loaded = λ x. cc }))
        e

  -- After a pause, whatever came before it since the start, no process carries out a workload, and the
  -- pause is answered, with `running` false.
  pub serve_all-pause :
      (settings : Settings) (g : Globals) (calls : List Call) (w : World)
      → (let s : Server = serve_all is_str randint clock calls (started settings g) in
          ((r : Response) × ((pause w s).0 ≡ response r) × (r.running ≡ false))
          × Stopped (pause w s).1.g_workers)
  serve_all-pause settings g calls w =
      pause-Stopped w (serve_all is_str randint clock calls (started settings g)) (
        serve_all-IsSound is_str randint clock calls (started settings g)
          (record { matches = tt; loaded = λ x. cc }))
