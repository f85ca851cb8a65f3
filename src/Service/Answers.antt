-- ===== src/Service/Answers.antt =====
-- What the earlier server answers to a pause and to a question for its state.
use workload_simulator.Prelude.{
  ◌==◌, ◌≡◌, ◌⊎◌, refl, Bool, true, false, Option, none, some, List, Option-cases, Bool-cases, inl,
  inr,
}
use workload_simulator.Js.Parse.{codes}
use workload_simulator.Service.Act.{
  ServerException, server_exception, returned, raised, done, throw, reads, ◌>>=◌,
}
use workload_simulator.Service.State.{Server, WorkerPool}
use workload_simulator.Service.Workers.{all, pause_pool, clear, is_alive}
use workload_simulator.Service.Requests.{
  er_dbname, er_dbconn, er_unknown, World, Response, response, answer, refusal, pause,
  check_workers, workers_alive, check_connection_settings, pause_workers,
}
use workload_simulator.Service.Sound.{IsSound}

-- No process carries out a workload.
abbrev pub Stopped : Option WorkerPool → Type 0
Stopped none = Unit
Stopped (some p) = p.running ≡ none

-- The check of the connection changes nothing, and may raise.
pub check_connection_settings_lem :
    (w : World) (s : Server)
    → (check_connection_settings w s ≡ (returned tt, s))
      ⊎ ((e : ServerException) × (check_connection_settings w s ≡ (raised e, s)))
unfolding check_connection_settings throw done
check_connection_settings_lem w s = elim (Option-cases w.db_error) [
  | inl connects ↦ elim (Option-cases w.tables_error) [
    | inl tables ↦ inl (rw (connects, tables, check_connection_settings) refl)
    | inr (m, fails) ↦
        inr (server_exception er_dbname m, rw (connects, fails, check_connection_settings) refl)
  ]
  | inr ((n, m), fails) ↦ elim (Bool-cases (n == 1049)) [
    | inl name ↦
        inr (server_exception er_dbname m, rw (fails, name, check_connection_settings) refl)
    | inr other ↦
        inr (server_exception er_dbconn m, rw (fails, other, check_connection_settings) refl)
  ]
]

abbrev pub with_pool : WorkerPool → Server → Server
with_pool p s = record s { g_workers = some p }

-- With a worker that has died the check clears the pool and raises.
pub check_workers-dead :
    (w : World) (alive : List Bool) (s : Server) (p : WorkerPool)
    → all alive ≡ false
    → (e : ServerException) × (check_workers w alive (with_pool p s)
        ≡ (raised e, with_pool (clear p) s))
unfolding check_workers workers_alive is_alive ◌>>=◌ reads done throw
check_workers-dead w alive s p dead =
    elim (check_connection_settings_lem w (with_pool (clear p) s)) [
      | inl passes ↦ (
        server_exception er_unknown (codes "Unable to initialize workers."),
        rw (dead, passes) refl,
      )
      | inr (e, fails) ↦ (e, rw (dead, fails) refl)
    ]

pub check_workers-alive :
    (w : World) (alive : List Bool) (s : Server) (p : WorkerPool)
    → all alive ≡ true
    → check_workers w alive (with_pool p s) ≡ (returned tt, with_pool p s)
unfolding check_workers workers_alive is_alive ◌>>=◌ reads done throw
check_workers-alive w alive s p lives = rw lives refl

-- A fact about every state is one about those with no pool, with a paused one and with one that is
-- not paused.
pub by_pool :
    (P : Server → Type 0)
    → ((s : Server) → P (record s { g_workers = none }))
    → ((p : WorkerPool) (s : Server) → P (with_pool (record p { paused = true }) s))
    → ((p : WorkerPool) (s : Server) → P (with_pool (record p { paused = false }) s))
    → (s : Server) → P s
by_pool P without paused playing s = at_workers s.g_workers
  where
    at_pool : (p : WorkerPool) (b : Bool) → P (with_pool (record p { paused = b }) s)
    at_pool p true = paused p s
    at_pool p false = playing p s

    at_workers : (o : Option WorkerPool) → P (record s { g_workers = o })
    at_workers none = without s
    at_workers (some p) = at_pool p p.paused

-- What the handler of a pause says and leaves.
record Pauses (w : World) (s : Server) : Type 0 where
  said : Response
  answered : (pause w s).0 ≡ response said
  stops : said.running ≡ false
  halts : Stopped (pause w s).1.g_workers

pause-Pauses : (w : World) (s : Server) → IsSound false s → Pauses w s
unfolding pause pause_workers pause_pool clear ◌>>=◌ reads done throw
pause-Pauses w =
    by_pool (λ s. IsSound false s → Pauses w s)
      (λ s sound. record { said = answer false; answered = refl; stops = refl; halts = tt })
      (λ p s sound. record {
        said = answer false;
        answered = refl;
        stops = refl;
        halts = sound.matches.0.halted refl;
      })
      (λ p s sound.
        let q : WorkerPool = record p { paused = false } in
        elim (Bool-cases (all w.alive)) [
          | inl lives ↦ record {
            said = answer false;
            answered = rw (check_workers-alive w w.alive s q lives) refl;
            stops = refl;
            halts = rw (check_workers-alive w w.alive s q lives) refl;
          }
          | inr dead ↦
              let (e, fails) = check_workers-dead w w.alive s q dead in
              record {
                said = refusal e;
                answered = rw fails refl;
                stops = refl;
                halts = rw fails refl;
              }
        ])

-- A pause is always answered, and with `running` false; after it no process carries out a workload.
pub pause-Stopped :
    (w : World) (s : Server)
    → IsSound false s
    → ((r : Response) × ((pause w s).0 ≡ response r) × (r.running ≡ false))
      × Stopped (pause w s).1.g_workers
pause-Stopped w s sound = let h = pause-Pauses w s sound in ((h.said, h.answered, h.stops), h.halts)
