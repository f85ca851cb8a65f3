-- ===== src/Server/Monitor/Totals.antt =====
-- What the page is told of the rates and the requests done.
use workload_simulator.Prelude.{ℕ, ◌+◌, ◌*◌, ◌≡◌, Option, none, ap, ◌∙◌, some, List, [], ◌∷◌, arith}
use workload_simulator.Js.Parse.{Text}
use workload_simulator.Js.Names
use workload_simulator.Server.{App}
use workload_simulator.Server.Monitor.{
  Stat, Monitor, StatsReply, report_of, take_stat, handle_stats,
}

abbrev pub take_all : List Stat → Monitor → Monitor
take_all [] m = m
take_all (s ∷ stats) m = take_all stats (take_stat s m)

abbrev pub total_done : List Stat → ℕ
total_done [] = 0
total_done (s ∷ stats) = s.nreq_done + total_done stats

idone-take_all :
    (stats : List Stat) (m : Monitor) → (take_all stats m).idone ≡ m.idone + total_done stats
unfolding take_stat
idone-take_all [] m = omega arith
idone-take_all (s ∷ stats) m = idone-take_all stats (take_stat s m) ∙ omega arith

-- A field of an answer.
abbrev pub entries : Option (List (Text × ℕ)) → List (Text × ℕ)
entries none = []
entries (some m) = m

-- A poll after the reports of any workers says of the model that reported last: its rate is that of
-- this one worker, whatever other workers of the model reported before, and its requests done are
-- those of all workers of all models, added to what the monitor had counted before.
pub handle_stats-take_stat :
    (stats : List Stat) (s : Stat) (m : Monitor) (app : App)
    → let reply : StatsReply =
        handle_stats (some (report_of (take_stat s (take_all stats m)))) app in
      (Names.find s.workload.model_id (entries reply.stats) ≡ some (2 * s.nreq_done))
      × (Names.find s.workload.model_id (entries reply.rdone)
          ≡ some (m.idone + total_done stats + s.nreq_done))
unfolding handle_stats take_stat
handle_stats-take_stat stats s m app = (
  Names.find-put_self s.workload.model_id (2 * s.nreq_done) (take_all stats m).request_per_sec,
  Names.find-put_self s.workload.model_id ((take_all stats m).idone + s.nreq_done)
        (take_all stats m).request_lag_done
      ∙ ap (λ n. some (n + s.nreq_done)) (idone-take_all stats m),
)
