-- ===== src/Service/Workers.antt =====
-- The operations of the pool of workers (stress/worker.py, `WorkerPool`). What the processes of the
-- operating system answer is an argument. A process that was interrupted ends or answers within some
-- time.
use workload_simulator.Prelude.{
  pos, negsuc, Bool, true, false, ◌&&◌, Option, none, some, List, [], ◌∷◌, if◌then◌else◌,
}
use workload_simulator.QueryTable.{QueryObject}
use workload_simulator.Service.State.{Settings, WorkerPool}

abbrev pub all : List Bool → Bool
all [] = true
all (b ∷ bs) = b && all bs

-- `pause`: every process is interrupted, and answers if it is alive. `synced` is what they answer.
unfoldable pub pause_pool : List Bool → WorkerPool → Bool × WorkerPool
pause_pool synced p = (all synced, record p { paused = true; running = none })

-- `clear`
unfoldable pub clear : WorkerPool → WorkerPool
unfolding pause_pool
clear p = (pause_pool [] p).1

-- `is_alive`, where `alive` is what each process says. One that has died ends all of them.
unfoldable pub is_alive : List Bool → WorkerPool → Bool × WorkerPool
unfolding clear
is_alive alive p = if all alive then (true, p) else (false, clear p)

-- `send_workload`
unfoldable pub send_workload : List QueryObject → WorkerPool → WorkerPool
send_workload workload p = record p {
  workload = some workload;
  paused = false;
  running = some workload;
}

-- `WorkerPool.__init__`, with `none` for its exceptions: no number, or one below zero, for which the
-- list of the processes is empty.
unfoldable pub worker_pool : Settings → Option WorkerPool
worker_pool s = elim s.workers [
  | none ↦ none
  | some (negsuc n) ↦ none
  | some (pos n) ↦
      some
        (record { nworkers = n; settings_dict = s; workload = none; paused = true; running = none })
]
