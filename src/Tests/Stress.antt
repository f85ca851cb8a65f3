-- ===== src/Tests/Stress.antt =====
-- Requests to the earlier server.
use workload_simulator.Prelude.{
  ℕ, pos, eq_ℤ, ◌≡◌, ◌≢◌, refl, Bool, true, false, none, some, List, [], ◌∷◌, arith,
}
use workload_simulator.Js.Parse.{Text, codes, text_eq}
use workload_simulator.Go.{unsigned, digits}
use workload_simulator.QueryTable.{
  Globals, QueryObject, query_table, query_f, tokenize_query, tokenize_from, split_all, split_from,
  first_word, word_from, parse_query, run_chunk, run_chunks, sort_by_qps, insert_by_qps,
  probabilities_from,
}
use workload_simulator.Service.Act.{
  ServerException, workload_exception, returned, done, throw, crash, reads, ◌>>=◌,
}
use workload_simulator.Service.State.{
  Settings, Server, WorkerPool, no_settings, set_settings, set_setting, int_of, lstrip, rstrip,
}
use workload_simulator.Service.Workers.{worker_pool, is_alive, pause_pool, send_workload}
use workload_simulator.Service.Requests.{
  Request, World, Response, response, answer, refusal, submit_workload, play_workload, read_entries,
  set_info, read_settings, ensure_workers, check_workers, workers_alive, reset_workers,
  pause_workers, send, validate_workload, validate_queries, get_status, get_stats, pause,
}
use workload_simulator.Service.Accepted.{Plays, submit_workload-Plays}
use workload_simulator.Service.Answers.{Stopped, with_pool}
use workload_simulator.Service.Refused.{polled, submit_workload-refused}
use workload_simulator.Service.Polls.{Poll, HasRefusal, poll_all, get_stats-ten}
use workload_simulator.Service.Calls.{
  started, play, serve, serve_all, Works, serve_all-Works, serve_all-pause,
}

abbrev no_strings : Text → Bool
no_strings s = false

abbrev least : ℕ → ℕ
least n = 1

abbrev no_clock : ℕ → Text
no_clock n = []

abbrev request : Request
request = record {
  workload = record { query_id = some 0; query = codes "a"; qps = some 5 } ∷ [];
  settings = (codes "workers", codes "2") ∷ [];
}

-- Everything lives, and the database takes every query.
abbrev well : World
well = record {
  alive = true ∷ true ∷ true ∷ [];
  alive_then = true ∷ true ∷ true ∷ [];
  synced = true ∷ true ∷ true ∷ [];
  db_error = none;
  tables_error = none;
  mysql_connects = true;
  failure = λ query. none;
}

abbrev new_server : Server
new_server = started no_settings (record { counter = 0; seconds = 0 })

abbrev played_server : Server
played_server = (submit_workload no_strings least no_clock request well new_server).1

submit_workload-Plays_example :
    (workload : List QueryObject) × ((read_entries [] request.workload
        (record new_server { g_workload = some [] })).0
      ≡ returned workload)
    × (workload ≢ [])
    × Plays no_strings least no_clock request well workload played_server
unfolding submit_workload play_workload read_entries set_info read_settings ensure_workers
    check_workers workers_alive reset_workers pause_workers send validate_workload validate_queries
    worker_pool is_alive pause_pool send_workload set_settings set_setting int_of lstrip rstrip
    query_table query_f tokenize_query tokenize_from split_all split_from first_word word_from
    parse_query run_chunk run_chunks sort_by_qps insert_by_qps probabilities_from text_eq ◌>>=◌ done
    throw crash reads unsigned digits
submit_workload-Plays_example =
    submit_workload-Plays no_strings least no_clock request well new_server played_server refl

-- The database takes none of the queries.
abbrev strict : World
strict = record well { failure = λ query. some (1064, codes "syntax") }

abbrev two_workers : Settings
two_workers = record no_settings { workers = some (pos 2) }

abbrev busy_pool : WorkerPool
busy_pool = record {
  nworkers = 2;
  settings_dict = two_workers;
  workload = some [];
  paused = false;
  running = some [];
}

abbrev asked : QueryObject
asked = record { query_id = 0; query = codes "a"; qps = 5 }

abbrev asked_server : Server
asked_server =
    with_pool busy_pool
      (record new_server { g_workload = some (asked ∷ []); g_settings = two_workers })

abbrev failed : ServerException
failed = workload_exception ((0, codes "syntax") ∷ [])

abbrev refused_server : Server
refused_server = (validate_workload least no_clock strict asked_server).1

submit_workload-refused_example :
    (submit_workload no_strings least no_clock request strict (with_pool busy_pool new_server)
      ≡ (response (refusal failed), refused_server))
    × (refused_server.g_workers ≡ some busy_pool)
    × (refused_server.g_workload ≡ some (asked ∷ []))
    × ((get_status well refused_server).0 ≡ response (answer true))
    × ((get_stats well (λ id. pos 7) refused_server).0 ≡ polled (λ id. pos 7) (asked ∷ []))
unfolding read_entries set_info validate_workload validate_queries set_settings set_setting int_of
    lstrip rstrip query_table query_f tokenize_query tokenize_from split_all split_from first_word
    word_from parse_query run_chunk run_chunks sort_by_qps insert_by_qps probabilities_from text_eq
    ◌>>=◌ done throw crash reads unsigned digits eq_ℤ
submit_workload-refused_example =
    submit_workload-refused no_strings least no_clock asked [] request strict well (λ id. pos 7)
      busy_pool new_server refused_server two_workers failed refl refl refl refl refl refl refl refl

-- One of the workers has died.
abbrev dead_poll : Poll
dead_poll = record {
  world = record well { alive = true ∷ false ∷ true ∷ [] };
  qps_array = λ id. pos 0;
}

abbrev ten_polls : List Poll
ten_polls =
    dead_poll ∷ dead_poll ∷ dead_poll ∷ dead_poll ∷ dead_poll ∷ dead_poll ∷ dead_poll ∷ dead_poll
    ∷ dead_poll ∷ dead_poll ∷ []

get_stats-ten_example :
    HasRefusal (poll_all ten_polls (record asked_server { stat_check_count = 4 }))
get_stats-ten_example =
    get_stats-ten ten_polls (record asked_server { stat_check_count = 4 }) (λ e. cc) (omega arith)
      (refl, (refl, (refl, (refl, (refl, (refl, (refl, (refl, (refl, (refl, tt))))))))))

abbrev no_numbers : Globals
no_numbers = record { counter = 0; seconds = 0 }

serve_all-Works_example :
    Works (
      serve_all no_strings least no_clock (play request well ∷ []) (started no_settings no_numbers))
unfolding serve_all serve get_status submit_workload play_workload read_entries set_info
    read_settings ensure_workers check_workers workers_alive reset_workers pause_workers send
    validate_workload validate_queries worker_pool is_alive pause_pool send_workload set_settings
    set_setting int_of lstrip rstrip query_table query_f tokenize_query tokenize_from split_all
    split_from first_word word_from parse_query run_chunk run_chunks sort_by_qps insert_by_qps
    probabilities_from text_eq ◌>>=◌ done throw crash reads unsigned digits
serve_all-Works_example =
    serve_all-Works no_strings least no_clock no_settings no_numbers (play request well ∷ []) well
      refl

serve_all-pause_example :
    (let s : Server =
        serve_all no_strings least no_clock
          (play request well ∷ [])
          (started no_settings no_numbers) in
      ((r : Response) × ((pause well s).0 ≡ response r) × (r.running ≡ false))
      × Stopped (pause well s).1.g_workers)
serve_all-pause_example =
    serve_all-pause no_strings least no_clock no_settings no_numbers (play request well ∷ []) well
