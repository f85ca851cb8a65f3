-- ===== src/Server/Routes.antt =====
-- The routes of the server (app/app.go, `New`) and the handlers that keep no state (app/handlers.go).
-- The files under `/static/` are served by a library, and the page is a template.
use workload_simulator.Prelude.{ℤ, [], Bool, false, Option, none, some, if◌then◌else◌}
use workload_simulator.Js.Parse.{Text, codes, text_eq}

pub data Route : Type 0 where
  root workload ping unload pause stats status live live_stats sql save kill : Route

-- The handler of a path. The pattern `/` takes every path that no other one takes.
unfoldable pub route_of : Text → Route
route_of path =
    if text_eq path (codes "/workload")
    then workload
    else if text_eq path (codes "/ping")
    then ping
    else if text_eq path (codes "/unload")
    then unload
    else if text_eq path (codes "/pause")
    then pause
    else if text_eq path (codes "/stats")
    then stats
    else if text_eq path (codes "/status")
    then status
    else if text_eq path (codes "/live")
    then live
    else if text_eq path (codes "/live/stats")
    then live_stats
    else if text_eq path (codes "/sql")
    then sql
    else if text_eq path (codes "/save")
    then save
    else if text_eq path (codes "/kill")
    then kill
    else root

-- The part of the configuration that the page shows.
pub record AppConfig : Type 0 where
  pub max_dial : ℤ
  pub max_workers : ℤ
  pub ops_host : Text
  pub ops_api_key : Text
  pub ops_user : Text

-- What the template is given.
pub record RootData : Type 0 where
  pub live : Bool
  pub redirected : Bool
  pub max_dial : ℤ
  pub host : Text
  pub api_key : Text
  pub user : Text
  pub workers : ℤ

-- `handleRoot`; `none` is a page that is not found.
unfoldable pub handle_root : AppConfig → Text → Option RootData
handle_root config path =
    if text_eq path (codes "/")
    then some (record {
      live = false;
      redirected = false;
      max_dial = config.max_dial;
      host = config.ops_host;
      api_key = config.ops_api_key;
      user = config.ops_user;
      workers = config.max_workers;
    })
    else none

-- What the handlers that only answer write, with the status 200; `none` for the other handlers.
unfoldable pub plain_answer : Route → Option Text
plain_answer ping = some (codes "OK")
plain_answer sql = some (codes "OK")
plain_answer unload = some []
plain_answer status = some []
plain_answer live = some []
plain_answer live_stats = some []
plain_answer save = some []
plain_answer _ = none
