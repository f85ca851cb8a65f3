-- ===== src/Lib.antt =====
-- The workload simulator: a page in the browser that lets a user write queries, turn a dial
-- for the rate of each, play the workload and watch the rates, and a server whose workers send
-- the requests to a remote host.
--
-- The page is a set of query widgets (app/public/js/query_dial.js), a settings form, error
-- messages and the reading and loading of workloads (app/public/js/common.js), a play button
-- with the polls for the rates (app/public/js/stress.js) and graphs
-- (app/public/js/query_graphs.js). In live mode (app/public/js/live.js) the server says which
-- queries have widgets. All of them read and write global variables, the document and the
-- browser's storage; a handler runs to its end before the next one, so the state is one record
-- and a handler a function on it.
--
-- Prelude: library names, numbers, lists. Js: what the program uses of its language: numbers
-- (NaN or an integer), scalars with their conversions, decimal texts (Js.Parse), objects with
-- index keys in the order of enumeration (Js.Index) and with names for keys (Js.Names). Dial:
-- `setDialValue`, `replaceDial`. Widget: `QueryWidget`, its click handler, `highlight_error`,
-- `freeze`, `unfreeze`. Registry: `query_widget_map`, `global_query_id`, `delete`, the close
-- button, `clearQueryWidgets`, `freezeAllQueryWidgets`, `unfreezeAllQueryWidgets`.
-- Registry.Sheet: what the widgets are to the user, the abstract view that they refine.
-- Layout: `adjustWidgetMargins`. Workload: `getWorkload`, `cacheWorkload`, `loadWorkload`.
-- Page: the state. Settings: `updateSettings` to `hideSettings`. Alerts: `errno_to_hint`,
-- `createError` and the messages. Graph: the points of `QueryGraph`. Player: `PlayButton`,
-- `updateWorkloadLoop`, `onWorkloadReceive`; Player.Events puts its handlers together,
-- Player.Settling follows them until no request waits, Player.Refusals after a refused play. Live: `signatureToQueryWidget`, the
-- live `onWorkloadReceive`. Metrics: `updateMetrics`, `reloadMetricsChart`. Session: session
-- files, `cacheWorkload`, the page start of the player. Start: the start of every page.
-- Graph.Config: `QueryGraph` and its configurations (query_graphs.js). Metrics.Chart: the
-- parts of the memory chart (app/public/js/metrics_graphs.js), Metrics.Chart.Config: its
-- configuration. Earlier: what the pages of the earlier server (stress/static/js) do
-- differently. Watch: `pingServer` to `byeServer`. Console: `format` to `resetConsole`. Tests:
-- runs at concrete inputs.
--
-- Server: the server (app, in Go): `handleWorkload` and the report file of `handlePause`
-- (app/handlers.go). Server.Routes: the paths of `New` (app/app.go) and the handlers that keep
-- no state. Server.FromPage: a play from the page's workload to the server's workers.
-- Server.ToPage: the rates on their way back to the page. Server.Monitor: `StatsMonitor`
-- (app/stats.go) and `handleStats`. Server.Pool: the goroutines of the workers
-- (app/worker.go), the monitor and the handlers that kill workers, as a step relation. Go: the
-- numbers of that language. QueryTable: the queries of the earlier server
-- (stress/query_table.py), `tokenize_query` to `get_random_query`. Service: its handlers
-- (stress/server.py) of plays, pauses, polls and questions for its state, as actions on its
-- globals that may raise (Service.Act), with its settings and its pool of workers
-- (stress/worker.py, `WorkerPool`); what its processes and its database answer while a request
-- is handled is the argument `World`. Service.Presence: `render_index`, `ping` and `unload`.
-- Service.Load: the period of a worker and the counting of its queries (`worker`,
-- `stat_loop`). Service.Plancache: the live rates (stress/plancache.py,
-- `save_plancache_loop`).
--
-- Bounds: `show_digits` prints with fuel above the number, and each round divides by ten; the
-- loop of `loadWorkload` runs as often as the largest key says.
--
-- Left out: fractions, infinities and the rounding of large numbers (the server sends
-- integers), but for the keys of a workload, which are read with their fractions and exponents
-- (Js.Parse.Decimal); the key `Infinity`, for which `loadWorkload` does not end; arrays; the text of JSON, which is kept as what it encodes (NaN becomes null,
-- undefined fields go); drawing and fading; the time of a graph's point. The knob plug-in is a
-- parameter: what an input shows when the plug-in has taken over a text. A rate comes under
-- the id of a widget. An operation on a missing editor does nothing where the source would
-- stop; the constructor sets one. In live mode a widget that the user has closed is not
-- updated any more, and the sorting of the rates is stable. What `autoSave` repeats is an
-- operation of its own, which may run at any time. An exception in a handler is the outcome
-- `threw` with the page as it was left. Of the server: the filling in of the template, the
-- files under /static/, the writing of the report file, times, and the request to the remote
-- host, which succeeds or fails. What can be read of a query is a parameter, and so are the
-- random draws, the name of a batch and whether its file could be made. Of the earlier server
-- (stress, in Python): the messages of its processes, its pages and console, the saving of a
-- session, its database and web framework; ids and rates of its queries are not negative, and
-- their probabilities are not rounded, and what `get_random_query` gives to a
-- worker's period, an IndexError included, is an argument; which texts of a request are strings of bytes is a
-- parameter. So are, for a session file, the keys that make a selector.
mod Prelude
pub mod Js
pub mod Dial
pub mod Widget
pub mod Registry
pub mod Workload
pub mod Page
pub mod Settings
pub mod Graph
pub mod Alerts
pub mod Player
pub mod Metrics
pub mod Live
pub mod Session
pub mod Watch
pub mod Go
pub mod Server
pub mod Service
pub mod QueryTable
pub mod Console
pub mod Start
pub mod Earlier
pub mod Layout
mod Tests
