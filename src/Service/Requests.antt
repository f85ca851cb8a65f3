-- ===== src/Service/Requests.antt =====
-- The handlers of the earlier server (stress/server.py) for plays, pauses and polls.
mod Checks
mod Play
mod State
unfoldable pub use Checks.*
unfoldable pub use Play.*
unfoldable pub use State.*
