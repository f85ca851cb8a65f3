-- ===== src/Service.antt =====
-- The earlier server (stress/server.py, stress/worker.py, stress/plancache.py).
pub mod Act
pub mod State
pub mod Workers
pub mod Requests
pub mod Validation
pub mod Sound
pub mod Answers
pub mod Polls
pub mod Reading
pub mod Refused
pub mod Took
pub mod Returned
pub mod Accepted
pub mod Calls
pub mod Presence
pub mod Load
pub mod Plancache
