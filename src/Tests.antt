-- ===== src/Tests.antt =====
-- Runs of the model, and each theorem with hypotheses at an input that meets them.
mod Widgets
mod Playing
mod Serving
mod Polled
mod Stress
mod Loads
mod Watching
mod Sessions
mod Older
