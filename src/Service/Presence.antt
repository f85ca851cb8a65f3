-- ===== src/Service/Presence.antt =====
-- Who gets the page of the player from the earlier server (stress/server.py): `render_index`, `ping`
-- and `unload`. Times are in microseconds since `VERY_LONG_AGO`, which is a midnight.
pub mod Turns
use workload_simulator.Prelude.{ℕ, ◌+◌, ◌-◌, ◌*◌, ◌/◌, ◌%◌, Bool, true, false, leb, if◌then◌else◌}

abbrev pub ping_timeout : ℕ
ping_timeout = 10

abbrev pub very_long_ago : ℕ
very_long_ago = 0

-- `(now - last).seconds`, which leaves the days out.
abbrev pub seconds_between : ℕ → ℕ → ℕ
seconds_between last now = (now - last) / 1000000 % 86400

abbrev pub is_recent : ℕ → ℕ → Bool
is_recent last now = leb (seconds_between last now) ping_timeout

-- What a request is answered with.
pub data Turn : Type 0 where
  player_page redirect_to_live ok timeout empty_answer : Turn

-- The handlers, with the time of the request and `g_last_ping`, which they give back.
unfoldable pub render_index : ℕ → ℕ → Turn × ℕ
render_index now last = if is_recent last now then (redirect_to_live, last) else (player_page, now)

unfoldable pub ping : ℕ → ℕ → Turn × ℕ
ping now last = if is_recent last now then (ok, now) else (timeout, last)

unfoldable pub unload : ℕ → Turn × ℕ
unload last = (empty_answer, very_long_ago)
