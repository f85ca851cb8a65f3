-- ===== src/Watch.antt =====
-- Whether the server is still there (app/public/js/common.js, `pingServer` to `byeServer`).
pub mod Laws
use workload_simulator.Prelude.{
  ℕ, ◌+◌, ◌≤◌, ◌≡◌, refl, Bool, true, false, Option, none, some, List, [], ◌∷◌, if◌then◌else◌,
  arith, Bool-cases, inl, inr,
}
use workload_simulator.Js.Parse.{Text, codes, text_eq}

-- `pingingStopped`, whether the modal that asks for a refresh is shown, and how many requests of each
-- kind have been sent.
pub record Watch : Type 0 where
  pub pinging_stopped : Bool
  pub refresh_modal : Bool
  pub pings : ℕ
  pub unloads : ℕ

abbrev pub watch : Watch
watch = record { pinging_stopped = false; refresh_modal = false; pings = 0; unloads = 0 }

unfoldable pub ping_server : Watch → Watch
ping_server w = if w.pinging_stopped then w else record w { pings = w.pings + 1 }

unfoldable pub on_ping_failure : Watch → Watch
on_ping_failure w = record w { pinging_stopped = true; refresh_modal = true }

-- `onPingResponse`; `none` is the object that stands for a request that failed.
unfoldable pub on_ping_response : Option Text → Watch → Watch
on_ping_response none w = on_ping_failure w
on_ping_response (some text) w = if text_eq text (codes "OK") then w else on_ping_failure w

unfoldable pub bye_server : Watch → Watch
bye_server w =
    if w.pinging_stopped then w else record w { pinging_stopped = true; unloads = w.unloads + 1 }

-- The timer or a click, an answer, and the end of the page.
pub data Event : Type 0 where
  tick leave : Event
  answered : Option Text → Event

abbrev pub on_event : Event → Watch → Watch
on_event tick w = ping_server w
on_event leave w = bye_server w
on_event (answered text) w = on_ping_response text w

abbrev pub run : List Event → Watch → Watch
run [] w = w
run (e ∷ es) w = run es (on_event e w)
