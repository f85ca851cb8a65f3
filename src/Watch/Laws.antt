-- ===== src/Watch/Laws.antt =====
-- When the page stops asking whether the server is there.
use workload_simulator.Prelude.{
  ◌≤◌, ◌≡◌, refl, ◌∙◌, true, false, none, some, List, [], ◌∷◌, arith, Bool-cases, inl, inr, ◌⊎◌,
}
use workload_simulator.Js.Parse.{codes, text_eq}
use workload_simulator.Watch.{
  Watch, watch, ping_server, on_ping_failure, on_ping_response, bye_server, Event, tick, leave,
  answered, on_event, run,
}

-- The server has been told of the end at most once, and not while pinging goes on.
record IsOrderly (w : Watch) : Type 0 where
  once : w.unloads ≤ 1
  still : (w.pinging_stopped ≡ true) ⊎ (w.unloads ≡ 0)

not_yet : (w : Watch) → w.pinging_stopped ≡ false → IsOrderly w → w.unloads ≡ 0
not_yet w going o = elim o.still [ inl stopped ↦ cc (stopped, going) | inr none_sent ↦ none_sent ]

on_event-IsOrderly : (e : Event) (w : Watch) → IsOrderly w → IsOrderly (on_event e w)
unfolding ping_server bye_server on_ping_response on_ping_failure
on_event-IsOrderly tick w o = elim (Bool-cases w.pinging_stopped) [
  | inl stopped ↦ rw stopped (record { once = o.once; still = inl refl })
  | inr going ↦ rw going (record { once = o.once; still = inr (not_yet w going o) })
]
on_event-IsOrderly leave w o = elim (Bool-cases w.pinging_stopped) [
  | inl stopped ↦ rw stopped (record { once = o.once; still = inl refl })
  | inr going ↦ rw going (record { once = omega (arith, not_yet w going o); still = inl refl })
]
on_event-IsOrderly (answered none) w o = record { once = o.once; still = inl refl }
on_event-IsOrderly (answered (some text)) w o = elim (Bool-cases (text_eq text (codes "OK"))) [
  | inl ok ↦ rw ok o
  | inr bad ↦ rw bad (record { once = o.once; still = inl refl })
]

run-IsOrderly : (es : List Event) (w : Watch) → IsOrderly w → IsOrderly (run es w)
run-IsOrderly [] w o = o
run-IsOrderly (e ∷ es) w o = run-IsOrderly es (on_event e w) (on_event-IsOrderly e w o)

-- Whatever happens from the start of the page on, the server is told of its end at most once.
pub unloads-run : (es : List Event) → (run es watch).unloads ≤ 1
unloads-run es = (run-IsOrderly es watch (record { once = omega arith; still = inr refl })).once

abbrev Silent : Watch → Watch → Type 0
Silent w v = (v.pinging_stopped ≡ true) × (v.pings ≡ w.pings) × (v.unloads ≡ w.unloads)

on_event-stopped : (e : Event) (w : Watch) → w.pinging_stopped ≡ true → Silent w (on_event e w)
unfolding ping_server bye_server on_ping_response on_ping_failure
on_event-stopped tick w h = rw h (refl, refl, refl)
on_event-stopped leave w h = rw h (refl, refl, refl)
on_event-stopped (answered none) w h = (refl, refl, refl)
on_event-stopped (answered (some text)) w h = elim (Bool-cases (text_eq text (codes "OK"))) [
  | inl ok ↦ rw ok (h, refl, refl)
  | inr bad ↦ rw bad (refl, refl, refl)
]

stays_stopped : (es : List Event) (w : Watch) → w.pinging_stopped ≡ true → Silent w (run es w)
stays_stopped [] w h = (h, refl, refl)
stays_stopped (e ∷ es) w h =
    let (stopped, pings, unloads) = on_event-stopped e w h in
    let (still, more, other) = stays_stopped es (on_event e w) stopped in
    (still, more ∙ pings, other ∙ unloads)

-- The events that end the pinging: a failed ping, an answer other than `OK`, the end of the page.
abbrev pub Ends : Event → Type 0
Ends tick = ⊥
Ends leave = Unit
Ends (answered none) = Unit
Ends (answered (some text)) = text_eq text (codes "OK") ≡ false

on_event-Ends : (e : Event) (w : Watch) → Ends e → (on_event e w).pinging_stopped ≡ true
unfolding bye_server on_ping_response on_ping_failure
on_event-Ends tick w h = absurd h
on_event-Ends leave w h = elim (Bool-cases w.pinging_stopped) [
  | inl stopped ↦ rw stopped refl
  | inr going ↦ rw going refl
]
on_event-Ends (answered none) w h = refl
on_event-Ends (answered (some text)) w h = rw h refl

-- Once an answer other than `OK` has come, a ping has failed or the page was left, whatever the page
-- did before, no request of either kind is sent any more, whatever happens.
pub run-stopped :
    (e : Event) (es : List Event) (w : Watch)
    → Ends e
    → ((run (e ∷ es) w).pinging_stopped ≡ true)
      × ((run (e ∷ es) w).pings ≡ (on_event e w).pings)
      × ((run (e ∷ es) w).unloads ≡ (on_event e w).unloads)
run-stopped e es w ends = stays_stopped es (on_event e w) (on_event-Ends e w ends)
