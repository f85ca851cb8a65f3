-- ===== src/Service/Presence/Turns.antt =====
-- Whom the earlier server turns away.
use workload_simulator.Prelude.{
  ℕ, ◌+◌, ◌*◌, ◌≤◌, ◌<◌, ◌≡◌, refl, true, leb, List, [], ◌∷◌, arith, if◌then◌else◌,
}
use workload_simulator.Service.Presence.{
  Turn, player_page, redirect_to_live, ok, seconds_between, is_recent, render_index, ping, unload,
}

-- A visit or a ping, with its time.
pub data Sign : Type 0 where
  visit_at ping_at : ℕ → Sign

abbrev pub turn : Sign → ℕ → Turn × ℕ
turn (visit_at t) last = render_index t last
turn (ping_at t) last = ping t last

abbrev pub turns : List Sign → ℕ → List Turn
turns [] last = []
turns (s ∷ signs) last = let (answer, next) = turn s last in answer ∷ turns signs next

-- Less than eleven seconds pass from one ping to the next, and from the last one before a visit to it.
abbrev pub Steady : ℕ → List Sign → Type 0
Steady last [] = Unit
Steady last (visit_at t ∷ signs) = (last ≤ t) × (t < last + 11000000) × Steady last signs
Steady last (ping_at t ∷ signs) = (last ≤ t) × (t < last + 11000000) × Steady t signs

-- Every ping is answered with `OK`, and every visitor is sent to the live page.
abbrev pub guarded : List Sign → List Turn
guarded [] = []
guarded (visit_at t ∷ signs) = redirect_to_live ∷ guarded signs
guarded (ping_at t ∷ signs) = ok ∷ guarded signs

is_recent-within : (last t : ℕ) → last ≤ t → t < last + 11000000 → is_recent last t ≡ true
is_recent-within last t after soon = ground arith

-- While a page of the player pings in time, whichever pages it is that ping, each ping is answered with
-- `OK` and every visitor is sent to the live page.
pub turns-Steady :
    (last : ℕ) (signs : List Sign) → Steady last signs → turns signs last ≡ guarded signs
unfolding render_index ping
turns-Steady last [] steady = refl
turns-Steady last (visit_at t ∷ signs) (after, soon, steady) =
    rw (is_recent-within last t after soon, turns-Steady last signs steady) refl
turns-Steady last (ping_at t ∷ signs) (after, soon, steady) =
    rw (is_recent-within last t after soon, turns-Steady t signs steady) refl

-- After the page of the player was left, a visitor gets it, except in the first eleven seconds of any
-- later day. The time of the visit is a day, a second of the day and a microsecond of the second.
pub render_index-unload :
    (day second micro last : ℕ)
    → second < 86400
    → micro < 1000000
    → (render_index ((day * 86400 + second) * 1000000 + micro) (unload last).1).0
      ≡ (if leb second 10 then redirect_to_live else player_page)
unfolding render_index unload
render_index-unload day second micro last within short =
    let same : seconds_between 0 ((day * 86400 + second) * 1000000 + micro) ≡ second =
      omega arith in
    rw same (ground arith)
