-- ===== src/Server/ToPage/Stale.antt =====
-- Rates of models whose widgets are gone: the maps of the monitor are made once, when the server
-- starts.
use mathlib.Core.List.{Permᴰ}
use mathlib.Core.List.Permᴰ
use workload_simulator.Prelude.{
  ℕ, ◌+◌, ◌≤◌, ◌==◌, ◌≡◌, ◌≢◌, refl, ap, ◌∙◌, false, none, some, List, [], ◌∷◌, arith, Bool-cases,
  Option-cases, inl, inr,
}
use workload_simulator.Js.{Scalar, truthy, to_text}
use workload_simulator.Js.Parse.{Text, text_eq, parse_float}
use workload_simulator.Js.Index.{find}
use workload_simulator.Js.Index.Laws.{find-put}
use workload_simulator.Js.Index.Dense.{All-Permᴰ}
use workload_simulator.Js.Names
use workload_simulator.Js.Names.Laws.{Lacks}
use workload_simulator.Go.{itoa}
use workload_simulator.Go.Laws.{text_eq-itoa}
use workload_simulator.Page.{Page, Player}
use workload_simulator.Alerts.{and_then, done, threw}
use workload_simulator.Player.{
  set_timer, record_totals, poll_answered, show_rates, show_rate, on_workload_receive,
}
use workload_simulator.Player.Consistent.{poll_goes_on}
use workload_simulator.Player.Polling.{going_on, loops}
use workload_simulator.Server.{App}
use workload_simulator.Server.Monitor.{Report, handle_stats}
use workload_simulator.Server.Monitor.Totals.{entries}
use workload_simulator.Server.Pool.{Pool, History}
use workload_simulator.Server.Pool.Reports.{HasRate, History-HasRate}
use workload_simulator.Server.ToPage.{encode, scalars, received}

module _ (knob : Scalar → Text → Text) where
  -- If any of the rates has no widget, the loop over the rates ends with an exception.
  show_rates-unknown :
      (k : ℕ) (stats : List (ℕ × Scalar)) (p : Page)
      → find k stats ≢ none
      → find k p.registry.query_widget_map ≡ none
      → (s : Page) × (show_rates knob stats p ≡ threw s) × (s.player ≡ p.player)
  unfolding show_rates show_rate find
  show_rates-unknown k [] p there missing = absurd (there refl)
  show_rates-unknown k ((i, v) ∷ stats) p there missing =
      elim (Option-cases (find i p.registry.query_widget_map)) [
        | inl gone ↦ (p, rw (gone, show_rates) refl, refl)
        | inr (w, found) ↦ elim (Bool-cases (k == i)) [
          | inl same ↦ absurd (ground arith)
          | inr other ↦
              let (s, e, player) =
                show_rates-unknown k stats (show_rate knob i (parse_float (to_text v)) w p)
                  (λ n. there (rw other n))
                  (find-put i k _ p.registry.query_widget_map ∙ rw other missing) in
              (s, rw (found, show_rates) e, player)
        ]
      ]

Lacks-encode :
    (k : ℕ) (rates : List (ℕ × ℕ)) → find k (scalars rates) ≡ none → Lacks (itoa k) (encode rates)
unfolding find
Lacks-encode k [] missing = tt
Lacks-encode k ((i, v) ∷ rates) missing = elim (Bool-cases (k == i)) [
  | inl same ↦ cc (rw same at missing)
  | inr other ↦ (text_eq-itoa k i ∙ other, Lacks-encode k rates (rw other at missing))
]

find-Lacks : (k : Text) (rates : List (Text × ℕ)) → Lacks k rates → Names.find k rates ≡ none
unfolding Names.find
find-Lacks k [] l = refl
find-Lacks k ((j, v) ∷ rates) l = rw (l.0, Names.find) (find-Lacks k rates l.1)

module _ (knob : Scalar → Text → Text) where
  -- A model that was reported once is in all later reports, whatever plays, pauses and polls come; if
  -- a page that plays has no widget with its id, as when the widget was closed, the answer with the
  -- report ends in an exception and no poll follows it.
  pub on_workload_receive-History :
      {before after : Pool} (k : ℕ) (rep : Report) (app : App) (rates rdone : List (ℕ × ℕ))
      (p : Page)
      → HasRate (itoa k) before.shared
      → History before after
      → after.shared.pending ≡ some rep
      → Permᴰ (entries (handle_stats (some rep) app).stats) (encode rates)
      → find k p.registry.query_widget_map ≡ none
      → p.player.running ≡ 1
      → 1 ≤ p.player.polls
      → (s : Page) × (on_workload_receive knob (received (some rep) app rates rdone) p ≡ threw s)
        × (loops s + 1 ≡ loops p)
  unfolding handle_stats poll_answered poll_goes_on truthy
  on_workload_receive-History k rep app rates rdone p rate history waits read missing running
        some_poll =
      let there : find k (scalars rates) ≢ none = λ gone.
        (History-HasRate (itoa k) history rate).waiting rep waits (
          find-Lacks (itoa k) rep.request_per_s (
            All-Permᴰ (λ (t : Text × ℕ). text_eq (itoa k) t.0 ≡ false) (Permᴰ.symm read)
              (Lacks-encode k rates gone))) in
      let (s, e, player) =
        show_rates-unknown knob k (scalars rates) (poll_answered p) there missing in
      (
        s,
        going_on knob (received (some rep) app rates rdone) p running refl
            ∙ ap
                (λ o. and_then o (λ s.
                  done (set_timer (record_totals knob (received (some rep) app rates rdone) s))))
                e,
        ap (λ (t : Player). t.polls + t.timers + 1) player ∙ omega arith,
      )
