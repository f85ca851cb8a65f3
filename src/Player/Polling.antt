-- ===== src/Player/Polling.antt =====
-- The polls for the rates: how many are under way, and what an answer does.
use workload_simulator.Prelude.{
  ℕ, ◌+◌, ◌*◌, ◌==◌, ◌≤◌, pos, ◌+ℤ◌, ◌≡◌, refl, ap, ap₂, ◌∙◌, Bool, true, false, not, Option, none,
  some, List, [], ◌∷◌, arith, Bool-cases, inl, inr, if◌then◌else◌, length,
}
use workload_simulator.Js.{Scalar, truthy, num_add, to_text}
use workload_simulator.Js.Parse.{Text, int, parse_float}
use workload_simulator.Js.Index.{find, put}
use workload_simulator.Js.Index.Laws.{find-put}
use workload_simulator.Widget.{Widget}
use workload_simulator.Page.{Page, Player}
use workload_simulator.Graph.{record_point}
use workload_simulator.Settings.{get_settings, update_settings}
use workload_simulator.Alerts.{
  done, threw, page_of, and_then, PageError, clear_loading_status, set_loading_status,
}
use workload_simulator.Alerts.Frame.{Rest}
use workload_simulator.Player.Frame.{rest-report}
use workload_simulator.Player.{
  Answer, Stats, with_player, play_answered, pause_answered, poll_answered, start, stop, set_timer,
  report, send_play, send_pause, press_play, show_rates, show_rate, record_totals, total_rates,
  total_rdone, float_at, on_workload_receive, on_play_success, on_pause_success,
  update_workload_loop,
}
use workload_simulator.Player.Consistent.{
  controls, busy, controls-on_play_success, poll_goes_on, poll_ends, on_workload_receive-cases,
}
use workload_simulator.Player.Events.{handle, press, played, paused}

-- Polls that wait for an answer, and timers that will send one.
abbrev pub loops : Page → ℕ
loops p = p.player.polls + p.player.timers

loops-report : (e : Option PageError) (p : Page) → loops (page_of (report e p)) ≡ loops p
loops-report e p = ap (λ (s : Rest). s.player.polls + s.player.timers) (rest-report e p)

loops-press_play : (p : Page) → loops (press_play p) ≡ loops p
unfolding press_play send_play send_pause set_loading_status get_settings update_settings
loops-press_play p = ground arith

module _ (knob : Scalar → Text → Text) where
  loops-start : (p : Page) → loops (start knob p) ≡ loops p + 1
  unfolding start update_workload_loop
  loops-start p = omega arith

  loops-on_play_success :
      (d : Answer) (p : Page)
      → truthy d.running ≡ true
      → loops (page_of (on_play_success knob d p)) ≡ loops p + 1
  unfolding on_play_success clear_loading_status play_answered
  loops-on_play_success d p t =
      ap (λ b. loops (page_of (if b then report d.error (start knob q) else report d.error halted)))
        t
      ∙ loops-report d.error (start knob q)
      ∙ loops-start q
    where
      q : Page
      q = clear_loading_status (play_answered p)

      halted : Page
      halted = with_player (λ s. record s { running = 0 }) q

  loops-stop : (p : Page) → loops (stop knob p) ≡ loops p
  unfolding stop
  loops-stop p = refl

  loops-on_pause_success :
      (d : Answer) (p : Page)
      → truthy d.running ≡ false
      → loops (page_of (on_pause_success knob d p)) ≡ loops p
  unfolding on_pause_success clear_loading_status pause_answered
  loops-on_pause_success d p t =
      ap (λ b. loops (page_of (if not b then report d.error (stop knob q) else report d.error q))) t
      ∙ loops-report d.error (stop knob q)
      ∙ loops-stop q
    where
      q : Page
      q = clear_loading_status (pause_answered p)

  abbrev pub pause_and_play : Answer → Answer → Page → Page
  pause_and_play d e p =
      handle knob (played e) (handle knob press (handle knob (paused d) (handle knob press p)))

  -- A pause and a play in a row, with no timer and no poll's answer in between, leave the page busy
  -- with one more loop of polls than it had: the earlier loop is not ended.
  pub loops-pause_and_play :
      (d e : Answer) (p : Page)
      → truthy d.running ≡ false
      → truthy e.running ≡ true
      → (controls (pause_and_play d e p) ≡ busy) × (loops (pause_and_play d e p) ≡ loops p + 1)
  loops-pause_and_play d e p f t =
      let paused_page = handle knob (paused d) (handle knob press p) in
      (
        (controls-on_play_success knob e (handle knob press paused_page)).0 t,
        loops-on_play_success e (handle knob press paused_page) t
            ∙ ap (λ (n : ℕ). n + 1)
                (loops-press_play paused_page
                  ∙ loops-on_pause_success d (press_play p) f
                  ∙ loops-press_play p),
      )

  -- Every key of the rates has a widget.
  abbrev pub Known : List (ℕ × Scalar) → List (ℕ × Widget) → Type 0
  Known [] m = Unit
  Known ((i, _) ∷ stats) m = ((w : Widget) × (find i m ≡ some w)) × Known stats m

  Known-put :
      (stats : List (ℕ × Scalar)) (i : ℕ) (w : Widget) (m : List (ℕ × Widget))
      → Known stats m
      → Known stats (put i w m)
  Known-put [] i w m k = tt
  Known-put ((j, v) ∷ stats) i w m ((u, found), k) = (
    elim (Bool-cases (j == i)) [
      | inl same ↦ (w, find-put i j w m ∙ rw same)
      | inr other ↦ (u, find-put i j w m ∙ rw other found)
    ],
    Known-put stats i w m k,
  )

  -- The loop over known rates ends without an exception and touches no more than the widgets.
  show_rates-done :
      (stats : List (ℕ × Scalar)) (p : Page)
      → Known stats p.registry.query_widget_map
      → (r : Page) × (show_rates knob stats p ≡ done r)
        × (r.player ≡ p.player)
        × (r.livemode ≡ p.livemode)
  unfolding show_rates show_rate
  show_rates-done [] p k = (p, refl, refl, refl)
  show_rates-done ((i, v) ∷ stats) p ((w, found), k) =
      let (r, e, player, live) =
        show_rates-done stats (show_rate knob i (parse_float (to_text v)) w p)
          (Known-put stats i _ p.registry.query_widget_map k) in
      (r, rw (found, show_rates) e, player, live)

  pub going_on :
      (d : Stats) (p : Page)
      → p.player.running ≡ 1
      → truthy d.running ≡ true
      → on_workload_receive knob d p ≡ poll_goes_on knob d (poll_answered p)
  going_on d p one t =
      on_workload_receive-cases knob d p
      ∙ ap₂
          (λ a b.
            if a
            then done (poll_answered p)
            else (if b
                then poll_goes_on knob d (poll_answered p)
                else poll_ends knob d (poll_answered p)))
          not_stopped t
    where
      not_stopped : (p.player.running == 0) ≡ false
      not_stopped = ground arith

  -- While a workload runs, the answer to a poll with rates of known widgets adds the sum of the rates
  -- to the graph and sets the timer for the next poll, so that the polls go on.
  pub on_workload_receive-running :
      (d : Stats) (p : Page)
      → p.player.running ≡ 1
      → 1 ≤ p.player.polls
      → truthy d.running ≡ true
      → Known d.stats p.registry.query_widget_map
      → (r : Page) × (on_workload_receive knob d p ≡ done r)
        × (loops r ≡ loops p)
        × (r.player.qps_points
            ≡ record_point p.livemode (total_rates (int (pos 0)) d.stats) p.player.qps_points)
  unfolding poll_answered set_timer record_totals poll_goes_on
  on_workload_receive-running d p one some_poll t known =
      let (r, e, player, live) = show_rates-done d.stats (poll_answered p) known in
      (
        set_timer (record_totals knob d r),
        going_on d p one t
            ∙ ap (λ o. and_then o (λ s. done (set_timer (record_totals knob d s)))) e,
        ap (λ (s : Player). s.polls + (s.timers + 1)) player ∙ omega arith,
        ap₂
            (λ (b : Bool) (s : Player).
              record_point b (total_rates (int (pos 0)) d.stats) s.qps_points)
            live player,
      )

  -- A rate of an unknown widget, as the first one, stops the handler, and no poll follows.
  pub on_workload_receive-unknown :
      (d : Stats) (p : Page) (i : ℕ) (v : Scalar) (stats : List (ℕ × Scalar))
      → p.player.running ≡ 1
      → 1 ≤ p.player.polls
      → truthy d.running ≡ true
      → d.stats ≡ (i, v) ∷ stats
      → find i p.registry.query_widget_map ≡ none
      → (on_workload_receive knob d p ≡ threw (poll_answered p))
        × (loops (poll_answered p) + 1 ≡ loops p)
  unfolding poll_answered poll_goes_on show_rates
  on_workload_receive-unknown d p i v stats one some_poll t e missing = (
    going_on d p one t
        ∙ ap (λ o. and_then o (λ s. done (set_timer (record_totals knob d s))))
            (ap (λ s. show_rates knob s (poll_answered p)) e ∙ stops),
    omega arith,
  )
    where
      stops : show_rates knob ((i, v) ∷ stats) (poll_answered p) ≡ threw (poll_answered p)
      stops = rw (missing, show_rates) refl

pub pos-+ℤ : (a b : ℕ) → pos a +ℤ pos b ≡ pos (a + b)
unfolding ◌+ℤ◌
pos-+ℤ a b = ground arith

-- What the loop over `rdone` adds up is not the sum of its values: it is the value under one key, the
-- last one of the rates, as often as `rdone` has entries.
pub total_rdone-repeats :
    (i : Option ℕ) (rdone : List (ℕ × Scalar)) (c n : ℕ) (rest : List (ℕ × Scalar))
    → float_at i rdone ≡ int (pos c)
    → total_rdone i rdone (int (pos n)) rest ≡ int (pos (n + length rest * c))
unfolding total_rdone
total_rdone-repeats i rdone c n [] e = ap (λ (k : ℕ). int (pos k)) (omega arith)
total_rdone-repeats i rdone c n (_ ∷ rest) e =
    ap (λ t. total_rdone i rdone t rest) (ap (num_add (int (pos n))) e ∙ ap int (pos-+ℤ n c))
    ∙ total_rdone-repeats i rdone c (n + c) rest e
    ∙ ap (λ (k : ℕ). int (pos k)) (grind arith)
