-- ===== src/Live/Totals.antt =====
-- What live mode records of an answer, and that its polls go on.
use workload_simulator.Prelude.{
  ℕ, ◌+◌, ◌≤◌, ◌≡◌, refl, ap, ap₂, ◌∙◌, Bool, true, List, [], ◌∷◌, arith, Bool-cases, Option-cases,
  inl, inr, reverse, pos, leb, ◌==◌,
}
use workload_simulator.Js.{Scalar, truthy}
use workload_simulator.Js.Names
use workload_simulator.Js.Parse.{Text, Num, int}
use workload_simulator.Js.Index.{find}
use workload_simulator.Page.{Page, Player}
use workload_simulator.Graph.{record_point}
use workload_simulator.Alerts.{done, set_loading_status, clear_loading_status}
use workload_simulator.Player.{set_timer, poll_answered}
use workload_simulator.Player.Polling.{loops}
use workload_simulator.Live.{
  max_queries, LiveState, LiveStats, signature_widget, signature_to_query_widget, show_query,
  show_queries, delete_signatures, sort_again, update_metrics, sort_rates, total_qps, record_total,
  show_stats, on_workload_receive,
}
use workload_simulator.Live.Sorting.{total_qps-reverse, total_qps-sort_rates}

-- `q` has the graphs and the requests of `p`.
record Same (p q : Page) : Type 0 where
  same_player : q.player ≡ p.player
  same_mode : q.livemode ≡ p.livemode

unchanged : (p q : Page) → q.player ≡ p.player → q.livemode ≡ p.livemode → Same p q
unchanged p q e h = record { same_player = e; same_mode = h }

Same-trans : (p q r : Page) → Same p q → Same q r → Same p r
Same-trans p q r a b = unchanged p r (b.same_player ∙ a.same_player) (b.same_mode ∙ a.same_mode)

delete_signatures-Same :
    (m : List (Text × ℕ)) (s : LiveState) (p : Page) → Same p (delete_signatures m (s, p)).1
unfolding delete_signatures
delete_signatures-Same [] s p = unchanged _ _ refl refl
delete_signatures-Same ((k, id) ∷ rest) s p =
    Same-trans p _ _
      (elim (Option-cases (find id p.registry.query_widget_map)) [
        | inl missing ↦ rw missing (unchanged _ _ refl refl)
        | inr (w, found) ↦ rw found (unchanged _ _ refl refl)
      ])
      (delete_signatures-Same rest _ _)

sort_again-Same : (s : LiveState) (p : Page) → Same p (sort_again (s, p)).1
unfolding sort_again
sort_again-Same s p = elim (Bool-cases (s.resort == 1)) [
  | inl again ↦ rw again (delete_signatures-Same s.signature_to_widget s p)
  | inr kept ↦ rw kept (unchanged _ _ refl refl)
]

module _ (knob : Scalar → Text → Text) where
  found-Same :
      (signature : Text) (s : LiveState) (p : Page)
      → Same p (signature_to_query_widget knob signature (s, p)).1.1
  unfolding signature_to_query_widget signature_widget set_loading_status
  found-Same signature s p = elim (Option-cases (Names.find signature s.signature_to_widget)) [
    | inr (id, found) ↦ rw (found, signature_to_query_widget) (unchanged _ _ refl refl)
    | inl missing ↦ elim (Bool-cases (leb max_queries s.current_queries)) [
      | inl full ↦ rw (missing, signature_to_query_widget, full) (unchanged _ _ refl refl)
      | inr room ↦ rw (missing, signature_to_query_widget, room) (unchanged _ _ refl refl)
    ]
  ]

  show_query-Same :
      (signature : Text) (rate : Num) (s : LiveState) (p : Page)
      → Same p (show_query knob signature rate (s, p)).1
  unfolding show_query
  show_query-Same signature rate s p =
      let found = found-Same signature s p in
      elim (Option-cases (signature_to_query_widget knob signature (s, p)).0) [
        | inl nothing ↦ rw (nothing, show_query) found
        | inr (id, e) ↦ rw (e, show_query) (unchanged p _ found.same_player found.same_mode)
      ]

  show_queries-Same :
      (rates : List (Text × Num)) (s : LiveState) (p : Page)
      → Same p (show_queries knob rates (s, p)).1
  unfolding show_queries
  show_queries-Same [] s p = unchanged _ _ refl refl
  show_queries-Same ((k, rate) ∷ rates) s p =
      Same-trans p _ _ (show_query-Same k rate s p) (show_queries-Same rates _ _)

  -- In live mode, the answer of a server that runs adds one point to the graph, the sum of all rates
  -- in the answer, those of the queries that have no widget included, and the polls go on.
  pub on_workload_receive-total_qps :
      (d : LiveStats) (s : LiveState) (p : Page)
      → truthy d.running ≡ true
      → 1 ≤ p.player.polls
      → (q : Page) × ((on_workload_receive knob d (s, p)).1 ≡ done q)
        × (q.player.qps_points
            ≡ record_point p.livemode (total_qps (int (pos 0)) d.plancache) p.player.qps_points)
        × (loops q ≡ loops p)
  unfolding on_workload_receive show_stats record_total set_timer clear_loading_status poll_answered
  on_workload_receive-total_qps d s p runs some_poll =
      let rates = reverse (sort_rates d.plancache) in
      let start = sort_again (update_metrics d.metrics s, poll_answered p) in
      let same =
        Same-trans _ _ _ (sort_again-Same (update_metrics d.metrics s) (poll_answered p))
          (show_queries-Same rates start.0 start.1) in
      (
        (show_stats knob d (s, poll_answered p)).1,
        rw runs refl,
        ap₂ (λ (b : Bool) (l : Player). record_point b (total_qps (int (pos 0)) rates) l.qps_points)
              same.same_mode same.same_player
            ∙ ap (λ n. record_point p.livemode n p.player.qps_points)
                (total_qps-reverse (int (pos 0)) (sort_rates d.plancache)
                  ∙ total_qps-sort_rates (int (pos 0)) d.plancache),
        ap (λ (l : Player). l.polls + (l.timers + 1)) same.same_player ∙ omega (arith, some_poll),
      )
