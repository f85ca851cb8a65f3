-- ===== src/Live/Laws.antt =====
-- The limit on the widgets of live mode, and that their page stays valid.
use workload_simulator.Prelude.{
  ℕ, ◌+◌, ◌≤◌, ◌≡◌, refl, ap, true, Option, none, some, List, [], ◌∷◌, arith, Bool-cases,
  Option-cases, inl, inr, length, leb, ◌==◌, reverse,
}
use workload_simulator.Js.{Scalar, num, truthy}
use workload_simulator.Js.Names
use workload_simulator.Js.Parse.{Text, Num}
use workload_simulator.Js.Index.{find}
use workload_simulator.Dial.{set_dial_value}
use workload_simulator.Widget.{with_editor, highlight_error}
use workload_simulator.Registry.{update}
use workload_simulator.Registry.Invariant.{
  IsValid, new_widget-IsValid, update-IsValid, delete_widget-IsValid, freeze-Owns,
  highlight_error-Owns,
}
use workload_simulator.Page.{Page}
use workload_simulator.Settings.{display_settings}
use workload_simulator.Alerts.{
  Outcome, done, threw, page_of, PageError, create_error, highlight_all, notify, set_loading_status,
  clear_loading_status,
}
use workload_simulator.Player.{report, set_timer, poll_answered}
use workload_simulator.Live.{
  max_queries, LiveState, LiveStats, signature_widget, signature_to_query_widget, show_query,
  show_queries, delete_signatures, sort_again, update_metrics, record_total, sort_rates, show_stats,
  wait_after, on_workload_receive,
}

-- `CURRENT_QUERIES` counts the signatures with a widget, it keeps to the limit, and the page is valid.
pub record IsLive (sp : LiveState × Page) : Type 0 where
  pub counted : length sp.0.signature_to_widget ≡ sp.0.current_queries
  pub limited : sp.0.current_queries ≤ 24
  pub valid : IsValid sp.1.registry

pub length-put :
    (k : Text) (id : ℕ) (m : List (Text × ℕ))
    → Names.find k m ≡ none
    → length (Names.put k id m) ≡ length m + 1
unfolding Names.put Names.find
length-put k id [] e = refl
length-put k id ((j, w) ∷ m) e = ground (arith, length-put k id m)

delete_signatures-IsLive :
    (m : List (Text × ℕ)) (s : LiveState) (p : Page)
    → s.signature_to_widget ≡ m
    → IsLive (s, p)
    → IsLive (delete_signatures m (s, p))
unfolding delete_signatures
delete_signatures-IsLive [] s p e l = l
delete_signatures-IsLive ((k, id) ∷ rest) s p e l = delete_signatures-IsLive rest _ _ refl (record {
  counted = omega (arith, l.counted, ap length e);
  limited = omega (arith, l.limited);
  valid = elim (Option-cases (find id p.registry.query_widget_map)) [
    | inl missing ↦ rw missing l.valid
    | inr (w, found) ↦ rw found (delete_widget-IsValid w p.registry l.valid)
  ];
})

sort_again-IsLive : (s : LiveState) (p : Page) → IsLive (s, p) → IsLive (sort_again (s, p))
unfolding sort_again
sort_again-IsLive s p l = elim (Bool-cases (s.resort == 1)) [
  | inl again ↦
      let d = delete_signatures-IsLive s.signature_to_widget s p refl l in
      rw again (record { counted = d.counted; limited = d.limited; valid = d.valid })
  | inr kept ↦ rw kept l
]

module _ (knob : Scalar → Text → Text) where
  signature_widget-IsValid :
      (signature : Text) (p : Page)
      → IsValid p.registry
      → IsValid (signature_widget knob signature p).registry
  unfolding signature_widget set_loading_status
  signature_widget-IsValid signature p v =
      update-IsValid p.registry.global_query_id _ _
        (λ k w o.
          freeze-Owns knob p.form.dial_max_value k
            (record w {
              codemirror = with_editor (λ e. record e { value = signature }) w.codemirror;
            })
            (record {
              own_id = o.own_id;
              own_close = o.own_close;
              has_editor = (_, ap (with_editor _) o.has_editor.1);
            }))
        (new_widget-IsValid knob p.form.dial_max_value p.registry v)

  found-IsLive :
      (signature : Text) (s : LiveState) (p : Page)
      → IsLive (s, p)
      → IsLive (signature_to_query_widget knob signature (s, p)).1
  unfolding signature_to_query_widget
  found-IsLive signature s p l = elim (Option-cases (Names.find signature s.signature_to_widget)) [
    | inr (id, found) ↦ rw (found, signature_to_query_widget) l
    | inl missing ↦ elim (Bool-cases (leb max_queries s.current_queries)) [
      | inl full ↦ rw (missing, signature_to_query_widget, full) l
      | inr room ↦
          rw (missing, signature_to_query_widget, room)
            (record {
              counted = omega (
                arith,
                l.counted,
                length-put signature p.registry.global_query_id s.signature_to_widget missing,
              );
              limited = ground (arith, l.limited);
              valid = signature_widget-IsValid signature p l.valid;
            })
    ]
  ]

  show_query-IsLive :
      (signature : Text) (rate : Num) (sp : LiveState × Page)
      → IsLive sp
      → IsLive (show_query knob signature rate sp)
  unfolding show_query
  show_query-IsLive signature rate (s, p) l =
      let found = (signature_to_query_widget knob signature (s, p)).0 in
      let after = found-IsLive signature s p l in
      elim (Option-cases found) [
        | inl nothing ↦ rw (nothing, show_query) after
        | inr (id, e) ↦
            rw (e, show_query)
              (record {
                counted = after.counted;
                limited = after.limited;
                valid =
                    update-IsValid id
                      (λ w. record w { dial = set_dial_value knob (num rate) w.dial }) _
                      (λ k w o. record {
                        own_id = o.own_id;
                        own_close = o.own_close;
                        has_editor = o.has_editor;
                      })
                      after.valid;
              })
      ]

  show_queries-IsLive :
      (rates : List (Text × Num)) (sp : LiveState × Page)
      → IsLive sp
      → IsLive (show_queries knob rates sp)
  unfolding show_queries
  show_queries-IsLive [] sp l = l
  show_queries-IsLive ((signature, rate) ∷ rates) sp l =
      show_queries-IsLive rates _ (show_query-IsLive signature rate sp l)

  show_stats-IsLive :
      (d : LiveStats) (s : LiveState) (p : Page) → IsLive (s, p) → IsLive (show_stats knob d (s, p))
  unfolding show_stats update_metrics record_total set_timer clear_loading_status
  show_stats-IsLive d s p l =
      let shown = show_queries-IsLive (reverse (sort_rates d.plancache)) _ (
        sort_again-IsLive (update_metrics d.metrics s) p
          (record { counted = l.counted; limited = l.limited; valid = l.valid })) in
      record { counted = shown.counted; limited = shown.limited; valid = shown.valid }

highlight_all-IsValid :
    (errors : List (ℕ × Text)) (p : Page)
    → IsValid p.registry
    → IsValid (page_of (highlight_all errors p)).registry
unfolding highlight_all update
highlight_all-IsValid [] p v = v
highlight_all-IsValid ((id, message) ∷ errors) p v =
    elim (Option-cases (find id p.registry.query_widget_map)) [
      | inl missing ↦ rw (missing, highlight_all) v
      | inr (w, found) ↦
          rw (found, highlight_all)
            (highlight_all-IsValid errors _ (
              rw (found, update) at
                (update-IsValid id (highlight_error message) p.registry
                  (highlight_error-Owns message) v)))
    ]

create_error-IsValid :
    (e : PageError) (p : Page) → IsValid p.registry → IsValid (page_of (create_error e p)).registry
unfolding create_error notify display_settings
create_error-IsValid e p v = ground (arith, highlight_all-IsValid e.query_map (notify true e p) v)

report-IsValid :
    (e : Option PageError) (p : Page) → IsValid p.registry → IsValid (page_of (report e p)).registry
report-IsValid none p v = v
report-IsValid (some e) p v = create_error-IsValid e p v

abbrev pub after : LiveState × Outcome → LiveState × Page
after (s, o) = (s, page_of o)

wait_after-IsLive :
    (s : LiveState) (o : Outcome) → IsLive (s, page_of o) → IsLive (after (wait_after s o))
unfolding wait_after
wait_after-IsLive s (done q) l = record {
  counted = l.counted;
  limited = l.limited;
  valid = l.valid;
}
wait_after-IsLive s (threw q) l = l

-- Whatever the server answers, in live mode the number of signatures with a widget is the one that
-- `CURRENT_QUERIES` counts, it does not pass 24, and the widgets of the page stay valid.
pub on_workload_receive-IsLive :
    (knob : Scalar → Text → Text) (d : LiveStats) (s : LiveState) (p : Page)
    → IsLive (s, p)
    → IsLive (after (on_workload_receive knob d (s, p)))
unfolding on_workload_receive poll_answered
on_workload_receive-IsLive knob d s p l = elim (Bool-cases (truthy d.running)) [
  | inl runs ↦
      let shown =
        show_stats-IsLive knob d s (poll_answered p)
          (record { counted = l.counted; limited = l.limited; valid = l.valid }) in
      rw runs shown
  | inr stopped ↦ rw stopped (
      wait_after-IsLive s (report d.error (poll_answered p)) (record {
        counted = l.counted;
        limited = l.limited;
        valid = report-IsValid d.error (poll_answered p) l.valid;
      }))
]
