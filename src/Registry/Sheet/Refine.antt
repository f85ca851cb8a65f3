-- ===== src/Registry/Sheet/Refine.antt =====
-- The widgets implement the sheet.
use workload_simulator.Prelude.{
  ℕ, suc, ◌+◌, ◌≡◌, refl, sym, ap, ◌∙◌, true, false, Option, none, some, List, [], ◌∷◌, ◌++◌, map,
  arith, Option-cases, inl, inr,
}
use workload_simulator.Js.{Scalar}
use workload_simulator.Js.Parse.{Text}
use workload_simulator.Js.Index.{put, find, remove, map_values, Ascending}
use workload_simulator.Js.Index.Laws.{put-above, find-below}
use workload_simulator.Widget.{
  Widget, initialize, freeze, unfreeze, click, highlight_error, with_editor,
}
use workload_simulator.Registry.{
  Registry, empty, close, delete_widget, update, new_widget, freeze_all, unfreeze_all,
}
use workload_simulator.Registry.Laws.{Owns, Owned, Owns-find}
use workload_simulator.Registry.Invariant.{IsValid, empty-IsValid, clear_query_widgets-empty}
use workload_simulator.Registry.Actions.{
  Action, add, clear, freeze_widgets, unfreeze_widgets, press_close, click_on, type_query, report,
  show_rate, act, run, type_text, act-IsValid,
}
use workload_simulator.Registry.Sheet.{
  Row, Sheet, lock, write, erase, change, step, replay, row_of, rows_of, sheet_of,
}

same_next :
    (n : ℕ) {rows rows' : List Row}
    → rows ≡ rows'
    → ◌≡◌ {A = Sheet} (record { next = n; rows = rows }) (record { next = n; rows = rows' })
same_next n e = ap (λ rows. record { next = n; rows = rows }) e

rows_of-append :
    (m : List (ℕ × Widget)) (k : ℕ) (w : Widget)
    → rows_of (m ++ (k, w) ∷ []) ≡ rows_of m ++ row_of k w ∷ []
rows_of-append [] k w = refl
rows_of-append ((j, u) ∷ m) k w = ap (λ rows. row_of j u ∷ rows) (rows_of-append m k w)

id-row_of : (k : ℕ) (w : Widget) → (row_of k w).id ≡ k
id-row_of k w = ground arith

rows_of-remove : (k : ℕ) (m : List (ℕ × Widget)) → rows_of (remove k m) ≡ erase k (rows_of m)
unfolding remove
rows_of-remove k [] = refl
rows_of-remove k ((j, w) ∷ m) = ground (arith, id-row_of j w, rows_of-remove k m)

module _ (f : Widget → Widget) (g : Row → Row)
    (same : (k : ℕ) (w : Widget) → Owns k w → row_of k (f w) ≡ g (row_of k w)) where
  rows_of-map_values :
      (m : List (ℕ × Widget)) → Owned m → rows_of (map_values f m) ≡ map g (rows_of m)
  unfolding map_values
  rows_of-map_values [] o = refl
  rows_of-map_values ((k, w) ∷ m) o = ground (arith, same k w o.0, rows_of-map_values m o.1)

  rows_of-put :
      (lo k : ℕ) (w : Widget) (m : List (ℕ × Widget))
      → Ascending lo m
      → Owns k w
      → find k m ≡ some w
      → rows_of (put k (f w) m) ≡ change k g (rows_of m)
  unfolding put find
  rows_of-put lo k w [] a o e = cc
  rows_of-put lo k w ((j, u) ∷ m) a o e =
      ground
        (arith, same k w o, id-row_of j u, rows_of-put (suc j) k w m a.1 o, find-below (suc j) k m)

  change-missing :
      (k : ℕ) (m : List (ℕ × Widget)) → find k m ≡ none → change k g (rows_of m) ≡ rows_of m
  unfolding find
  change-missing k [] e = refl
  change-missing k ((j, u) ∷ m) e = ground (arith, id-row_of j u, change-missing k m)

  rows_of-update :
      (id : ℕ) (r : Registry)
      → IsValid r
      → sheet_of (update id f r)
        ≡ record (sheet_of r) { rows = change id g (rows_of r.query_widget_map) }
  unfolding update
  rows_of-update id r v = elim (Option-cases (find id r.query_widget_map)) [
    | inl missing ↦
        rw (missing, update)
          (same_next r.global_query_id (sym (change-missing id r.query_widget_map missing)))
    | inr (w, found) ↦
        rw (found, update)
          (same_next r.global_query_id (
            rows_of-put 0 id w r.query_widget_map v.ascending
              (Owns-find id w r.query_widget_map v.owned found) found))
  ]

change_nothing : (id : ℕ) (rows : List Row) → change id (λ row. row) rows ≡ rows
change_nothing id [] = refl
change_nothing id (row ∷ rows) = ground (arith, change_nothing id rows)

-- A change that the sheet does not show.
unseen :
    (f : Widget → Widget) (id : ℕ) (r : Registry)
    → ((k : ℕ) (w : Widget) → Owns k w → row_of k (f w) ≡ row_of k w)
    → IsValid r
    → sheet_of (update id f r) ≡ sheet_of r
unseen f id r same v =
    rows_of-update f (λ row. row) same id r v
    ∙ same_next r.global_query_id (change_nothing id (rows_of r.query_widget_map))

erase-missing : (k : ℕ) (m : List (ℕ × Widget)) → find k m ≡ none → erase k (rows_of m) ≡ rows_of m
unfolding find
erase-missing k [] e = refl
erase-missing k ((j, u) ∷ m) e = ground (arith, id-row_of j u, erase-missing k m)

-- The handler of a close button of no widget stops before it changes anything.
abbrev closed : Registry → Option Registry → Registry
closed r none = r
closed r (some r') = r'

sheet_of-close :
    (id : ℕ) (r : Registry)
    → IsValid r
    → sheet_of (closed r (close id r)) ≡ step (press_close id) (sheet_of r)
unfolding close delete_widget
sheet_of-close id r v = elim (Option-cases (find id r.query_widget_map)) [
  | inl missing ↦
      ap (λ o. sheet_of (closed r o)) {x = close id r} {y = none} (rw (missing, close) refl)
      ∙ same_next r.global_query_id (sym (erase-missing id r.query_widget_map missing))
  | inr (w, found) ↦
      let own = (Owns-find id w r.query_widget_map v.owned found).own_id in
      ap (λ o. sheet_of (closed r o)) {x = close id r} {y = some (delete_widget w r)}
        (rw (found, close) refl)
      ∙ same_next r.global_query_id (
          ap (λ k. rows_of (remove k r.query_widget_map)) own
          ∙ rows_of-remove id r.query_widget_map)
]

module _ (knob : Scalar → Text → Text) (dial_max_value : Scalar) where
  sheet_of-act :
      (a : Action) (r : Registry)
      → IsValid r
      → sheet_of (act knob dial_max_value a r) ≡ step a (sheet_of r)
  unfolding new_widget freeze_all unfreeze_all initialize freeze unfreeze click highlight_error
      type_text with_editor
  sheet_of-act add r v = same_next (r.global_query_id + 1) (
      ap rows_of (put-above r.global_query_id _ r.query_widget_map v.below)
      ∙ rows_of-append r.query_widget_map r.global_query_id _)
  sheet_of-act clear r v = ap sheet_of (clear_query_widgets-empty r v)
  sheet_of-act freeze_widgets r v = same_next r.global_query_id (
      rows_of-map_values (freeze knob dial_max_value) (lock true)
        (λ k w o. ground (arith, o.has_editor.1)) r.query_widget_map v.owned)
  sheet_of-act unfreeze_widgets r v = same_next r.global_query_id (
      rows_of-map_values (unfreeze knob dial_max_value) (lock false)
        (λ k w o. ground (arith, o.has_editor.1)) r.query_widget_map v.owned)
  sheet_of-act (press_close id) r v = sheet_of-close id r v
  sheet_of-act (click_on id) r v = unseen click id r (λ k w o. ground (arith, o.has_editor.1)) v
  sheet_of-act (type_query id q) r v =
      rows_of-update (type_text q) (write q) (λ k w o. ground (arith, o.has_editor.1)) id r v
  sheet_of-act (report id message) r v = unseen (highlight_error message) id r (λ k w o. refl) v
  sheet_of-act (show_rate id x) r v = unseen _ id r (λ k w o. refl) v

  replays :
      (actions : List Action) (r : Registry)
      → IsValid r
      → sheet_of (run knob dial_max_value actions r) ≡ replay actions (sheet_of r)
  replays [] r v = refl
  replays (a ∷ actions) r v =
      replays actions (act knob dial_max_value a r) (act-IsValid knob dial_max_value a r v)
      ∙ ap (replay actions) (sheet_of-act a r v)

  -- Whatever the user and the program do to the widgets, from a page without widgets, the page shows
  -- the sheet that the same actions make of an empty one: rows are added below with the next id, closed
  -- by their id, written while they are not locked, locked and unlocked together, and neither clicks nor
  -- error reports nor rates change a query.
  pub run-empty_refines :
      (actions : List Action)
      → sheet_of (run knob dial_max_value actions empty)
        ≡ replay actions (record { next = 0; rows = [] })
  run-empty_refines actions = replays actions empty empty-IsValid
