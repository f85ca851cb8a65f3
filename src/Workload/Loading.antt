-- ===== src/Workload/Loading.antt =====
-- What `loadWorkload` builds.
use workload_simulator.Prelude.{
  ℕ, zero, suc, ◌+◌, ◌≤◌, pos, ◌≡◌, refl, sym, ap, ◌∙◌, Option, none, some, List, [], ◌∷◌, ◌++◌,
  ◌==◌, if◌then◌else◌, arith, length, append_assoc, append-nil, Bool-cases, inl, inr, ltb,
}
use native.Mathlib.Numerals.{add-one}
use native.Mathlib.Nat.{zero-add}
use workload_simulator.Js.{Scalar, num_max}
use workload_simulator.Js.Parse.{Text, Num, nan, int}
use workload_simulator.Js.Parse.Decimal.{floor_number}
use workload_simulator.Js.Index.{find, Ascending, Below}
use workload_simulator.Js.Index.Laws.{
  put-above, find-put_self, find-below, put-put, Below-weaken, Below-append, Ascending-weaken,
}
use workload_simulator.Widget.{Widget, initialize}
use workload_simulator.Registry.{Registry, registry, empty, new_widget, update, clear_query_widgets}
use workload_simulator.Registry.Invariant.{IsValid, clear_query_widgets-empty}
use workload_simulator.Workload.{
  Entry, Workload, max_indexed, max_named, max_index, rounds, fill, load_slot, load_from,
  load_workload,
}

-- The entries that are not `null`, in the order of their keys.
abbrev pub present : List (ℕ × Option Entry) → List Entry
present [] = []
present ((_, none) ∷ m) = present m
present ((_, some e) ∷ m) = e ∷ present m

num_max_pos : (i n : ℕ) → num_max (int (pos i)) (int (pos n)) ≡ int (pos (if ltb i n then n else i))
num_max_pos i n = ground arith

-- The first loop finds a key that is not below any other.
max_indexed_bound :
    (n : ℕ) (m : List (ℕ × Option Entry))
    → (k : ℕ) × (max_indexed (int (pos n)) m ≡ int (pos k)) × (n ≤ k) × Below (suc k) m
unfolding max_indexed
max_indexed_bound n [] = (n, refl, omega arith, tt)
max_indexed_bound n ((i, v) ∷ m) =
    let (k, e, le, b) = max_indexed_bound (if ltb i n then n else i) m in
    (k, ap (λ x. max_indexed x m) (num_max_pos i n) ∙ e, ground arith, (ground arith, b))

registry-path :
    {n n' : ℕ} {m m' : List (ℕ × Widget)} {es es' : List ℕ}
    → n ≡ n'
    → m ≡ m'
    → es ≡ es'
    → registry n m es ≡ registry n' m' es'
registry-path p q s = λ i. record { global_query_id = p i; query_widget_map = q i; elements = s i }

module _ (knob : Scalar → Text → Text) (dial_max_value : Scalar) where
  -- The widgets of the entries, with the ids from `i` on.
  abbrev pub widgets_from : ℕ → List Entry → List (ℕ × Widget)
  widgets_from i [] = []
  widgets_from i (e ∷ es) =
      (i, fill knob dial_max_value e (initialize knob dial_max_value i)) ∷ widgets_from (suc i) es

  abbrev pub ids_from : ℕ → List Entry → List ℕ
  ids_from i [] = []
  ids_from i (e ∷ es) = i ∷ ids_from (suc i) es

  -- The page with the widgets of the entries behind those that it had.
  abbrev pub extended : List Entry → Registry → Registry
  extended es r = record {
    global_query_id = r.global_query_id + length es;
    query_widget_map = r.query_widget_map ++ widgets_from r.global_query_id es;
    elements = r.elements ++ ids_from r.global_query_id es;
  }

  load_slot-some :
      (e : Entry) (r : Registry)
      → Below r.global_query_id r.query_widget_map
      → load_slot knob dial_max_value (some (some e)) r ≡ extended (e ∷ []) r
  unfolding load_slot new_widget update fill
  load_slot-some e r b =
      rw
        (
          find-put_self r.global_query_id (initialize knob dial_max_value r.global_query_id)
              r.query_widget_map,
          update,
        )
        (registry-path (omega arith)
          (put-put r.global_query_id _ _ r.query_widget_map
            ∙ put-above r.global_query_id _ r.query_widget_map b)
          refl)

  extended-extended :
      (e : Entry) (es : List Entry) (r : Registry)
      → extended es (extended (e ∷ []) r) ≡ extended (e ∷ es) r
  extended-extended e es r =
      registry-path (omega arith)
        (rw (add-one) (append_assoc r.query_widget_map (widgets_from r.global_query_id (e ∷ [])) _))
        (rw (add-one) (append_assoc r.elements (r.global_query_id ∷ []) _))

  abbrev Fresh : Registry → Type 0
  Fresh r = Below r.global_query_id r.query_widget_map

  extended-Fresh : (e : Entry) (r : Registry) → Fresh r → Fresh (extended (e ∷ []) r)
  extended-Fresh e r b =
      Below-append (r.global_query_id + 1) r.global_query_id _ r.query_widget_map (omega arith)
        (Below-weaken r.query_widget_map (omega arith) b)

  -- One slot of the workload, given what the rest of the loop does.
  after_slot :
      (n i k : ℕ) (w m : List (ℕ × Option Entry)) (v : Option Entry) (r : Registry)
      → ((s : Registry) → Fresh s → load_from knob dial_max_value n i w s ≡ extended (present m) s)
      → Fresh r
      → load_from knob dial_max_value n i w (load_slot knob dial_max_value (some v) r)
        ≡ extended (present ((k, v) ∷ m)) r
  after_slot n i k w m none r ih b = unfold load_slot in ih r b
  after_slot n i k w m (some e) r ih b =
      ap (load_from knob dial_max_value n i w) (load_slot-some e r b)
      ∙ ih (extended (e ∷ []) r) (extended-Fresh e r b)
      ∙ extended-extended e (present m) r

  load_from-extended :
      (n i : ℕ) (w m : List (ℕ × Option Entry)) (r : Registry)
      → ((j : ℕ) → i ≤ j → find j w ≡ find j m)
      → Ascending i m
      → Below (i + n) m
      → Fresh r
      → load_from knob dial_max_value n i w r ≡ extended (present m) r
  unfolding load_from load_slot find
  load_from-extended zero i w [] r same a b bel =
      registry-path (omega arith) (sym (append-nil r.query_widget_map))
        (sym (append-nil r.elements))
  load_from-extended zero i w (_ ∷ m) r same a b bel = absurd (omega arith)
  load_from-extended (suc n) i w [] r same a b bel =
      ap (λ o. load_from knob dial_max_value n (suc i) w (load_slot knob dial_max_value o r))
        (same i (omega arith))
      ∙ load_from-extended n (suc i) w [] r (λ j h. same j (omega arith)) tt tt bel
  load_from-extended (suc n) i w ((k, v) ∷ m) r same a b bel = elim (Bool-cases (i == k)) [
    | inl here ↦
        ap (λ o. load_from knob dial_max_value n (suc i) w (load_slot knob dial_max_value o r))
          {y = some v} (same i (omega arith) ∙ rw here)
        ∙ after_slot n (suc i) k w m v r
            (λ s f.
              load_from-extended n (suc i) w m s (λ j h. same j (omega arith) ∙ ground arith)
                (Ascending-weaken m (ground arith) a.1) (Below-weaken m (omega arith) b.1) f)
            bel
    | inr later ↦
        let gone : find i ((k, v) ∷ m) ≡ none = ground (arith, find-below (suc k) i m) in
        ap (λ o. load_from knob dial_max_value n (suc i) w (load_slot knob dial_max_value o r))
          (same i (omega arith) ∙ gone)
        ∙ load_from-extended n (suc i) w ((k, v) ∷ m) r (λ j h. same j (omega arith))
            (ground arith, a.1) (omega arith, Below-weaken m (omega arith) b.1) bel
  ]

  -- Loading a workload whose keys are all indices, in a valid page: the widgets that the page had
  -- are gone, and the entries that are not `null` have widgets, in the order of their keys, with the
  -- ids 0, 1, 2 and so on, whatever the gaps between the keys.
  pub load_workload_lem :
      (w : Workload) (r : Registry)
      → IsValid r
      → w.named ≡ []
      → Ascending 0 w.indexed
      → load_workload knob dial_max_value w r ≡ extended (present w.indexed) empty
  unfolding load_workload max_index max_named
  load_workload_lem w r v e a =
      let (k, at_k, _, b) = max_indexed_bound 0 w.indexed in
      ap (load_from knob dial_max_value _ 0 w.indexed) (clear_query_widgets-empty r v)
      ∙ ap (λ n. load_from knob dial_max_value (rounds n) 0 w.indexed empty)
          (ap (max_named (max_indexed (int (pos 0)) w.indexed)) e ∙ at_k)
      ∙ load_from-extended (rounds (int (pos k))) 0 w.indexed w.indexed empty (λ j h. refl) a
          (unfold rounds in rw zero-add b) tt

num_max-nan : (n : Num) → (num_max n nan ≡ nan) × (num_max nan n ≡ nan)
num_max-nan nan = (refl, refl)
num_max-nan (int a) = (refl, refl)

max_named-nan : (m : List (Text × Option Entry)) → max_named nan m ≡ nan
unfolding max_named
max_named-nan [] = refl
max_named-nan ((k, v) ∷ m) =
    ap (λ n. max_named n m) (num_max-nan (floor_number k)).0 ∙ max_named-nan m

max_named-append_nan :
    (n : Num) (k : Text) (v : Option Entry) (xs ys : List (Text × Option Entry))
    → floor_number k ≡ nan
    → max_named n (xs ++ (k, v) ∷ ys) ≡ nan
unfolding max_named
max_named-append_nan n k v [] ys e =
    ap (λ x. max_named (num_max x n) ys) e
    ∙ ap (λ x. max_named x ys) (num_max-nan n).1
    ∙ max_named-nan ys
max_named-append_nan n k v ((j, u) ∷ xs) ys e =
    max_named-append_nan (num_max (floor_number j) n) k v xs ys e

-- In a valid page, a workload with a key that spells no number, with no fraction, exponent or base
-- either, loads nothing, whatever its other entries are: the page is left with no widget.
pub load_workload-bad_key :
    (knob : Scalar → Text → Text) (dial_max_value : Scalar) (w : Workload) (r : Registry) (k : Text)
    (v : Option Entry) (xs ys : List (Text × Option Entry))
    → IsValid r
    → w.named ≡ xs ++ (k, v) ∷ ys
    → floor_number k ≡ nan
    → load_workload knob dial_max_value w r ≡ empty
unfolding load_workload max_index rounds load_from
load_workload-bad_key knob dial_max_value w r k v xs ys valid e bad =
    ap (λ n. load_from knob dial_max_value (rounds n) 0 w.indexed (clear_query_widgets r))
      (ap (max_named (max_indexed (int (pos 0)) w.indexed)) e
        ∙ max_named-append_nan (max_indexed (int (pos 0)) w.indexed) k v xs ys bad)
    ∙ clear_query_widgets-empty r valid
