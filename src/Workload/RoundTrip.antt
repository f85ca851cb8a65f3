-- ===== src/Workload/RoundTrip.antt =====
-- A workload that the browser keeps, loaded again.
use mathlib.Core.Path.{subst}
use workload_simulator.Prelude.{
  ℕ, suc, ◌≤◌, pos, false, ◌≡◌, refl, sym, ap, ap₂, ◌∙◌, some, List, [], ◌∷◌, arith, All,
  Option-cases, inl, inr,
}
use workload_simulator.Js.{Scalar, num, str}
use workload_simulator.Js.Parse.{Text, int, show_ℕ}
use workload_simulator.Js.Index.{map_values, Ascending}
use workload_simulator.Js.Index.Laws.{Ascending-weaken, Ascending-map_values}
use workload_simulator.Dial.{KnobKeeps, replace_dial}
use workload_simulator.Dial.Laws.{as_text, text-replace_dial}
use workload_simulator.Widget.{Widget, with_editor, initialize, unfreeze}
use workload_simulator.Registry.{Registry}
use workload_simulator.Registry.Invariant.{IsValid}
use workload_simulator.Workload.{Entry, cached_workload, parsed, fill, load_workload}
use workload_simulator.Workload.Saving.{entries_of, cached_workload-entries_of}
use workload_simulator.Workload.Loading.{present, widgets_from, load_workload_lem}
use workload_simulator.Workload.Validity.{load_workload-IsValid}

abbrev pub values : List (ℕ × Entry) → List Entry
values [] = []
values ((_, e) ∷ m) = e ∷ values m

-- The rate of the entry is the text of a number from 0 to `m`.
pub data InRange (m : ℕ) (e : Entry) : Type 0 where
  in_range : (n : ℕ) → n ≤ m → e.qps ≡ str (show_ℕ n) → InRange m e

present-parsed : (m : List (ℕ × Entry)) → present (map_values some m) ≡ values m
unfolding map_values
present-parsed [] = refl
present-parsed ((i, e) ∷ m) = ap (e ∷◌) (present-parsed m)

Ascending-entries_of :
    (lo : ℕ) (m : List (ℕ × Widget)) → Ascending lo m → Ascending lo (entries_of m)
Ascending-entries_of lo [] a = tt
Ascending-entries_of lo ((i, w) ∷ m) a = elim (Option-cases w.codemirror) [
  | inl missing ↦
      rw (missing, entries_of)
        (Ascending-weaken (entries_of m) (omega arith) (Ascending-entries_of (suc i) m a.1))
  | inr (e, has) ↦ rw (has, entries_of) (a.0, Ascending-entries_of (suc i) m a.1)
]

module _ (knob : Scalar → Text → Text) (knob_keeps : KnobKeeps knob) (m : ℕ) where
  abbrev limit : Scalar
  limit = num (int (pos m))

  entries_of-widgets_from :
      (i : ℕ) (es : List Entry)
      → All (InRange m) es
      → values (entries_of (widgets_from knob limit i es)) ≡ es
  unfolding fill initialize unfreeze with_editor
  entries_of-widgets_from i [] a = refl
  entries_of-widgets_from i (e ∷ es) (in_range n h q, a) =
      ap₂ ◌∷◌
        (λ j. record {
          query = e.query;
          qps =
              (ap (λ v. str (replace_dial knob limit false v).text) q
                  ∙ ap str (text-replace_dial knob knob_keeps m n false (str (show_ℕ n)) as_text h)
                  ∙ sym q)
                j;
        })
        (entries_of-widgets_from (suc i) es a)

  -- The workload of a valid page whose dials show numbers within the maximum, kept by the browser and
  -- loaded into any valid page, gives widgets with the same queries and the same rates in the same
  -- order.
  pub load_workload-cached_workload :
      (r s : Registry)
      → IsValid r
      → IsValid s
      → All (InRange m) (values (cached_workload r))
      → values (cached_workload (load_workload knob limit (parsed (cached_workload r)) s))
        ≡ values (cached_workload r)
  unfolding parsed
  load_workload-cached_workload r s vr vs a =
      let saved = cached_workload r in
      let loaded = load_workload knob limit (parsed saved) s in
      ap values
        (cached_workload-entries_of loaded (load_workload-IsValid knob limit (parsed saved) s vs))
      ∙ ap (λ (t : Registry). values (entries_of t.query_widget_map))
          (load_workload_lem knob limit (parsed saved) s vs refl (
            Ascending-map_values some 0 saved (
              subst (Ascending 0) (sym (cached_workload-entries_of r vr))
                (Ascending-entries_of 0 r.query_widget_map vr.ascending))))
      ∙ ap (λ es. values (entries_of (widgets_from knob limit 0 es))) (present-parsed saved)
      ∙ entries_of-widgets_from 0 (values saved) a
