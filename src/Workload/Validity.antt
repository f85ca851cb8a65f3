-- ===== src/Workload/Validity.antt =====
-- Loading any workload keeps the widgets of the page valid.
use workload_simulator.Prelude.{ℕ, zero, suc, ap, false, Option, none, some, List}
use workload_simulator.Js.{Scalar}
use workload_simulator.Js.Parse.{Text}
use workload_simulator.Js.Index.{find}
use workload_simulator.Widget.{Widget, with_editor, unfreeze}
use workload_simulator.Registry.{Registry, clear_query_widgets}
use workload_simulator.Registry.Laws.{Owns}
use workload_simulator.Registry.Invariant.{
  IsValid, empty-IsValid, clear_query_widgets-empty, new_widget-IsValid, update-IsValid,
}
use workload_simulator.Workload.{
  Entry, Workload, max_index, rounds, fill, load_slot, load_from, load_workload,
}

module _ (knob : Scalar → Text → Text) (dial_max_value : Scalar) where
  fill-Owns : (e : Entry) (k : ℕ) (w : Widget) → Owns k w → Owns k (fill knob dial_max_value e w)
  unfolding fill unfreeze with_editor
  fill-Owns e k w o = record {
    own_id = o.own_id;
    own_close = o.own_close;
    has_editor = (
      _,
      ap
          (λ c.
            with_editor (λ x. record x { read_only = false })
              (with_editor (λ x. record x { value = e.query }) c))
          o.has_editor.1,
    );
  }

  pub load_slot-IsValid :
      (slot : Option (Option Entry)) (r : Registry)
      → IsValid r
      → IsValid (load_slot knob dial_max_value slot r)
  unfolding load_slot
  load_slot-IsValid none r v = v
  load_slot-IsValid (some none) r v = v
  load_slot-IsValid (some (some e)) r v =
      update-IsValid r.global_query_id (fill knob dial_max_value e) _ (fill-Owns e)
        (new_widget-IsValid knob dial_max_value r v)

  load_from-IsValid :
      (n i : ℕ) (w : List (ℕ × Option Entry)) (r : Registry)
      → IsValid r
      → IsValid (load_from knob dial_max_value n i w r)
  unfolding load_from
  load_from-IsValid zero i w r v = v
  load_from-IsValid (suc n) i w r v =
      load_from-IsValid n (suc i) w (load_slot knob dial_max_value (find i w) r)
        (load_slot-IsValid (find i w) r v)

  -- Whatever workload is loaded into a valid page, the page stays valid.
  pub load_workload-IsValid :
      (w : Workload) (r : Registry) → IsValid r → IsValid (load_workload knob dial_max_value w r)
  unfolding load_workload
  load_workload-IsValid w r v =
      load_from-IsValid (rounds (max_index w)) 0 w.indexed (clear_query_widgets r)
        (rw (clear_query_widgets-empty r v) empty-IsValid)
