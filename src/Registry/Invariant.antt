-- ===== src/Registry/Invariant.antt =====
-- The invariant of the widgets of the page, and that each operation keeps it.
use mathlib.Core.Option.{some-injective}
use mathlib.Core.Path.{subst}
use workload_simulator.Prelude.{
  ℕ, ◌+◌, ◌≡◌, refl, sym, ap, ◌∙◌, none, some, List, [], ◌∷◌, ◌++◌, arith, Option-cases, inl, inr,
  if◌then◌else◌, ◌==◌,
}
use workload_simulator.Js.{Scalar}
use workload_simulator.Js.Parse.{Text}
use workload_simulator.Js.Index.{find, remove, map_values, Ascending, Below}
use workload_simulator.Js.Index.Laws.{
  put-above, Below-put, Ascending-put, Below-remove, Ascending-remove, Below-map_values,
  Ascending-map_values, Below-weaken, Below-find, find-remove,
}
use workload_simulator.Widget.{
  Widget, initialize, freeze, unfreeze, highlight_error, click, with_editor,
}
use workload_simulator.Registry.{
  Registry, registry, empty, delete_widget, close, delete_all, clear_query_widgets, update,
  new_widget, freeze_all, unfreeze_all, detach,
}
use workload_simulator.Registry.Laws.{
  Owns, Owned, keys, Owned-put, Owned-remove, Owned-map_values, Owns-find, keys-append, keys-remove,
  keys-map_values, keys-put,
}

pub record IsValid (r : Registry) : Type 0 where
  pub ascending : Ascending 0 r.query_widget_map
  pub below : Below r.global_query_id r.query_widget_map
  pub owned : Owned r.query_widget_map
  pub in_order : r.elements ≡ keys r.query_widget_map

module _ (knob : Scalar → Text → Text) (dial_max_value : Scalar) where
  initialize-Owns : (k : ℕ) → Owns k (initialize knob dial_max_value k)
  unfolding initialize
  initialize-Owns k = record { own_id = refl; own_close = refl; has_editor = (_, refl) }

  pub freeze-Owns : (k : ℕ) (w : Widget) → Owns k w → Owns k (freeze knob dial_max_value w)
  unfolding freeze with_editor
  freeze-Owns k w o = record {
    own_id = o.own_id;
    own_close = o.own_close;
    has_editor = (_, ap (with_editor _) o.has_editor.1);
  }

  unfreeze-Owns : (k : ℕ) (w : Widget) → Owns k w → Owns k (unfreeze knob dial_max_value w)
  unfolding unfreeze with_editor
  unfreeze-Owns k w o = record {
    own_id = o.own_id;
    own_close = o.own_close;
    has_editor = (_, ap (with_editor _) o.has_editor.1);
  }

  pub new_widget-IsValid : (r : Registry) → IsValid r → IsValid (new_widget knob dial_max_value r)
  unfolding new_widget
  new_widget-IsValid r v = record {
    ascending = Ascending-put 0 r.global_query_id _ r.query_widget_map (omega arith) v.ascending;
    below =
        Below-put (r.global_query_id + 1) r.global_query_id _ r.query_widget_map (omega arith)
          (Below-weaken r.query_widget_map (omega arith) v.below);
    owned =
        Owned-put r.global_query_id _ r.query_widget_map (initialize-Owns r.global_query_id)
          v.owned;
    in_order =
        ap (λ es. es ++ r.global_query_id ∷ []) v.in_order
        ∙ sym (keys-append r.global_query_id _ r.query_widget_map)
        ∙ ap keys (sym (put-above r.global_query_id _ r.query_widget_map v.below));
  }

pub delete_widget-IsValid : (w : Widget) (r : Registry) → IsValid r → IsValid (delete_widget w r)
unfolding delete_widget
delete_widget-IsValid w r v = record {
  ascending = Ascending-remove 0 w.query_id r.query_widget_map v.ascending;
  below = Below-remove r.global_query_id w.query_id r.query_widget_map v.below;
  owned = Owned-remove w.query_id r.query_widget_map v.owned;
  in_order = ap (detach w.query_id) v.in_order ∙ sym (keys-remove w.query_id r.query_widget_map);
}

pub close-IsValid : (id : ℕ) (r r' : Registry) → IsValid r → close id r ≡ some r' → IsValid r'
unfolding close
close-IsValid id r r' v e = elim (Option-cases (find id r.query_widget_map)) [
  | inl missing ↦ cc (rw (missing, close) at e)
  | inr (w, found) ↦
      let e' : some (delete_widget w r) ≡ some r' = rw (found, close) at e in
      subst IsValid (some-injective _ _ e') (delete_widget-IsValid w r v)
]

-- The loop of `clearQueryWidgets` deletes every widget.
delete_all-empty :
    (n : ℕ) (m : List (ℕ × Widget))
    → Owned m
    → delete_all m (registry n m (keys m)) ≡ registry n [] []
unfolding delete_all
delete_all-empty n [] o = refl
delete_all-empty n ((k, w) ∷ m) o = rw head_deleted (delete_all-empty n m o.1)
  where
    head_deleted : delete_widget w (registry n ((k, w) ∷ m) (k ∷ keys m)) ≡ registry n m (keys m)
    head_deleted = unfold delete_widget remove detach in ground (arith, o.0.own_id)

pub clear_query_widgets-empty : (r : Registry) → IsValid r → clear_query_widgets r ≡ empty
unfolding clear_query_widgets
clear_query_widgets-empty r v =
    ap (λ es. record (delete_all m (registry n m es)) { global_query_id = 0 }) v.in_order
    ∙ ap (λ (s : Registry). record s { global_query_id = 0 }) (delete_all-empty n m v.owned)
  where
    open r use {global_query_id as n, query_widget_map as m}

pub empty-IsValid : IsValid empty
empty-IsValid = record { ascending = tt; below = tt; owned = tt; in_order = refl }

pub update-IsValid :
    (id : ℕ) (f : Widget → Widget) (r : Registry)
    → ((k : ℕ) (w : Widget) → Owns k w → Owns k (f w))
    → IsValid r
    → IsValid (update id f r)
unfolding update
update-IsValid id f r keeps v = elim (Option-cases (find id r.query_widget_map)) [
  | inl missing ↦ rw (missing, update) v
  | inr (w, found) ↦
      rw (found, update)
        (record {
          ascending = Ascending-put 0 id (f w) r.query_widget_map (omega arith) v.ascending;
          below =
              Below-put r.global_query_id id (f w) r.query_widget_map
                (Below-find r.global_query_id id w r.query_widget_map v.below found) v.below;
          owned =
              Owned-put id (f w) r.query_widget_map
                (keeps id w (Owns-find id w r.query_widget_map v.owned found)) v.owned;
          in_order =
              v.in_order ∙ sym (keys-put 0 id {u = w} (f w) r.query_widget_map v.ascending found);
        })
]

pub click-Owns : (k : ℕ) (w : Widget) → Owns k w → Owns k (click w)
unfolding click
click-Owns k w o = record {
  own_id = ground (arith, o.own_id);
  own_close = ground (arith, o.own_close);
  has_editor = (o.has_editor.0, ground (arith, o.has_editor.1));
}

pub highlight_error-Owns :
    (message : Text) (k : ℕ) (w : Widget) → Owns k w → Owns k (highlight_error message w)
unfolding highlight_error
highlight_error-Owns message k w o = record {
  own_id = o.own_id;
  own_close = o.own_close;
  has_editor = o.has_editor;
}

pub map-IsValid :
    (f : Widget → Widget) (r : Registry)
    → ((k : ℕ) (w : Widget) → Owns k w → Owns k (f w))
    → IsValid r
    → IsValid (record r { query_widget_map = map_values f r.query_widget_map })
map-IsValid f r keeps v = record {
  ascending = Ascending-map_values f 0 r.query_widget_map v.ascending;
  below = Below-map_values f r.global_query_id r.query_widget_map v.below;
  owned = Owned-map_values f r.query_widget_map keeps v.owned;
  in_order = v.in_order ∙ sym (keys-map_values f r.query_widget_map);
}

module _ (knob : Scalar → Text → Text) (dial_max_value : Scalar) where
  pub freeze_all-IsValid : (r : Registry) → IsValid r → IsValid (freeze_all knob dial_max_value r)
  unfolding freeze_all
  freeze_all-IsValid r v =
      map-IsValid (freeze knob dial_max_value) r (freeze-Owns knob dial_max_value) v

  pub unfreeze_all-IsValid :
      (r : Registry) → IsValid r → IsValid (unfreeze_all knob dial_max_value r)
  unfolding unfreeze_all
  unfreeze_all-IsValid r v =
      map-IsValid (unfreeze knob dial_max_value) r (unfreeze-Owns knob dial_max_value) v

-- In a page whose widgets are valid, the close button of a widget takes that widget away and leaves
-- every other one as it was; a button of no widget is an error.
pub find-close :
    (id : ℕ) (r : Registry) {w : Widget}
    → IsValid r
    → find id r.query_widget_map ≡ some w
    → (r' : Registry) × (close w.close_id r ≡ some r')
      × IsValid r'
      × ((j : ℕ)
          → find j r'.query_widget_map ≡ (if j == id then none else find j r.query_widget_map))
unfolding close delete_widget
find-close id r {w} v found =
    let o = Owns-find id w r.query_widget_map v.owned found in
    (
      delete_widget w r,
      rw (o.own_close, found, close),
      delete_widget-IsValid w r v,
      λ j. rw o.own_id (find-remove 0 id j r.query_widget_map v.ascending),
    )
