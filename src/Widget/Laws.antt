-- ===== src/Widget/Laws.antt =====
-- Freezing and thawing a widget, and its error box.
use workload_simulator.Prelude.{ℕ, pos, true, false, ◌≤◌, ◌≡◌, refl, none, some, ◌∷◌, arith}
use workload_simulator.Js.{Scalar, num, str}
use workload_simulator.Js.Parse.{Text, int, show_ℕ}
use workload_simulator.Dial.{KnobKeeps}
use workload_simulator.Dial.Laws.{as_text, text-replace_dial}
use workload_simulator.Widget.{
  Widget, with_editor, highlight_error, click, original, freeze, unfreeze,
}

-- A click on a widget without an earlier error takes back all that an error report did to it.
pub click-highlight_error :
    (message : Text) (w : Widget)
    → w.border ≡ original
    → w.err_ele ≡ none
    → click (highlight_error message w) ≡ w
unfolding click highlight_error
click-highlight_error message w b e = ground arith

-- Of two errors in a row a click takes only the second away.
pub click-highlight_error_twice :
    (a b : Text) (w : Widget)
    → click (click (highlight_error b (highlight_error a w)))
      ≡ click (highlight_error b (highlight_error a w))
unfolding click highlight_error
click-highlight_error_twice a b w = refl

pub leftover_error :
    (a b : Text) (w : Widget)
    → (click (highlight_error b (highlight_error a w))).error_boxes ≡ a ∷ w.error_boxes
unfolding click highlight_error
leftover_error a b w = refl

-- A dial shows a number from 0 to the maximum.
pub data Shows (m : ℕ) (w : Widget) : Type 0 where
  shows : (n : ℕ) → n ≤ m → w.dial.text ≡ show_ℕ n → Shows m w

module _ (knob : Scalar → Text → Text) (knob_keeps : KnobKeeps knob) (m : ℕ) where
  abbrev max_value : Scalar
  max_value = num (int (pos m))

  pub text-freeze : (w : Widget) → Shows m w → (freeze knob max_value w).dial.text ≡ w.dial.text
  unfolding freeze
  text-freeze w (shows n h e) =
      rw e (text-replace_dial knob knob_keeps m n true (str (show_ℕ n)) as_text h)

  pub text-unfreeze-freeze :
      (w : Widget)
      → Shows m w
      → (unfreeze knob max_value (freeze knob max_value w)).dial.text ≡ w.dial.text
  unfolding freeze unfreeze
  text-unfreeze-freeze w (shows n h e) =
      rw e (text-replace_dial knob knob_keeps m n false (str (show_ℕ n)) as_text h)

pub unfreeze-freeze_editor :
    (knob : Scalar → Text → Text) (limit : Scalar) (w : Widget) (q : Text)
    → w.codemirror ≡ some (record { value = q; read_only = false })
    → (unfreeze knob limit (freeze knob limit w)).codemirror ≡ w.codemirror
unfolding freeze unfreeze with_editor
unfreeze-freeze_editor knob limit w q e = ground arith
