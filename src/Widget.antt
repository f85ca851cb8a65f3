-- ===== src/Widget.antt =====
-- One query widget (app/public/js/query_dial.js): its dial, its editor and its error box.
pub mod Laws
use workload_simulator.Prelude.{ℕ, pos, Bool, true, false, Option, none, some, List, [], ◌∷◌}
use workload_simulator.Js.{Scalar, num, str}
use workload_simulator.Js.Parse.{Text, int}
use workload_simulator.Dial.{Dial, set_dial_value, replace_dial}

-- The text editor of a query, as the program sets it up.
pub record Editor : Type 0 where
  pub value : Text
  pub read_only : Bool

pub data Border : Type 0 where
  original red : Border

-- `close_id` is the id that the close button carries; `error_boxes` are the messages that stand in
-- the widget, the newest first; `err_ele` is the one that a click takes away.
pub record Widget : Type 0 where
  pub query_id : ℕ
  pub close_id : ℕ
  pub dial_value : Scalar
  pub dial : Dial
  pub codemirror : Option Editor
  pub border : Border
  pub err_ele : Option Text
  pub error_boxes : List Text

-- `f` done to the editor. With no editor the source stops with a TypeError; the constructor sets one.
unfoldable pub with_editor : (Editor → Editor) → Option Editor → Option Editor
with_editor f none = none
with_editor f (some e) = some (f e)

abbrev pub drop_newest : List Text → List Text
drop_newest [] = []
drop_newest (_ ∷ boxes) = boxes

-- `highlight_error`
unfoldable pub highlight_error : Text → Widget → Widget
highlight_error message w = record w {
  border = red;
  err_ele = some message;
  error_boxes = message ∷ w.error_boxes;
}

-- The click handler that `initialize` installs.
unfoldable pub click : Widget → Widget
click w = elim w.err_ele [
  | none ↦ w
  | some _ ↦ record w { border = original; err_ele = none; error_boxes = drop_newest w.error_boxes }
]

module _ (knob : Scalar → Text → Text) (dial_max_value : Scalar) where
  -- What `initialize` builds for the id `id`.
  unfoldable pub initialize : ℕ → Widget
  initialize id = record {
    query_id = id;
    close_id = id;
    dial_value = num (int (pos 0));
    dial = replace_dial knob dial_max_value false (num (int (pos 0)));
    codemirror = some (record { value = []; read_only = false });
    border = original;
    err_ele = none;
    error_boxes = [];
  }

  -- `freeze`
  unfoldable pub freeze : Widget → Widget
  freeze w = record w {
    codemirror = with_editor (λ e. record e { read_only = true }) w.codemirror;
    dial_value = str w.dial.text;
    dial = replace_dial knob dial_max_value true (str w.dial.text);
  }

  -- `unfreeze`
  unfoldable pub unfreeze : Widget → Widget
  unfreeze w = record w {
    codemirror = with_editor (λ e. record e { read_only = false }) w.codemirror;
    dial = replace_dial knob dial_max_value false w.dial_value;
  }
