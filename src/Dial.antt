-- ===== src/Dial.antt =====
-- The dial of a query widget (app/public/js/query_dial.js). The knob plug-in that draws a dial is a
-- parameter: `knob limit text` is what the input shows once the plug-in, created with the maximum
-- `limit`, has taken over the text `text`.
pub mod Laws
use workload_simulator.Prelude.{ℕ, ℤ, pos, Bool, false, true, not, ◌≤◌, ◌≡◌, if◌then◌else◌}
use workload_simulator.Js.{Scalar, num, eq_num, floor}
use workload_simulator.Js.Parse.{Text, Num, int, codes, show, show_ℕ, parse_int}

pub record Dial : Type 0 where
  pub data_max : Scalar
  pub text : Text
  pub read_only : Bool
  pub start : Scalar

-- What the plug-in documents: a value from 0 to the maximum is shown as it is.
pub record KnobKeeps (knob : Scalar → Text → Text) : Type 0 where
  pub keeps : (m n : ℕ) → n ≤ m → knob (num (int (pos m))) (show_ℕ n) ≡ show_ℕ n

module _ (knob : Scalar → Text → Text) where
  -- `setDialValue`
  unfoldable pub set_dial_value : Scalar → Dial → Dial
  set_dial_value value d =
      if not (eq_num value (parse_int d.text))
      then record d { text = knob d.data_max (show (floor value)) }
      else d

  -- `replaceDial`: a clone of the base dial, whose text is "0", with the new value set
  unfoldable pub replace_dial : Scalar → Bool → Scalar → Dial
  unfolding set_dial_value
  replace_dial dial_max_value read_only new_value = set_dial_value new_value (record {
    data_max = dial_max_value;
    text = knob dial_max_value (codes "0");
    read_only = read_only;
    start = new_value;
  })
