-- ===== src/Dial/Laws.antt =====
-- What a dial shows after a value within its range is set.
use workload_simulator.Prelude.{
  ℕ, pos, Bool, true, ◌≤◌, ◌≡◌, refl, ap, ◌∙◌, sym, Bool-cases, inl, inr, arith, eq_of_eq_ℤ,
}
use workload_simulator.Js.{Scalar, num, str, eq_num, num_eq, floor, to_num}
use workload_simulator.Js.Parse.{Text, Num, int, codes, show, show_ℕ, parse_int}
use workload_simulator.Js.Parse.Laws.{parse_int-show_ℕ, to_number-show_ℕ}
use workload_simulator.Dial.{Dial, KnobKeeps, set_dial_value, replace_dial}

-- A number or its decimal text.
pub data Spells (n : ℕ) : Scalar → Type 0 where
  as_number : Spells n (num (int (pos n)))
  as_text : Spells n (str (show_ℕ n))

floor-Spells : (n : ℕ) (v : Scalar) → Spells n v → floor v ≡ int (pos n)
unfolding floor to_num
floor-Spells n _ as_number = refl
floor-Spells n _ as_text = to_number-show_ℕ n

eq_num-Spells : (n : ℕ) (v : Scalar) (p : Num) → Spells n v → eq_num v p ≡ num_eq (int (pos n)) p
unfolding eq_num to_num
eq_num-Spells n _ p as_number = refl
eq_num-Spells n _ p as_text = ap (λ q. num_eq q p) (to_number-show_ℕ n)

pub show_pos : (n : ℕ) → show (int (pos n)) ≡ show_ℕ n
unfolding show
show_pos n = refl

eq_of_num_eq : (n k : ℕ) → num_eq (int (pos n)) (int (pos k)) ≡ true → k ≡ n
eq_of_num_eq n k h = cc (eq_of_eq_ℤ (pos n) (pos k) h)

module _ (knob : Scalar → Text → Text) (knob_keeps : KnobKeeps knob) where
  -- Whatever number the dial showed, a value within its range is shown after `setDialValue`.
  pub text-set_dial_value :
      (m n k : ℕ) (v : Scalar) (d : Dial)
      → Spells n v
      → n ≤ m
      → d.data_max ≡ num (int (pos m))
      → d.text ≡ show_ℕ k
      → (set_dial_value knob v d).text ≡ show_ℕ n
  unfolding set_dial_value
  text-set_dial_value m n k v d s h e f = elim (Bool-cases (eq_num v (parse_int d.text))) [
    | inl same ↦ rw same (f ∙ ap show_ℕ (eq_of_num_eq n k (sym at_n ∙ same)))
    | inr differs ↦ rw (differs, floor-Spells n v s, show_pos, e) (knob_keeps.keeps m n h)
  ]
    where
      at_n : eq_num v (parse_int d.text) ≡ num_eq (int (pos n)) (int (pos k))
      at_n = rw (f, parse_int-show_ℕ) (eq_num-Spells n v (int (pos k)) s)

  show_zero : codes "0" ≡ show_ℕ 0
  unfolding show_ℕ
  show_zero = refl

  -- A new dial shows the value that it is given.
  pub text-replace_dial :
      (m n : ℕ) (read_only : Bool) (v : Scalar)
      → Spells n v
      → n ≤ m
      → (replace_dial knob (num (int (pos m))) read_only v).text ≡ show_ℕ n
  unfolding replace_dial
  text-replace_dial m n read_only v s h =
      text-set_dial_value m n 0 v
        (record {
          data_max = num (int (pos m));
          text = knob (num (int (pos m))) (codes "0");
          read_only = read_only;
          start = v;
        })
        s h refl (rw show_zero (knob_keeps.keeps m 0 (omega arith)))
