-- ===== src/Go/Laws.antt =====
-- Reading back what was written.
use workload_simulator.Prelude.{
  ℕ, zero, suc, ◌+◌, ◌*◌, ◌/◌, ◌%◌, ◌<◌, ◌==◌, ◌≡◌, ◌≢◌, refl, sym, ap, ◌∙◌, true, false, pos, some,
  [], ◌∷◌, ltb, ltb→lt, arith, Bool-cases, ==_iff, inl, inr, All,
}
use workload_simulator.Js.Parse.{Text, Num, int, text_eq, parse_int, show_digits, show_ℕ}
use workload_simulator.Js.Parse.Laws.{
  IsDigit, show_digits-IsDigit, show_digits-ne-nil, parse_int-show_ℕ, eq_of_text_eq, text_eq_self,
}
use workload_simulator.Go.{int_limit, digits, unsigned, non_negative, atoi, itoa}

digits_digit :
    (n d m : ℕ) (s : Text) → d < 10 → m ≡ n * 10 + d → digits n ((48 + d) ∷ s) ≡ digits m s
unfolding digits
digits_digit n d m s h e = ground arith

digits-show_digits :
    (fuel n : ℕ) (out : Text) → n < fuel → digits 0 (show_digits fuel n out) ≡ digits n out
unfolding show_digits
digits-show_digits zero n out h = absurd (omega arith)
digits-show_digits (suc fuel) n out h = elim (Bool-cases (ltb n 10)) [
  | inl small ↦ rw small (digits_digit 0 n n out (omega (arith, ltb→lt n 10)) (omega arith))
  | inr large ↦ rw large (
      digits-show_digits fuel (n / 10) ((48 + n % 10) ∷ out) (ground arith)
      ∙ digits_digit (n / 10) (n % 10) n out (omega arith) (omega arith))
]

atoi-digits :
    (s : Text) (n : ℕ)
    → s ≢ []
    → All IsDigit s
    → digits 0 s ≡ some n
    → atoi s ≡ non_negative (some n)
unfolding atoi unsigned
atoi-digits [] n ne a e = absurd (ne refl)
atoi-digits (c ∷ s) n ne a e =
    let no_minus : (c == b'-') ≡ false = ground arith in
    let no_plus : (c == b'+') ≡ false = ground arith in rw (no_minus, no_plus, e) refl

-- What `Itoa` writes, `Atoi` reads.
pub atoi-itoa : (n : ℕ) → n < int_limit → atoi (itoa n) ≡ some (pos n)
unfolding show_ℕ digits
atoi-itoa n h =
    atoi-digits (show_ℕ n) n (show_digits-ne-nil (suc n) n [] (omega arith))
      (show_digits-IsDigit (suc n) n [] (omega arith) tt)
      (digits-show_digits (suc n) n [] (omega arith))
    ∙ (ground arith)

pos_of : Num → ℕ
pos_of (int (pos n)) = n
pos_of _ = 0

-- Two numbers with the same text are equal.
pub text_eq-itoa : (m n : ℕ) → text_eq (itoa m) (itoa n) ≡ (m == n)
unfolding pos_of
text_eq-itoa m n = elim (Bool-cases (text_eq (itoa m) (itoa n))) [
  | inl same ↦
      let equal : m ≡ n = ap pos_of (
        sym (parse_int-show_ℕ m)
        ∙ ap parse_int (eq_of_text_eq (itoa m) (itoa n) same)
        ∙ parse_int-show_ℕ n) in
      ground arith
  | inr other ↦ elim (Bool-cases (m == n)) [
    | inl equal ↦
        let reached : text_eq (itoa m) (itoa n) ≡ true =
          ap (λ k. text_eq (itoa m) (itoa k)) (sym ((==_iff m n).0 equal))
          ∙ text_eq_self (itoa m) in
        cc
    | inr differ ↦ other ∙ sym differ
  ]
]

pub itoa-injective : (m n : ℕ) → itoa m ≡ itoa n → m ≡ n
itoa-injective m n e =
    (==_iff m n).0 (sym (text_eq-itoa m n) ∙ ap (text_eq (itoa m)) (sym e) ∙ text_eq_self (itoa m))
