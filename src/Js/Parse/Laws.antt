-- ===== src/Js/Parse/Laws.antt =====
-- A number is read back from its decimal text.
use workload_simulator.Prelude.{
  ℕ, zero, suc, ◌+◌, ◌*◌, ◌/◌, ◌%◌, ◌<◌, ◌≤◌, pos, ◌≡◌, refl, ap₂, ◌&&◌, ◌∙◌, ◌≢◌, true, false,
  Option, none, some, [], ◌∷◌, ltb, ltb→lt, arith, Bool-cases, inl, inr, All,
}
use workload_simulator.Js.Parse.{
  Text, text_eq, int, scan, skip_space, take_sign, take_base, parse_int, parse_float, to_number,
  number_of_trimmed, show_digits, show_ℕ,
}

pub text_eq_self : (s : Text) → text_eq s s ≡ true
unfolding text_eq
text_eq_self [] = refl
text_eq_self (a ∷ s) = ground (arith, text_eq_self s)

pub text_eq_comm : (s t : Text) → text_eq s t ≡ text_eq t s
unfolding text_eq
text_eq_comm [] [] = refl
text_eq_comm [] (b ∷ t) = refl
text_eq_comm (a ∷ s) [] = refl
text_eq_comm (a ∷ s) (b ∷ t) = ap₂ (λ x y. x && y) (ground arith) (text_eq_comm s t)

pub eq_of_text_eq : (s t : Text) → text_eq s t ≡ true → s ≡ t
unfolding text_eq
eq_of_text_eq [] [] h = refl
eq_of_text_eq [] (b ∷ t) h = cc
eq_of_text_eq (a ∷ s) [] h = cc
eq_of_text_eq (a ∷ s) (b ∷ t) h = ground (arith, eq_of_text_eq s t)

abbrev or_zero : Option ℕ → ℕ
or_zero none = 0
or_zero (some n) = n

-- One more digit is read.
scan_digit :
    (acc : Option ℕ) (d m : ℕ) (s : Text)
    → d < 10
    → m ≡ or_zero acc * 10 + d
    → scan 10 acc ((48 + d) ∷ s) ≡ scan 10 (some m) s
unfolding scan
scan_digit acc d m s h e = ground arith

scan-show_digits :
    (fuel n : ℕ) (out : Text)
    → n < fuel
    → scan 10 none (show_digits fuel n out) ≡ scan 10 (some n) out
unfolding show_digits
scan-show_digits zero n out h = absurd (omega arith)
scan-show_digits (suc fuel) n out h = elim (Bool-cases (ltb n 10)) [
  | inl small ↦ rw small (scan_digit none n n out (omega (arith, ltb→lt n 10)) (omega arith))
  | inr large ↦ rw large (
      scan-show_digits fuel (n / 10) ((48 + n % 10) ∷ out) (ground arith)
      ∙ scan_digit (some (n / 10)) (n % 10) n out (omega arith) (omega arith))
]

-- Every code of a decimal text is a digit.
abbrev pub IsDigit : ℕ → Type 0
IsDigit c = (48 ≤ c) × (c ≤ 57)

pub show_digits-IsDigit :
    (fuel n : ℕ) (out : Text) → n < fuel → All IsDigit out → All IsDigit (show_digits fuel n out)
unfolding show_digits
show_digits-IsDigit zero n out h a = absurd (omega arith)
show_digits-IsDigit (suc fuel) n out h a = elim (Bool-cases (ltb n 10)) [
  | inl small ↦ rw small ((omega arith, omega (arith, ltb→lt n 10)), a)
  | inr large ↦ rw large (
      show_digits-IsDigit fuel (n / 10) ((48 + n % 10) ∷ out) (ground arith)
        ((omega arith, omega arith), a))
]

pub show_digits-ne-nil : (fuel n : ℕ) (out : Text) → n < fuel → show_digits fuel n out ≢ []
unfolding show_digits
show_digits-ne-nil zero n out h = absurd (omega arith)
show_digits-ne-nil (suc fuel) n out h =
    ground (arith, show_digits-ne-nil fuel (n / 10) ((48 + n % 10) ∷ out))

take_base-digits : (s : Text) → All IsDigit s → take_base s ≡ (10, s)
unfolding take_base
take_base-digits [] a = refl
take_base-digits (c ∷ []) a = refl
take_base-digits (c ∷ d ∷ s) a = ground arith

-- Digits are read from their first code on.
skip_space-digits : (c : ℕ) (s : Text) → IsDigit c → skip_space (c ∷ s) ≡ c ∷ s
unfolding skip_space
skip_space-digits c s a = ground arith

take_sign-digits : (c : ℕ) (s : Text) → IsDigit c → take_sign (c ∷ s) ≡ (false, c ∷ s)
unfolding take_sign
take_sign-digits c s a = ground arith

scan-show_ℕ : (n : ℕ) → scan 10 none (show_ℕ n) ≡ (some n, [])
unfolding show_ℕ scan
scan-show_ℕ n = scan-show_digits (suc n) n [] (omega arith)

parse_digits :
    (s : Text) (n : ℕ)
    → s ≢ []
    → All IsDigit s
    → scan 10 none s ≡ (some n, [])
    → parse_int s ≡ int (pos n)
unfolding parse_int
parse_digits [] n ne a e = absurd (ne refl)
parse_digits (c ∷ s) n ne a e =
    rw (skip_space-digits c s a.0, take_sign-digits c s a.0, take_base-digits (c ∷ s) a, e)

pub parse_int-show_ℕ : (n : ℕ) → parse_int (show_ℕ n) ≡ int (pos n)
unfolding show_ℕ
parse_int-show_ℕ n =
    parse_digits (show_ℕ n) n (show_digits-ne-nil (suc n) n [] (omega arith))
      (show_digits-IsDigit (suc n) n [] (omega arith) tt) (scan-show_ℕ n)

float-digits :
    (s : Text) (n : ℕ)
    → s ≢ []
    → All IsDigit s
    → scan 10 none s ≡ (some n, [])
    → parse_float s ≡ int (pos n)
unfolding parse_float
float-digits [] n ne a e = absurd (ne refl)
float-digits (c ∷ s) n ne a e = rw (skip_space-digits c s a.0, take_sign-digits c s a.0, e) refl

pub parse_float-show_ℕ : (n : ℕ) → parse_float (show_ℕ n) ≡ int (pos n)
unfolding show_ℕ
parse_float-show_ℕ n =
    float-digits (show_ℕ n) n (show_digits-ne-nil (suc n) n [] (omega arith))
      (show_digits-IsDigit (suc n) n [] (omega arith) tt) (scan-show_ℕ n)

number_digits :
    (s : Text) (n : ℕ)
    → s ≢ []
    → All IsDigit s
    → scan 10 none s ≡ (some n, [])
    → to_number s ≡ int (pos n)
unfolding to_number
number_digits [] n ne a e = absurd (ne refl)
number_digits (c ∷ s) n ne a e = rw (
  skip_space-digits c s a.0,
  number_of_trimmed,
  take_base-digits (c ∷ s) a,
  take_sign-digits c s a.0,
  e,
)

pub to_number-show_ℕ : (n : ℕ) → to_number (show_ℕ n) ≡ int (pos n)
unfolding show_ℕ
to_number-show_ℕ n =
    number_digits (show_ℕ n) n (show_digits-ne-nil (suc n) n [] (omega arith))
      (show_digits-IsDigit (suc n) n [] (omega arith) tt) (scan-show_ℕ n)
