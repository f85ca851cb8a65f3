-- ===== src/Layout/Rows.antt =====
-- A row of widgets with its margins fits its container.
use native.Mathlib.Nat.{
  suc-mul, zero-mul, mul-add, mul-le-mul_right, div-add-mod', mul-add-mod_self_left, mod-eq_of_lt,
  mul-div_cancel,
}
use workload_simulator.Prelude.{
  ℕ, zero, suc, ◌+◌, ◌-◌, ◌*◌, ◌/◌, ◌%◌, ◌≤◌, ◌<◌, ◌==◌, ◌≡◌, sym, ap, ap₂, ◌∙◌, Option, none, some,
  arith, if◌then◌else◌, true, false, Bool-cases, inl, inr,
}
use workload_simulator.Layout.{Margin, margins_at}

-- A margin in parts of which `n` make a pixel.
abbrev parts : ℕ → Option Margin → ℕ
parts n none = 0
parts n (some m) = m.numerator * n / m.denominator

-- The margins to the right of the first `m` widgets of the row `k`, in parts of a pixel.
abbrev pub row_margins : ℕ → ℕ → ℕ → ℕ → ℕ
row_margins container width k zero = 0
row_margins container width k (suc m) =
    row_margins container width k m
    + parts (container / width) (margins_at container width (container / width * k + m)).right

zero_div : (n : ℕ) → 0 * n / 1 ≡ 0
zero_div n = omega arith

module _ (container width k : ℕ) (some_row : 1 ≤ container / width) where
  at_index :
      (m : ℕ)
      → m < container / width
      → parts (container / width) (margins_at container width (container / width * k + m)).right
        ≡ (if m == container / width - 1 then 0 else container % width)
  unfolding margins_at
  at_index m h =
      let place : (container / width * k + m) % (container / width) ≡ m =
        mul-add-mod_self_left (container / width) k m ∙ mod-eq_of_lt h in
      let a_row : (container / width == 0) ≡ false = ground arith in
      elim (Bool-cases (m == container / width - 1)) [
        | inl last ↦ rw (a_row, place, last) (zero_div (container / width))
        | inr inner ↦ rw (a_row, place, inner) (mul-div_cancel (container % width) some_row)
      ]

  before_last :
      (m : ℕ) → m < container / width → row_margins container width k m ≡ m * (container % width)
  before_last zero h = sym (zero-mul (container % width))
  before_last (suc m) h =
      let not_last : (m == container / width - 1) ≡ false = ground arith in
      ap₂ ◌+◌ (before_last m (omega arith))
        (at_index m (omega arith) ∙ ap (λ b. if b then 0 else container % width) not_last)
      ∙ sym (suc-mul m (container % width))

  -- The last widget of a row has no margin.
  full_row :
      row_margins container width k (container / width)
      ≡ (container / width - 1) * (container % width)
  full_row =
      let last : container / width ≡ suc (container / width - 1) = omega arith in
      let at_end : (container / width - 1 == container / width - 1) ≡ true = ground arith in
      ap (row_margins container width k) last
      ∙ ap₂ ◌+◌ (before_last (container / width - 1) (omega arith)) (
          at_index (container / width - 1) (omega arith)
          ∙ ap (λ b. if b then 0 else container % width) at_end)
      ∙ omega arith

  pub row_margins_bound :
      (row_margins container width k (container / width)
        ≡ (container / width - 1) * (container % width))
      × (row_margins container width k (container / width)
            + container / width * (container / width * width)
          ≤ container / width * container)
  row_margins_bound =
      let fewer : container / width - 1 ≤ container / width = omega arith in
      (
        full_row,
        omega (
          arith,
          full_row,
          mul-le-mul_right (container % width) fewer,
          mul-add (container / width) (container / width * width) (container % width),
          ap (λ c. container / width * c) (div-add-mod' container width),
        ),
      )
