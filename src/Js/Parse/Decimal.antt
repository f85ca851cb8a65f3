-- ===== src/Js/Parse/Decimal.antt =====
-- The whole part of the number that a key spells: `Number(key)` with a fraction, an exponent or a base.
-- The rounding of the number to a double is left out.
use workload_simulator.Prelude.{
  ℕ, zero, suc, ℤ, pos, sub_ℕ, ◌+◌, ◌-◌, ◌*◌, ◌/◌, ◌==◌, ◌||◌, ◌&&◌, Bool, true, false, Option,
  none, some, [], ◌∷◌, if◌then◌else◌,
}
use workload_simulator.Js.Parse.{
  Text, codes, text_eq, Num, nan, int, digit, scan, skip_space, take_sign, number_of, closed,
  to_number,
}

unfoldable power_ten : ℕ → ℕ
power_ten zero = 1
power_ten (suc n) = 10 * power_ten n

-- The digits at the front behind a value and their count: the value, the count, and what follows.
unfoldable digits_of : ℕ → ℕ → Text → ℕ × ℕ × Text
digits_of n k [] = (n, k, [])
digits_of n k (c ∷ s) = elim (digit 10 c) [
  | none ↦ (n, k, c ∷ s)
  | some d ↦ digits_of (n * 10 + d) (k + 1) s
]

-- The digits behind a point, where there is one.
unfoldable after_point : ℕ → Text → ℕ × ℕ × Text
after_point n [] = (n, 0, [])
after_point n (c ∷ s) = if c == b'.' then digits_of n 0 s else (n, 0, c ∷ s)

abbrev at_end : Bool → ℕ → Text → Option (Bool × ℕ)
at_end down e [] = some (down, e)
at_end down e (_ ∷ _) = none

abbrev ends_with : Bool → ℕ × ℕ × Text → Option (Bool × ℕ)
ends_with down (e, count, rest) = if count == 0 then none else at_end down e (skip_space rest)

-- An exponent, with whether it is negative, and white space; `none` for anything else.
unfoldable exponent : Text → Option (Bool × ℕ)
exponent [] = some (false, 0)
exponent (c ∷ s) =
    if c == b'e' || c == b'E'
    then (let (down, u) = take_sign s in ends_with down (digits_of 0 0 u))
    else at_end false 0 (skip_space (c ∷ s))

-- The whole part, towards minus infinity, of `n / 10 ^ down`
unfoldable floor_at : Bool → ℕ → ℕ → ℤ
floor_at false n down = pos (n / power_ten down)
floor_at true n down = sub_ℕ 0 ((n + (power_ten down - 1)) / power_ten down)

-- The number with the digits `n`, of which `count` stand behind the point.
abbrev scaled : Bool → ℕ → ℕ → Option (Bool × ℕ) → Num
scaled minus n count none = nan
scaled minus n count (some (true, e)) = int (floor_at minus n (count + e))
scaled minus n count (some (false, e)) = int (floor_at minus (n * power_ten e) count)

unfoldable decimal : Bool → Text → Num
decimal minus s =
    let (n, whole, rest) = digits_of 0 0 s in
    let (m, count, tail) = after_point n rest in
    if whole + count == 0 then nan else scaled minus m count (exponent tail)

abbrev in_base : ℕ → Text → Num
in_base base s = let (n, rest) = scan base none s in closed (number_of false n) (skip_space rest)

-- A number in base 2 or 8, or in decimals.
unfoldable based : Text → Num
based (c ∷ d ∷ s) =
    if c == b'0' && (d == b'b' || d == b'B')
    then in_base 2 s
    else if c == b'0' && (d == b'o' || d == b'O')
    then in_base 8 s
    else (let (minus, u) = take_sign (c ∷ d ∷ s) in decimal minus u)
based s = let (minus, u) = take_sign s in decimal minus u

abbrev is_infinite : Text → Bool
is_infinite s = let (_, u) = take_sign s in starts (codes "Infinity") u
  where
    starts : Text → Text → Bool
    starts [] u = text_eq (skip_space u) []
    starts (c ∷ t) [] = false
    starts (c ∷ t) (d ∷ u) = (c == d) && starts t u

abbrev or_spelled : Num → Text → Num
or_spelled (int n) s = int n
or_spelled nan s = if is_infinite s then int (pos 0) else based s

-- The whole part of `Number(s)`; 0 in place of an infinity.
unfoldable pub floor_number : Text → Num
unfolding take_sign based scan decimal digits_of after_point exponent floor_at power_ten
floor_number s = or_spelled (to_number s) (skip_space s)
