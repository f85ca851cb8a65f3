-- ===== src/Go.antt =====
-- What the server (app, in Go) uses of its language: the reading and writing of whole numbers by
-- `strconv`, where an `int` has 64 bits.
pub mod Laws
use workload_simulator.Prelude.{
  ℕ, ◌+◌, ◌-◌, ◌*◌, ◌==◌, ℤ, pos, sub_ℕ, ◌&&◌, ◌||◌, Option, none, some, [], ◌∷◌, ltb, leb,
  if◌then◌else◌,
}
use workload_simulator.Js.Parse.{Text, show_ℕ}

-- 2 to the 63
abbrev pub int_limit : ℕ
int_limit = 9223372036854775808

-- A text of digits behind the number `n`.
unfoldable pub digits : ℕ → Text → Option ℕ
digits n [] = some n
digits n (c ∷ s) =
    let others = digits (n * 10 + (c - 48)) s in if leb 48 c && leb c 57 then others else none

-- At least one digit, and nothing else.
unfoldable pub unsigned : Text → Option ℕ
unsigned [] = none
unsigned (c ∷ s) = digits 0 (c ∷ s)

abbrev pub non_negative : Option ℕ → Option ℤ
non_negative none = none
non_negative (some n) = if ltb n int_limit then some (pos n) else none

abbrev pub negated : Option ℕ → Option ℤ
negated none = none
negated (some n) = if leb n int_limit then some (sub_ℕ 0 n) else none

-- `strconv.Atoi`
unfoldable pub atoi : Text → Option ℤ
atoi [] = none
atoi (c ∷ s) =
    if c == b'-'
    then negated (unsigned s)
    else if c == b'+'
    then non_negative (unsigned s)
    else non_negative (unsigned (c ∷ s))

-- `strconv.Itoa` of a number that is not negative
abbrev pub itoa : ℕ → Text
itoa n = show_ℕ n
