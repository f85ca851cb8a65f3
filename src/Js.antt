-- ===== src/Js.antt =====
-- What the front end uses of its language: numbers, scalars and their conversions. A number is NaN
-- or an integer: fractions, infinities and the rounding of integers past 2^53 are left out.
pub mod Parse
pub mod Index
pub mod Names
use workload_simulator.Prelude.{
  ℕ, ℤ, pos, negsuc, ◌+ℤ◌, ◌-ℤ◌, rem_ℤ, eq_ℤ, ltb_ℤ, Bool, true, false, not, List, [], ◌++◌, ◌==◌,
  if◌then◌else◌, ◌||◌, ◌&&◌,
}
use workload_simulator.Js.Parse.{Text, codes, Num, nan, int, parse_int, to_number, show}

-- `undefined`, `null` and the primitive values.
pub data Scalar : Type 0 where
  undefined null : Scalar
  bool : Bool → Scalar
  num : Num → Scalar
  str : Text → Scalar

-- `Number(v)`
unfoldable pub to_num : Scalar → Num
to_num undefined = nan
to_num null = int (pos 0)
to_num (bool true) = int (pos 1)
to_num (bool false) = int (pos 0)
to_num (num n) = n
to_num (str s) = to_number s

-- `String(v)`
unfoldable pub to_text : Scalar → Text
to_text undefined = codes "undefined"
to_text null = codes "null"
to_text (bool true) = codes "true"
to_text (bool false) = codes "false"
to_text (num n) = show n
to_text (str s) = s

abbrev pub num_eq : Num → Num → Bool
num_eq (int a) (int b) = eq_ℤ a b
num_eq _ _ = false

abbrev pub num_add : Num → Num → Num
num_add (int a) (int b) = int (a +ℤ b)
num_add _ _ = nan

abbrev pub num_sub : Num → Num → Num
num_sub (int a) (int b) = int (a -ℤ b)
num_sub _ _ = nan

-- `n % m` for a positive integer `m`
abbrev pub num_rem : Num → ℕ → Num
num_rem (int a) m = int (rem_ℤ a m)
num_rem nan _ = nan

-- `a < b`, false when one is NaN
abbrev pub num_lt : Num → Num → Bool
num_lt (int a) (int b) = ltb_ℤ a b
num_lt _ _ = false

-- `Math.max(a, b)`
abbrev pub num_max : Num → Num → Num
num_max (int a) (int b) = int (if ltb_ℤ a b then b else a)
num_max _ _ = nan

-- `Math.floor(v)`: the identity on an integer
unfoldable pub floor : Scalar → Num
floor v = to_num v

-- `a + b`: concatenation if one of them is a text
unfoldable pub plus : Scalar → Scalar → Scalar
plus (str s) b = str (s ++ to_text b)
plus undefined (str t) = str (to_text undefined ++ t)
plus null (str t) = str (to_text null ++ t)
plus (bool a) (str t) = str (to_text (bool a) ++ t)
plus (num a) (str t) = str (to_text (num a) ++ t)
plus a b = num (num_add (to_num a) (to_num b))

-- `v == n` for a number `n`: `undefined` and `null` equal no number
unfoldable pub eq_num : Scalar → Num → Bool
eq_num undefined n = false
eq_num null n = false
eq_num v n = num_eq (to_num v) n

-- `parseInt(v)`
unfoldable pub parse_int_of : Scalar → Num
parse_int_of v = parse_int (to_text v)

-- `if (v)`
unfoldable pub truthy : Scalar → Bool
truthy undefined = false
truthy null = false
truthy (bool b) = b
truthy (num nan) = false
truthy (num (int a)) = not (eq_ℤ a (pos 0))
truthy (str []) = false
truthy (str _) = true
