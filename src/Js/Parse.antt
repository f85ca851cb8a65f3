-- ===== src/Js/Parse.antt =====
-- Texts as sequences of character codes, numbers, and the conversions between them.
pub mod Laws
pub mod Decimal
use Prim.Native.Char.{code}
use workload_simulator.Prelude.{
  ℕ, zero, suc, ◌+◌, ◌-◌, ◌*◌, ◌/◌, ◌%◌, ℤ, pos, negsuc, neg_part, sub_ℕ, String, Bool, true, false,
  ◌&&◌, ◌||◌, Option, none, some, List, [], ◌∷◌, ltb, leb, ◌==◌, if◌then◌else◌,
}

abbrev pub Text : Type 0
Text = List ℕ

abbrev pub codes : String → Text
codes String.[] = []
codes (String.◌∷◌ c s) = code c ∷ codes s

unfoldable pub text_eq : Text → Text → Bool
text_eq [] [] = true
text_eq (a ∷ s) (b ∷ t) = (a == b) && text_eq s t
text_eq _ _ = false

-- A letter in lower case, on ASCII letters.
abbrev pub lower_code : ℕ → ℕ
lower_code c = if leb 65 c && leb c 90 then c + 32 else c

pub data Num : Type 0 where
  nan : Num
  int : ℤ → Num

-- The value of a digit in a base up to 16.
abbrev hex_value : ℕ → Option ℕ
hex_value c =
    if leb 48 c && leb c 57
    then some (c - 48)
    else if leb 97 c && leb c 102
    then some (c - 87)
    else if leb 65 c && leb c 70
    then some (c - 55)
    else none

abbrev digit : ℕ → ℕ → Option ℕ
digit base c = elim (hex_value c) [ none ↦ none | some d ↦ if ltb d base then some d else none ]

abbrev or_zero : Option ℕ → ℕ
or_zero none = 0
or_zero (some n) = n

-- The longest prefix of digits, and what follows; `none` if there is no digit.
scan : ℕ → Option ℕ → Text → Option ℕ × Text
scan base acc [] = (acc, [])
scan base acc (c ∷ s) = elim (digit base c) [
  | none ↦ (acc, c ∷ s)
  | some d ↦ scan base (some (or_zero acc * base + d)) s
]

abbrev pub is_space : ℕ → Bool
is_space c =
    c == 32
    || (leb 9 c && leb c 13)
    || c == 160
    || c == 5760
    || (leb 8192 c && leb c 8202)
    || c == 8232
    || c == 8233
    || c == 8239
    || c == 8287
    || c == 12288
    || c == 65279

unfoldable pub skip_space : Text → Text
skip_space [] = []
skip_space (c ∷ s) = if is_space c then skip_space s else c ∷ s

-- A sign, and what follows it.
take_sign : Text → Bool × Text
take_sign [] = (false, [])
take_sign (c ∷ s) =
    if c == b'-' then (true, s) else if c == b'+' then (false, s) else (false, c ∷ s)

-- The base that a `0x` announces, and what follows it.
take_base : Text → ℕ × Text
take_base (c ∷ d ∷ s) = if c == b'0' && (d == b'x' || d == b'X') then (16, s) else (10, c ∷ d ∷ s)
take_base s = (10, s)

abbrev signed : Bool → ℕ → ℤ
signed true n = sub_ℕ 0 n
signed false n = pos n

abbrev number_of : Bool → Option ℕ → Num
number_of minus none = nan
number_of minus (some n) = int (signed minus n)

-- `parseInt(s)`
unfoldable pub parse_int : Text → Num
unfolding scan skip_space take_sign take_base
parse_int s =
    let (minus, u) = take_sign (skip_space s) in
    let (base, v) = take_base u in number_of minus (scan base none v).0

-- `parseFloat(s)` of a text with no fraction and no exponent
unfoldable pub parse_float : Text → Num
unfolding scan skip_space take_sign
parse_float s = let (minus, u) = take_sign (skip_space s) in number_of minus (scan 10 none u).0

-- What is left after the digits must be white space.
abbrev closed : Num → Text → Num
closed n [] = n
closed n (_ ∷ _) = nan

unsigned_number : Bool → Text → Num
unfolding scan skip_space
unsigned_number minus u =
    let (n, rest) = scan 10 none u in closed (number_of minus n) (skip_space rest)

-- `Number(s)` of a text with no fraction and no exponent; an empty text is 0
number_of_trimmed : Text → Num
unfolding scan skip_space take_sign take_base unsigned_number
number_of_trimmed [] = int (pos 0)
number_of_trimmed (c ∷ s) =
    let (base, v) = take_base (c ∷ s) in
    if base == 16
    then (let (n, rest) = scan 16 none v in closed (number_of false n) (skip_space rest))
    else (let (minus, u) = take_sign (c ∷ s) in unsigned_number minus u)

unfoldable pub to_number : Text → Num
unfolding number_of_trimmed skip_space
to_number s = number_of_trimmed (skip_space s)

-- The decimal digits of `n` before `out`. Fuel above `n` is enough: each round divides by ten.
unfoldable pub show_digits : ℕ → ℕ → Text → Text
show_digits zero n out = out
show_digits (suc fuel) n out =
    let rest = show_digits fuel (n / 10) ((48 + n % 10) ∷ out) in
    if ltb n 10 then (48 + n) ∷ out else rest

unfoldable pub show_ℕ : ℕ → Text
unfolding show_digits
show_ℕ n = show_digits (suc n) n []

-- `String(n)`
unfoldable pub show : Num → Text
unfolding show_ℕ
show nan = codes "NaN"
show (int (pos n)) = show_ℕ n
show (int (negsuc n)) = b'-' ∷ show_ℕ (suc n)
