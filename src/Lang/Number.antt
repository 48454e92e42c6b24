-- ===== src/Lang/Number.antt =====
-- Numeric literals: `strtod` on the text that the lexer collects, [0-9][0-9.]*, rounded to the
-- nearest double, and the conversion of that double to an integer type, which drops the fraction.
pub mod Exact
use alkali.Prelude.{
  ℕ, zero, suc, ◌+◌, ◌-◌, ◌*◌, ◌/◌, ◌%◌, ◌^◌, true, false, [], ◌∷◌, ◌++◌, Option, none, some, ltb,
  leb, ◌==◌, if◌then◌else◌, length,
}
use alkali.Lang.Token.{Text}

-- The digits before the first '.', and those behind it up to a second one.
unfoldable pub until_dot : Text → Text
until_dot [] = []
until_dot (c ∷ s) = if c == b'.' then [] else c ∷ until_dot s

unfoldable pub after_dot : Text → Text
after_dot [] = []
after_dot (c ∷ s) = if c == b'.' then s else after_dot s

unfoldable pub decimal : ℕ → Text → ℕ
decimal acc [] = acc
decimal acc (c ∷ s) = decimal (acc * 10 + (c - b'0')) s

-- The number of binary digits of `n`, counted on fuel (`n` itself is enough).
unfoldable pub bit_length : ℕ → ℕ → ℕ
bit_length zero n = 0
bit_length (suc fuel) n = elim (n == 0) [ true ↦ 0 | false ↦ suc (bit_length fuel (n / 2)) ]

-- `a / b` rounded to the nearest integer, and to the even one of two that are as near.
unfoldable pub round_half_even : ℕ → ℕ → ℕ
round_half_even a b =
    let q = a / b in
    let twice = 2 * (a % b) in if ltb twice b then q else if ltb b twice then q + 1 else q + q % 2

-- The integer part of the double nearest to `n / 10 ^ k`: a mantissa of 53 bits.
unfoldable pub double_floor : ℕ → ℕ → ℕ
unfolding round_half_even bit_length
double_floor n k =
    let d = 10 ^ k in
    let whole = n / d in
    let bits = bit_length whole whole in
    if leb bits 53
    then (round_half_even (n * 2 ^ (53 - bits)) d) / 2 ^ (53 - bits)
    else round_half_even n (d * 2 ^ (bits - 53)) * 2 ^ (bits - 53)

-- `numVal = strtod(numStr)` and the truncation that every use of `getValue` makes.
unfoldable pub get_value_floor : Text → ℕ
unfolding until_dot after_dot decimal double_floor
get_value_floor s =
    let fraction = until_dot (after_dot s) in
    double_floor (decimal 0 (until_dot s ++ fraction)) (length fraction)

-- The conversion to an integer type with values below `bound`; outside it is undefined.
unfoldable pub convert : ℕ → Text → Option ℕ
unfolding get_value_floor
convert bound s = if ltb (get_value_floor s) bound then some (get_value_floor s) else none
