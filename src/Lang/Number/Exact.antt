-- ===== src/Lang/Number/Exact.antt =====
-- Literals that a double holds exactly: the decimal digits of a number below 2 ^ 53.
use native.Mathlib.Nat.{pow-suc, mul-div_cancel, one-le-pow}
use alkali.Prelude.{
  ℕ, zero, suc, ◌+◌, ◌-◌, ◌*◌, ◌/◌, ◌%◌, ◌^◌, ◌<◌, ◌≤◌, ◌≡◌, refl, ◌∙◌, ap, true, false, [], ◌∷◌,
  some, arith, ltb, ◌==◌, lt→ltb, ltb→lt, le→leb, Bool-cases, inl, inr, append-nil,
}
use alkali.Lang.Token.{Text}
use alkali.Lang.Number.{
  until_dot, after_dot, decimal, bit_length, round_half_even, double_floor, get_value_floor,
  convert,
}

-- The decimal digits of `n`, counted on fuel, before `acc`.
unfoldable pub digits_onto : ℕ → ℕ → Text → Text
digits_onto zero n acc = acc
digits_onto (suc fuel) n acc =
    let acc' = (b'0' + n % 10) ∷ acc in
    elim (ltb n 10) [ true ↦ acc' | false ↦ digits_onto fuel (n / 10) acc' ]

unfoldable pub digits : ℕ → Text
unfolding digits_onto
digits n = digits_onto (suc n) n []

-- Below 2 ^ k a number has at most `k` binary digits.
bit_length-le : (k fuel n : ℕ) → n < 2 ^ k → bit_length fuel n ≤ k
unfolding bit_length
bit_length-le k zero n h = omega arith
bit_length-le zero (suc fuel) n h = ground arith
bit_length-le (suc k) (suc fuel) n h =
    let half : n / 2 < 2 ^ k = omega (arith, pow-suc 2 k) in
    ground (arith, bit_length-le k fuel (n / 2) half)

round_exact : (n p : ℕ) → 0 < p → round_half_even (n * p) 1 / p ≡ n
unfolding round_half_even
round_exact n p h = ground (arith, mul-div_cancel n h)

double_floor-exact : (n : ℕ) → n < 2 ^ 53 → double_floor n 0 ≡ n
unfolding double_floor
double_floor-exact n h =
    let whole : n / 1 ≡ n = omega arith in
    rw (whole, le→leb _ 53 (bit_length-le 53 n n h))
      (round_exact n (2 ^ (53 - bit_length n n)) (one-le-pow _ 2 (omega arith)))

decimal-digits_onto :
    (fuel n : ℕ) (s : Text) → n < fuel → decimal 0 (digits_onto fuel n s) ≡ decimal n s
unfolding decimal digits_onto
decimal-digits_onto zero n s h = absurd (omega arith)
decimal-digits_onto (suc fuel) n s h = elim (Bool-cases (ltb n 10)) [
  | inl small ↦
      rw (small, digits_onto) (ap (λ m. decimal m s) (let le = ltb→lt n 10 small in omega arith))
  | inr big ↦
      let le : 10 ≤ n = ground arith in
      rw (big, digits_onto)
        (decimal-digits_onto fuel (n / 10) ((b'0' + n % 10) ∷ s) (omega arith)
          ∙ ap (λ m. decimal m s) (omega arith))
]

digit-ne_dot : (n : ℕ) → (b'0' + n == b'.') ≡ false
digit-ne_dot n = ground arith

until_dot-digits_onto :
    (fuel n : ℕ) (s : Text) → until_dot (digits_onto fuel n s) ≡ digits_onto fuel n (until_dot s)
unfolding until_dot digits_onto
until_dot-digits_onto zero n s = refl
until_dot-digits_onto (suc fuel) n s =
    let rec = until_dot-digits_onto fuel (n / 10) ((b'0' + n % 10) ∷ s) in
    elim (Bool-cases (ltb n 10)) [
      | inl small ↦ rw (small, digits_onto, digit-ne_dot)
      | inr big ↦ rw (big, digits_onto) (rec ∙ rw digit-ne_dot)
    ]

after_dot-digits_onto : (fuel n : ℕ) (s : Text) → after_dot (digits_onto fuel n s) ≡ after_dot s
unfolding after_dot digits_onto
after_dot-digits_onto zero n s = refl
after_dot-digits_onto (suc fuel) n s =
    let rec = after_dot-digits_onto fuel (n / 10) ((b'0' + n % 10) ∷ s) in
    elim (Bool-cases (ltb n 10)) [
      | inl small ↦ rw (small, digits_onto, digit-ne_dot)
      | inr big ↦ rw (big, digits_onto) (rec ∙ rw digit-ne_dot)
    ]

-- The digits of a number below 2 ^ 53 are read as that number.
pub get_value_floor-digits : (n : ℕ) → n < 2 ^ 53 → get_value_floor (digits n) ≡ n
unfolding get_value_floor digits
get_value_floor-digits n h =
    rw
      (
        until_dot-digits_onto (suc n) n [],
        after_dot-digits_onto (suc n) n [],
        append-nil,
        decimal-digits_onto (suc n) n [] (omega arith),
      )
      (double_floor-exact n h)

pub convert-digits : (bound n : ℕ) → n < 2 ^ 53 → n < bound → convert bound (digits n) ≡ some n
unfolding convert
convert-digits bound n h b = rw (get_value_floor-digits n h, lt→ltb n bound b)

-- Two to the 53rd and one more are read as the same double.
pub get_value_floor-not_exact : get_value_floor (digits (2 ^ 53 + 1)) ≡ 2 ^ 53
unfolding get_value_floor digits
get_value_floor-not_exact = refl
