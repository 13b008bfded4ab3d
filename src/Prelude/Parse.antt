-- ===== src/Prelude/Parse.antt =====
-- Texts as lists of bytes, continued: what Rust's `parse` of an integer and `trim` accept.
use Prim.Native.Nat.{ℕ, zero, suc, ◌+◌, ◌-◌, ◌*◌, ◌/◌, ◌%◌, ◌^◌, ◌≤◌, ◌<◌}
use mathlib.Core.Path.{◌≡◌, refl, ap, ◌∙◌, subst}
use mathlib.Core.Logic.{inl, inr}
use mathlib.Core.Bool.{Bool, true, false, ◌&&◌}
use mathlib.Core.List.{List, [], ◌∷◌, ◌++◌}
use mathlib.Core.Option.{Option, none, some}
use native.Mathlib.Omega.{arith}
use steamroids.Prelude.Tests.{
  ◌==◌, leb, ltb, if◌then◌else◌, Bool-cases, Option-cases, ltb→lt, ltb→ge,
}
use steamroids.Prelude.Int.{ℤ, pos, negsuc}
use steamroids.Prelude.Text.{decimal, decimal_fuel}

abbrev pub is_digit : ℕ → Bool
is_digit c = leb b'0' c && leb c b'9'

-- One more digit behind `acc`, if it is a digit and the value stays within `bound`.
unfoldable pub push_digit : ℕ → ℕ → ℕ → Option ℕ
push_digit bound acc c =
    let value = acc * 10 + (c - b'0') in if is_digit c && leb value bound then some value else none

unfoldable pub parse_digits : ℕ → ℕ → List ℕ → Option ℕ
unfolding push_digit
parse_digits bound acc [] = some acc
parse_digits bound acc (c ∷ cs) = elim (push_digit bound acc c) [
  | none ↦ none
  | some value ↦ parse_digits bound value cs
]

-- A text of digits, of which there is at least one.
unfoldable pub parse_number : ℕ → List ℕ → Option ℕ
unfolding parse_digits
parse_number bound [] = none
parse_number bound (c ∷ cs) = parse_digits bound 0 (c ∷ cs)

-- `parse` of an unsigned type whose greatest value is `bound`: a `+` may stand before the digits.
unfoldable pub parse_unsigned : ℕ → List ℕ → Option ℕ
unfolding parse_number
parse_unsigned bound [] = none
parse_unsigned bound (c ∷ cs) =
    if c == b'+' then parse_number bound cs else parse_number bound (c ∷ cs)

unfoldable pub parse_u64 : List ℕ → Option ℕ
unfolding parse_unsigned
parse_u64 s = parse_unsigned (2 ^ 64 - 1) s

negated : ℕ → ℤ
negated zero = pos 0
negated (suc n) = negsuc n

-- `parse::<i32>`.
unfoldable pub parse_i32 : List ℕ → Option ℤ
unfolding parse_unsigned negated
parse_i32 [] = none
parse_i32 (c ∷ cs) =
    if c == b'-'
    then (elim (parse_number (2 ^ 31) cs) [ none ↦ none | some n ↦ some (negated n) ])
    else (elim (parse_unsigned (2 ^ 31 - 1) (c ∷ cs)) [ none ↦ none | some n ↦ some (pos n) ])

push_digit-lem :
    (bound acc d : ℕ)
    → d < 10
    → acc * 10 + d ≤ bound
    → push_digit bound acc (b'0' + d) ≡ some (acc * 10 + d)
unfolding push_digit
push_digit-lem bound acc d small h = ground arith

parse_digits-snoc :
    (bound acc : ℕ) (cs : List ℕ) (value d : ℕ)
    → d < 10
    → value * 10 + d ≤ bound
    → parse_digits bound acc cs ≡ some value
    → parse_digits bound acc (cs ++ ((b'0' + d) ∷ [])) ≡ some (value * 10 + d)
unfolding parse_digits
parse_digits-snoc bound acc [] value d small h e =
    let here : acc ≡ value = cc in
    rw (here, push_digit-lem bound value d small h, parse_digits) refl
parse_digits-snoc bound acc (c ∷ cs) value d small h e =
    elim (Option-cases (push_digit bound acc c)) [
      | inl bad ↦ absurd (cc (rw (bad, parse_digits) at e))
      | inr (acc', good) ↦
          rw (good, parse_digits)
            (parse_digits-snoc bound acc' cs value d small h (rw (good, parse_digits) at e))
    ]

shorter : (f n : ℕ) → n < 10 ^ suc f → n / 10 < 10 ^ f
shorter f n small = omega (arith, small)

parse_digits-decimal_fuel :
    (bound f n : ℕ) → n < 10 ^ f → n ≤ bound → parse_digits bound 0 (decimal_fuel f n) ≡ some n
unfolding parse_digits decimal_fuel
parse_digits-decimal_fuel bound zero n small h = ap some (omega arith)
parse_digits-decimal_fuel bound (suc f) n small h = elim (Bool-cases (ltb n 10)) [
  | inl less ↦
      rw (less, push_digit-lem bound 0 n (ltb→lt n 10 less) (omega arith), parse_digits)
        (ap some (omega arith))
  | inr more ↦ rw more (
      parse_digits-snoc bound 0 (decimal_fuel f (n / 10)) (n / 10) (n % 10) (omega arith)
        (omega (arith, ltb→ge n 10 more))
        (parse_digits-decimal_fuel bound f (n / 10) (shorter f n small) (omega arith))
      ∙ ap some (omega arith))
]

-- A printed number starts with a digit.
decimal_fuel-head :
    (f n : ℕ)
    → n < 10 ^ suc f
    → (c : ℕ) × (cs : List ℕ) × (decimal_fuel (suc f) n ≡ c ∷ cs) × (is_digit c ≡ true)
unfolding decimal_fuel
decimal_fuel-head zero n small =
    let less : ltb n 10 ≡ true = ground (arith, small) in
    (b'0' + n, [], rw less refl, ground (arith, less))
decimal_fuel-head (suc f) n small = elim (Bool-cases (ltb n 10)) [
  | inl less ↦ (b'0' + n, [], rw less refl, ground (arith, less))
  | inr more ↦
      let (c, cs, shape, digit) = decimal_fuel-head f (n / 10) (shorter (suc f) n small) in
      (c, cs ++ ((b'0' + n % 10) ∷ []), rw (more, shape) refl, digit)
]

-- A 64-bit number is read back from what is printed of it.
pub parse_u64-decimal : (n : ℕ) → n < 2 ^ 64 → parse_u64 (decimal n) ≡ some n
unfolding parse_u64 parse_unsigned parse_number decimal
parse_u64-decimal n small =
    let (c, cs, shape, digit) = decimal_fuel-head 19 n (omega arith) in
    let no_sign : (c == b'+') ≡ false = ground (arith, digit) in
    rw (shape, no_sign)
      (subst (λ (s : List ℕ). parse_digits (2 ^ 64 - 1) 0 s ≡ some n) shape
        (parse_digits-decimal_fuel (2 ^ 64 - 1) 20 n (omega arith) (omega arith)))
