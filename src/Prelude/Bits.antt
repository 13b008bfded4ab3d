-- ===== src/Prelude/Bits.antt =====
-- `bit_and` and `bit_or` at variables, for the two masks that the frame codec uses: the low bits
-- of a word, and one bit above them.
use Prim.Native.Nat.{
  ℕ, zero, suc, ◌+◌, ◌-◌, ◌*◌, ◌/◌, ◌%◌, ◌^◌, ◌≤◌, ◌<◌, min, max, bit_and, bit_or, digits, bitwise,
  bit_and-bitwise, bit_or-bitwise,
}
use mathlib.Core.Path.{◌≡◌, refl, ap}
use native.Mathlib.Omega.{arith}
use native.Mathlib.Nat.{two-pow-succ}

-- The digit recursion does not depend on its fuel, as soon as there is enough.
module _ (tail : ℕ → ℕ) (op : ℕ → ℕ → ℕ) where
  digits-enough : (n m a b : ℕ) → a ≤ n → a ≤ m → digits tail op n a b ≡ digits tail op m a b
  digits-enough zero m (suc a) b p q = absurd (omega arith)
  digits-enough (suc n) zero (suc a) b p q = absurd (omega arith)
  digits-enough (suc n) (suc m) (suc a) b p q =
      let lower = digits-enough n m (suc a / 2) (b / 2) (omega arith) (omega arith) in rw lower
  digits-enough zero zero zero b p q = refl
  digits-enough zero (suc m) zero b p q = refl
  digits-enough (suc n) zero zero b p q = refl
  digits-enough (suc n) (suc m) zero b p q = refl

  bitwise-halves :
      (a b : ℕ)
      → bitwise tail op (suc a) b ≡ bitwise tail op (suc a / 2) (b / 2) * 2 + op (suc a % 2) (b % 2)
  bitwise-halves a b =
      rw (digits-enough a (suc a / 2) (suc a / 2) (b / 2) (omega arith) (omega arith))

-- One equation for the lowest digit of each operation.
pub bit_and-halves : (a b : ℕ) → bit_and a b ≡ bit_and (a / 2) (b / 2) * 2 + min (a % 2) (b % 2)
bit_and-halves zero b = simp bit_and-bitwise (omega arith)
bit_and-halves (suc a) b = simp bit_and-bitwise (bitwise-halves (λ _. 0) min a b)

pub bit_or-halves : (a b : ℕ) → bit_or a b ≡ bit_or (a / 2) (b / 2) * 2 + max (a % 2) (b % 2)
bit_or-halves zero b = simp bit_or-bitwise (omega arith)
bit_or-halves (suc a) b = simp bit_or-bitwise (bitwise-halves (λ y. y) max a b)

mod-double : (a m : ℕ) → 0 < m → a % (m + m) ≡ a / 2 % m * 2 + a % 2
mod-double a m h = grind arith

div-double : (a m : ℕ) → 0 < m → a / (m + m) ≡ a / 2 / m
div-double a m h = grind arith

pow_pos : (k : ℕ) → 0 < 2 ^ k
pow_pos zero = omega arith
pow_pos (suc k) = omega (arith, pow_pos k, two-pow-succ k)

-- With zero on the right, by recursion on a bound of the left argument.
with_zero : (n a : ℕ) → a ≤ n → (bit_and a 0 ≡ 0) × (bit_or a 0 ≡ a)
with_zero n zero h = (refl, refl)
with_zero zero (suc a) h = absurd (omega arith)
with_zero (suc n) (suc a) h =
    let (none_kept, all_kept) = with_zero n (suc a / 2) (omega arith) in
    (
      omega (arith, bit_and-halves (suc a) 0, none_kept),
      omega (arith, bit_or-halves (suc a) 0, all_kept),
    )

pub bit_and-zero : (a : ℕ) → bit_and a 0 ≡ 0
bit_and-zero a = (with_zero a a (omega arith)).0

bit_or-zero : (a : ℕ) → bit_or a 0 ≡ a
bit_or-zero a = (with_zero a a (omega arith)).1

-- A mask of `k` ones keeps the `k` low bits.
pub bit_and-ones : (k a : ℕ) → bit_and a (2 ^ k - 1) ≡ a % 2 ^ k
bit_and-ones zero a = omega (arith, bit_and-zero a)
bit_and-ones (suc k) a = omega (
  arith,
  two-pow-succ k,
  pow_pos k,
  bit_and-halves a (2 ^ suc k - 1),
  bit_and-ones k (a / 2),
  mod-double a (2 ^ k) (pow_pos k),
  ap (λ (t : ℕ). a % t) (two-pow-succ k),
  ap (λ (t : ℕ). bit_and (a / 2) t) (halve k),
)
  where
    halve : (k : ℕ) → (2 ^ suc k - 1) / 2 ≡ 2 ^ k - 1
    halve k = omega (arith, two-pow-succ k, pow_pos k)

half_pow : (k : ℕ) → 2 ^ suc k / 2 ≡ 2 ^ k
half_pow k = omega (arith, two-pow-succ k)

-- A mask with the single bit `k` tells whether that bit is set.
pub bit_and-single : (k a : ℕ) → bit_and a (2 ^ k) ≡ a / 2 ^ k % 2 * 2 ^ k
bit_and-single zero a = omega (arith, bit_and-halves a 1, bit_and-zero (a / 2))
bit_and-single (suc k) a = omega (
  arith,
  two-pow-succ k,
  bit_and-halves a (2 ^ suc k),
  bit_and-single k (a / 2),
  ap (λ (t : ℕ). a / t % 2) (two-pow-succ k),
  ap (λ (t : ℕ). t % 2) (div-double a (2 ^ k) (pow_pos k)),
  ap (λ (t : ℕ). bit_and (a / 2) t) (half_pow k),
  ap (λ (t : ℕ). a / 2 / 2 ^ k % 2 * t) (two-pow-succ k),
  ap (λ (t : ℕ). t * 2 ^ suc k) (ap (λ (t : ℕ). a / t % 2) (two-pow-succ k)),
  ap (λ (t : ℕ). t % 2 * 2 ^ suc k) (div-double a (2 ^ k) (pow_pos k)),
)

-- Setting the bit above a number of `k` bits adds its weight.
pub bit_or-above : (k a : ℕ) → a < 2 ^ k → bit_or a (2 ^ k) ≡ a + 2 ^ k
bit_or-above zero zero h = refl
bit_or-above zero (suc a) h = absurd (omega arith)
bit_or-above (suc k) a h = omega (
  arith,
  two-pow-succ k,
  bit_or-halves a (2 ^ suc k),
  bit_or-above k (a / 2) (omega (arith, two-pow-succ k)),
  ap (λ (t : ℕ). bit_or (a / 2) t) (half_pow k),
)
