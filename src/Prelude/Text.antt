-- ===== src/Prelude/Text.antt =====
-- Texts as lists of bytes, with the parts of Rust's `str` that the source uses: decimal printing,
-- `parse::<u64>`, `trim`, `split`.
use Prim.Native.Char.{code}
use Prim.Native.String.{String}
use steamroids.Prelude.Tests.{ltb, if◌then◌else◌}
use Prim.Native.Nat.{ℕ, zero, suc, ◌+◌, ◌/◌, ◌%◌}
use mathlib.Core.List.{List, [], ◌∷◌, ◌++◌}

-- The bytes of an ASCII literal.
abbrev pub codes : String → List ℕ
codes String.[] = []
codes (String.◌∷◌ c s) = code c ∷ codes s

-- The decimal digits of a number, on fuel: `n` has at most `n + 1` digits.
unfoldable pub decimal_fuel : ℕ → ℕ → List ℕ
decimal_fuel zero n = []
decimal_fuel (suc f) n =
    let more = decimal_fuel f (n / 10) in
    if ltb n 10 then (b'0' + n) ∷ [] else more ++ ((b'0' + n % 10) ∷ [])

-- `Display` of an integer of at most 64 bits, which has at most 20 digits.
unfoldable pub decimal : ℕ → List ℕ
unfolding decimal_fuel
decimal n = decimal_fuel 20 n
