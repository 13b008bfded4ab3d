-- ===== src/Prelude/Order.antt =====
-- Well-founded orders: `<`, and the length of a list.
use mathlib.Core.WellFounded.{Acc}
use steamroids.Prelude.{ℕ, zero, suc, ◌<◌, List, length, arith}

-- Lists shrink: the order on which a loop that consumes its input recurs.
abbrev pub Shorter {ℓ} : {A : Type ℓ} → List A → List A → Type 0
Shorter xs ys = length xs < length ys

Acc-Shorter_below {ℓ} : {A : Type ℓ} (k : ℕ) (xs : List A) → length xs < k → Acc Shorter xs
Acc-Shorter_below zero xs h = absurd (omega arith)
Acc-Shorter_below (suc k) xs h = Acc.intro xs (λ ys hy. Acc-Shorter_below k ys (omega arith))

unfoldable pub Acc-Shorter {ℓ} : {A : Type ℓ} (xs : List A) → Acc Shorter xs
unfolding Acc-Shorter_below
Acc-Shorter xs = Acc-Shorter_below (suc (length xs)) xs (omega arith)
