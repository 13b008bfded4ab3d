-- ===== src/Prelude/Utf8.antt =====
-- Texts as lists of bytes, continued: `String::from_utf8_lossy`.
use Prim.Native.Nat.{ℕ}
use mathlib.Core.Bool.{Bool, ◌&&◌}
use mathlib.Core.List.{List, [], ◌∷◌, ◌++◌}
use mathlib.Core.Option.{Option, none, some}
use steamroids.Prelude.Tests.{◌==◌, leb, if◌then◌else◌}

-- A range of bytes for each continuation byte that is still to come.
abbrev pub Range : Type 0
Range = ℕ × ℕ

abbrev in_range : Range → ℕ → Bool
in_range r b = leb r.0 b && leb b r.1

abbrev tail_range : Range
tail_range = (0x80, 0xBF)

-- What must follow a first byte (`none`: it starts no character).
unfoldable pub continuations : ℕ → Option (List Range)
continuations b =
    if leb b 0x7F
    then some []
    else if leb 0xC2 b && leb b 0xDF
    then some (tail_range ∷ [])
    else if b == 0xE0
    then some ((0xA0, 0xBF) ∷ tail_range ∷ [])
    else if b == 0xED
    then some ((0x80, 0x9F) ∷ tail_range ∷ [])
    else if leb 0xE1 b && leb b 0xEF
    then some (tail_range ∷ tail_range ∷ [])
    else if b == 0xF0
    then some ((0x90, 0xBF) ∷ tail_range ∷ tail_range ∷ [])
    else if leb 0xF1 b && leb b 0xF3
    then some (tail_range ∷ tail_range ∷ tail_range ∷ [])
    else if b == 0xF4
    then some ((0x80, 0x8F) ∷ tail_range ∷ tail_range ∷ [])
    else none

-- U+FFFD.
abbrev pub replacement : List ℕ
replacement = 0xEF ∷ 0xBF ∷ 0xBD ∷ []

-- What is written out at once and what is held for a character that is not complete.
pub record Lossy : Type 0 where
  pub out : List ℕ
  pub held : List ℕ
  pub expected : List Range

abbrev idle : List ℕ → Lossy
idle out = record { out = out; held = []; expected = [] }

unfoldable pub start_char : List ℕ → ℕ → Lossy
unfolding continuations
start_char before b = elim (continuations b) [
  | none ↦ idle (before ++ replacement)
  | some ranges ↦ elim ranges [
    | [] ↦ idle (before ++ (b ∷ []))
    | r ∷ rs ↦ record { out = before; held = b ∷ []; expected = r ∷ rs }
  ]
]

unfoldable pub next_char : List ℕ → List Range → ℕ → Lossy
unfolding start_char
next_char held [] b = start_char [] b
next_char held (r ∷ []) b =
    if in_range r b then idle (held ++ (b ∷ [])) else start_char replacement b
next_char held (r ∷ r' ∷ rs) b =
    if in_range r b
    then record { out = []; held = held ++ (b ∷ []); expected = r' ∷ rs }
    else start_char replacement b

unfoldable pub lossy_from : List ℕ → List Range → List ℕ → List ℕ
unfolding next_char
lossy_from held [] [] = []
lossy_from held (r ∷ rs) [] = replacement
lossy_from held ranges (b ∷ bs) =
    let next = next_char held ranges b in next.out ++ lossy_from next.held next.expected bs

unfoldable pub from_utf8_lossy : List ℕ → List ℕ
unfolding lossy_from
from_utf8_lossy bytes = lossy_from [] [] bytes
