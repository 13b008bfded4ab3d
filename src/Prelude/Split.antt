-- ===== src/Prelude/Split.antt =====
-- Texts as lists of bytes, continued: `split` at a character and `trim`.
use Prim.Native.Nat.{ℕ}
use mathlib.Core.Path.{◌≡◌, refl, ap, ◌∙◌}
use mathlib.Core.Logic.{inl, inr}
use mathlib.Core.Bool.{Bool, true, false, ◌&&◌, ◌||◌}
use mathlib.Core.List.{List, [], ◌∷◌, ◌++◌}
use mathlib.Core.Option.{Option, none, some}
use native.Mathlib.Omega.{arith}
use steamroids.Prelude.Tests.{◌==◌, leb, if◌then◌else◌, Bool-cases}
use steamroids.Prelude.Lists.{All}

-- A list of pieces with a byte in front of the first.
unfoldable pub onto_first : ℕ → List (List ℕ) → List (List ℕ)
onto_first b [] = (b ∷ []) ∷ []
onto_first b (piece ∷ pieces) = (b ∷ piece) ∷ pieces

-- The pieces between the separators, of which there is at least one.
unfoldable pub split_on : ℕ → List ℕ → List (List ℕ)
unfolding onto_first
split_on sep [] = [] ∷ []
split_on sep (b ∷ bs) =
    let pieces = split_on sep bs in if b == sep then [] ∷ pieces else onto_first b pieces

-- The pieces with the separator between them.
unfoldable pub join_with : ℕ → List (List ℕ) → List ℕ
join_with sep [] = []
join_with sep (piece ∷ []) = piece
join_with sep (piece ∷ next ∷ pieces) = piece ++ (sep ∷ join_with sep (next ∷ pieces))

abbrev pub IsFree : ℕ → List ℕ → Type 0
IsFree sep = All (λ (b : ℕ). (b == sep) ≡ false)

join-onto_first :
    (sep b : ℕ) (pieces : List (List ℕ))
    → (pieces ≡ [] → ⊥)
    → join_with sep (onto_first b pieces) ≡ b ∷ join_with sep pieces
unfolding join_with onto_first
join-onto_first sep b [] some_piece = absurd (some_piece refl)
join-onto_first sep b (piece ∷ []) some_piece = refl
join-onto_first sep b (piece ∷ next ∷ pieces) some_piece = refl

onto_first-nonempty : (b : ℕ) (pieces : List (List ℕ)) → onto_first b pieces ≡ [] → ⊥
unfolding onto_first
onto_first-nonempty b [] e = cc e
onto_first-nonempty b (piece ∷ pieces) e = cc e

split-nonempty : (sep : ℕ) (bs : List ℕ) → split_on sep bs ≡ [] → ⊥
unfolding split_on
split-nonempty sep [] e = cc e
split-nonempty sep (b ∷ bs) e = elim (Bool-cases (b == sep)) [
  | inl here ↦ cc (rw (here, split_on) at e)
  | inr other ↦ onto_first-nonempty b (split_on sep bs) (rw (other, split_on) at e)
]

join-front :
    (sep : ℕ) (pieces : List (List ℕ))
    → (pieces ≡ [] → ⊥)
    → join_with sep ([] ∷ pieces) ≡ sep ∷ join_with sep pieces
unfolding join_with
join-front sep [] some_piece = absurd (some_piece refl)
join-front sep (piece ∷ pieces) some_piece = refl

-- Nothing is lost: the pieces give the text back.
pub join_with-split_on : (sep : ℕ) (bs : List ℕ) → join_with sep (split_on sep bs) ≡ bs
unfolding split_on join_with
join_with-split_on sep [] = refl
join_with-split_on sep (b ∷ bs) = elim (Bool-cases (b == sep)) [
  | inl here ↦
      rw (here, join-front sep (split_on sep bs) (split-nonempty sep bs), join_with-split_on sep bs)
        (ap (λ (x : ℕ). x ∷ bs) (ground (arith, here)))
  | inr other ↦
      rw (other, join-onto_first sep b (split_on sep bs) (split-nonempty sep bs))
        (ap (◌∷◌ b) (join_with-split_on sep bs))
]

All-onto_first :
    (sep b : ℕ) (pieces : List (List ℕ))
    → (b == sep) ≡ false
    → All (IsFree sep) pieces
    → All (IsFree sep) (onto_first b pieces)
unfolding onto_first
All-onto_first sep b [] other free = ((other, tt), tt)
All-onto_first sep b (piece ∷ pieces) other (first, free) = ((other, first), free)

-- No piece has a separator in it.
pub split_on-IsFree : (sep : ℕ) (bs : List ℕ) → All (IsFree sep) (split_on sep bs)
unfolding split_on
split_on-IsFree sep [] = (tt, tt)
split_on-IsFree sep (b ∷ bs) = elim (Bool-cases (b == sep)) [
  | inl here ↦ rw here (tt, split_on-IsFree sep bs)
  | inr other ↦ rw other (All-onto_first sep b (split_on sep bs) other (split_on-IsFree sep bs))
]

split-piece : (sep : ℕ) (piece : List ℕ) → IsFree sep piece → split_on sep piece ≡ piece ∷ []
unfolding split_on onto_first
split-piece sep [] free = refl
split-piece sep (b ∷ bs) (other, free) = rw (other, split-piece sep bs free) refl

split-front :
    (sep : ℕ) (piece rest : List ℕ)
    → IsFree sep piece
    → split_on sep (piece ++ (sep ∷ rest)) ≡ piece ∷ split_on sep rest
unfolding split_on onto_first
split-front sep [] rest free =
    let same : (sep == sep) ≡ true = ground arith in rw (same, split_on) refl
split-front sep (b ∷ bs) rest (other, free) = rw (other, split-front sep bs rest free) refl

-- Pieces without separators come back from what they are joined to.
pub split_on-join_with :
    (sep : ℕ) (piece : List ℕ) (pieces : List (List ℕ))
    → All (IsFree sep) (piece ∷ pieces)
    → split_on sep (join_with sep (piece ∷ pieces)) ≡ piece ∷ pieces
unfolding join_with
split_on-join_with sep piece [] (free, u) = split-piece sep piece free
split_on-join_with sep piece (next ∷ pieces) (free, frees) =
    split-front sep piece (join_with sep (next ∷ pieces)) free
    ∙ ap (◌∷◌ piece) (split_on-join_with sep next pieces frees)

-- Equality of texts.
unfoldable pub same_text : List ℕ → List ℕ → Bool
same_text [] [] = true
same_text [] (b ∷ bs) = false
same_text (a ∷ rest) [] = false
same_text (a ∷ rest) (b ∷ bs) = a == b && same_text rest bs

-- What follows a prefix, if the text has it.
unfoldable pub strip_prefix : List ℕ → List ℕ → Option (List ℕ)
strip_prefix [] bs = some bs
strip_prefix (p ∷ ps) [] = none
strip_prefix (p ∷ ps) (b ∷ bs) = let rest = strip_prefix ps bs in if b == p then rest else none

abbrev onto_before : ℕ → Option (List ℕ × List ℕ) → Option (List ℕ × List ℕ)
onto_before b none = none
onto_before b (some (before, after)) = some (b ∷ before, after)

-- `split_once` at a text that is not empty: what is before and after its first occurrence.
unfoldable pub split_once : List ℕ → List ℕ → Option (List ℕ × List ℕ)
unfolding strip_prefix
split_once pat [] = none
split_once pat (b ∷ bs) =
    let later = split_once pat bs in
    elim (strip_prefix pat (b ∷ bs)) [ some after ↦ some ([], after) | none ↦ onto_before b later ]

-- `char::is_whitespace` on the UTF-8 encodings: how many bytes a whitespace character at the front
-- of the text has (0: there is none).
abbrev is_space : ℕ → Bool
is_space a = a == b' ' || leb 9 a && leb a 13

-- U+2000 to U+200A, U+2028, U+2029, U+202F.
abbrev is_general_space : ℕ → Bool
is_general_space c = leb 0x80 c && leb c 0x8A || c == 0xA8 || c == 0xA9 || c == 0xAF

-- U+1680, U+205F and U+3000 besides.
abbrev is_space3 : ℕ → ℕ → ℕ → Bool
is_space3 a b c =
    a == 0xE1 && b == 0x9A && c == 0x80
    || a == 0xE2 && b == 0x80 && is_general_space c
    || a == 0xE2 && b == 0x81 && c == 0x9F
    || a == 0xE3 && b == 0x80 && c == 0x80

-- U+0085 and U+00A0.
abbrev is_space2 : ℕ → ℕ → Bool
is_space2 a b = a == 0xC2 && (b == 0x85 || b == 0xA0)

unfoldable pub trim_start : List ℕ → List ℕ
trim_start [] = []
trim_start (a ∷ []) = if is_space a then [] else a ∷ []
trim_start (a ∷ b ∷ []) =
    let rest = trim_start (b ∷ []) in
    if is_space a then rest else if is_space2 a b then [] else a ∷ b ∷ []
trim_start (a ∷ b ∷ c ∷ bs) =
    let after1 = trim_start (b ∷ c ∷ bs) in
    let after2 = trim_start (c ∷ bs) in
    let after3 = trim_start bs in
    if is_space a
    then after1
    else if is_space2 a b
    then after2
    else if is_space3 a b c
    then after3
    else a ∷ b ∷ c ∷ bs

abbrev pub reverse : List ℕ → List ℕ
reverse [] = []
reverse (b ∷ bs) = reverse bs ++ (b ∷ [])

-- `trim_end` on the reversed text.
unfoldable pub trim_end_reversed : List ℕ → List ℕ
trim_end_reversed [] = []
trim_end_reversed (a ∷ []) = if is_space a then [] else a ∷ []
trim_end_reversed (a ∷ b ∷ []) =
    let rest = trim_end_reversed (b ∷ []) in
    if is_space a then rest else if is_space2 b a then [] else a ∷ b ∷ []
trim_end_reversed (a ∷ b ∷ c ∷ bs) =
    let after1 = trim_end_reversed (b ∷ c ∷ bs) in
    let after2 = trim_end_reversed (c ∷ bs) in
    let after3 = trim_end_reversed bs in
    if is_space a
    then after1
    else if is_space2 b a
    then after2
    else if is_space3 c b a
    then after3
    else a ∷ b ∷ c ∷ bs

unfoldable pub trim : List ℕ → List ℕ
unfolding trim_start trim_end_reversed
trim s = reverse (trim_end_reversed (reverse (trim_start s)))
