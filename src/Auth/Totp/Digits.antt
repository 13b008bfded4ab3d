-- ===== src/Auth/Totp/Digits.antt =====
-- The code of the authenticator against RFC 4226 with Steam's alphabet.
use steamroids.Prelude.{
  ℕ, zero, suc, ◌≡◌, ◌∙◌, sym, refl, ap, subst, ◌+◌, ◌*◌, ◌/◌, ◌%◌, ◌^◌, ◌<◌, List, [], ◌∷◌, map,
  some, get_or, get_elem?, get_elem?-in_range, length, All, arith,
}
use steamroids.Prelude.Bits.{bit_and-ones}
use steamroids.Wire.{Bytes}
use steamroids.Auth.Totp.{steam_alphabet, truncated, code_chars, be_bytes, generate_with_step}

-- The number that digits to the base 26 stand for, the lowest first.
unfoldable pub base26 : List ℕ → ℕ
base26 [] = 0
base26 (d ∷ ds) = d + 26 * base26 ds

-- Five characters of the alphabet whose places in it are the low five digits of a number.
abbrev pub IsCode : ℕ → Bytes → Type 0
IsCode number chars =
    (digits : List ℕ) × (length digits ≡ 5)
    × All (λ (d : ℕ). d < 26) digits
    × (map (get_elem? steam_alphabet) digits ≡ map some chars)
    × (base26 digits ≡ number % 26 ^ 5)

abbrev pub IsDigest : Bytes → Type 0
IsDigest hash = (length hash ≡ 20) × All (λ (b : ℕ). b < 256) hash

-- Four bytes of the digest, from the place that the low half of its last byte gives.
abbrev pub Picks : Bytes → ℕ → ℕ → ℕ → ℕ → Type 0
Picks hash b0 b1 b2 b3 =
    (last : ℕ) × (get_elem? hash 19 ≡ some last)
    × (get_elem? hash (last % 16) ≡ some b0)
    × (get_elem? hash (last % 16 + 1) ≡ some b1)
    × (get_elem? hash (last % 16 + 2) ≡ some b2)
    × (get_elem? hash (last % 16 + 3) ≡ some b3)

get_or-get_elem? : (xs : List ℕ) (i d x : ℕ) → get_elem? xs i ≡ some x → get_or xs i d ≡ x
get_or-get_elem? [] i d x h = absurd (cc h)
get_or-get_elem? (y ∷ xs) zero d x h = cc
get_or-get_elem? (y ∷ xs) (suc i) d x h = get_or-get_elem? xs i d x h

byte_at : (xs : Bytes) (i b : ℕ) → All (λ (c : ℕ). c < 256) xs → get_elem? xs i ≡ some b → b < 256
byte_at [] i b small h = absurd (cc h)
byte_at (x ∷ xs) zero b (less, small) h = let here : x ≡ b = cc in omega arith
byte_at (x ∷ xs) (suc i) b (less, small) h = byte_at xs i b small h

symbol : (d : ℕ) → d < 26 → get_elem? steam_alphabet d ≡ some (get_or steam_alphabet d 0)
symbol d less =
    let (c, here) = get_elem?-in_range steam_alphabet d less in
    here ∙ ap some (sym (get_or-get_elem? steam_alphabet d 0 c here))

code_chars-IsCode : (n : ℕ) → IsCode n (code_chars 5 n)
unfolding code_chars base26
code_chars-IsCode n =
    let d0 : ℕ = n % 26 in
    let d1 : ℕ = n / 26 % 26 in
    let d2 : ℕ = n / 26 / 26 % 26 in
    let d3 : ℕ = n / 26 / 26 / 26 % 26 in
    let d4 : ℕ = n / 26 / 26 / 26 / 26 % 26 in
    (
      d0 ∷ d1 ∷ d2 ∷ d3 ∷ d4 ∷ [],
      refl,
      (omega arith, (omega arith, (omega arith, (omega arith, (omega arith, tt))))),
      rw
          (
            symbol d0 (omega arith),
            symbol d1 (omega arith),
            symbol d2 (omega arith),
            symbol d3 (omega arith),
            symbol d4 (omega arith),
          )
          refl,
      omega arith,
    )

truncated-Picks :
    (hash : Bytes)
    → IsDigest hash
    → (b0 b1 b2 b3 : ℕ) × Picks hash b0 b1 b2 b3
      × (truncated hash ≡ (b0 * 2 ^ 24 + b1 * 2 ^ 16 + b2 * 2 ^ 8 + b3) % 2 ^ 31)
unfolding truncated
truncated-Picks hash (twenty, small) =
    let (last, at19) = get_elem?-in_range hash 19 (omega arith) in
    let (b0, at0) = get_elem?-in_range hash (last % 16) (omega arith) in
    let (b1, at1) = get_elem?-in_range hash (last % 16 + 1) (omega arith) in
    let (b2, at2) = get_elem?-in_range hash (last % 16 + 2) (omega arith) in
    let (b3, at3) = get_elem?-in_range hash (last % 16 + 3) (omega arith) in
    let less1 = byte_at hash (last % 16 + 1) b1 small at1 in
    let less2 = byte_at hash (last % 16 + 2) b2 small at2 in
    let less3 = byte_at hash (last % 16 + 3) b3 small at3 in
    (
      b0,
      b1,
      b2,
      b3,
      (last, at19, at0, at1, at2, at3),
      rw
          (
            get_or-get_elem? hash 19 0 last at19,
            bit_and-ones 4 last,
            get_or-get_elem? hash (last % 16) 0 b0 at0,
            get_or-get_elem? hash (last % 16 + 1) 0 b1 at1,
            get_or-get_elem? hash (last % 16 + 2) 0 b2 at2,
            get_or-get_elem? hash (last % 16 + 3) 0 b3 at3,
            bit_and-ones 7 b0,
          )
          (omega arith),
    )

-- When HMAC gives 20 bytes for the secret and the step, as SHA-1 does, the code has five characters
-- of Steam's alphabet, and their places in it are the low five digits to the base 26 of the number
-- that RFC 4226 picks: the low 31 bits of the four bytes from the place that the last byte gives.
-- All of these are within the digest.
pub generate_with_step-IsCode :
    (hmac : Bytes → Bytes → Bytes) (secret : Bytes) (step : ℕ)
    → IsDigest (hmac secret (be_bytes 8 step))
    → (b0 b1 b2 b3 : ℕ) × Picks (hmac secret (be_bytes 8 step)) b0 b1 b2 b3
      × IsCode
          ((b0 * 2 ^ 24 + b1 * 2 ^ 16 + b2 * 2 ^ 8 + b3) % 2 ^ 31)
          (generate_with_step hmac secret step)
unfolding generate_with_step
generate_with_step-IsCode hmac secret step digest =
    let hash = hmac secret (be_bytes 8 step) in
    let (b0, b1, b2, b3, picks, number) = truncated-Picks hash digest in
    (
      b0,
      b1,
      b2,
      b3,
      picks,
      subst (λ (n : ℕ). IsCode n (code_chars 5 (truncated hash))) number
          (code_chars-IsCode (truncated hash)),
    )
