-- ===== src/Proxy/Percent.antt =====
-- What the percent escapes of a proxy URL decode to.
use steamroids.Prelude.{
  ℕ, ◌+◌, ◌*◌, ◌<◌, ◌≡◌, ◌≢◌, arith, ◌∙◌, refl, ap, inl, inr, false, [], ◌∷◌, some, none, ◌==◌,
  Option-cases,
}
use steamroids.Wire.{Bytes}
use steamroids.Prelude.Utf8.{from_utf8_lossy}
use steamroids.Proxy.Parse.{hex_nibble, escape_value, percent_bytes, percent_decode}

-- The hexadecimal digits with their values, in either case.
pub data HexDigit : ℕ → ℕ → Type 0 where
  decimal : (n : ℕ) → n < 10 → HexDigit (b'0' + n) n
  lower : (n : ℕ) → n < 6 → HexDigit (b'a' + n) (10 + n)
  upper : (n : ℕ) → n < 6 → HexDigit (b'A' + n) (10 + n)

-- The ways to write a text: any byte may be escaped, with digits of either case, and `%` must be.
pub data Escapes : Bytes → Bytes → Type 0 where
  done : Escapes [] []
  plain :
      (c : ℕ) (input text : Bytes) → c ≢ b'%' → Escapes input text → Escapes (c ∷ input) (c ∷ text)
  escape :
      (h l high low : ℕ) (input text : Bytes)
      → HexDigit h high
      → HexDigit l low
      → Escapes input text
      → Escapes (b'%' ∷ h ∷ l ∷ input) ((high * 16 + low) ∷ text)

hex_nibble-HexDigit : (h high : ℕ) → HexDigit h high → hex_nibble h ≡ some high
unfolding hex_nibble
hex_nibble-HexDigit h high (decimal n small) = ground arith
hex_nibble-HexDigit h high (lower n small) = ground arith
hex_nibble-HexDigit h high (upper n small) = ground arith

escape_value-plain : (c h l : ℕ) → (c == b'%') ≡ false → escape_value c h l ≡ none
unfolding escape_value
escape_value-plain c h l other = elim (Option-cases (hex_nibble h)) [
  | inl bad ↦ rw (bad, escape_value) refl
  | inr (high, good) ↦ elim (Option-cases (hex_nibble l)) [
    | inl bad ↦ rw (good, bad, escape_value) refl
    | inr (low, good') ↦ rw (good, good', other, escape_value) refl
  ]
]

percent_bytes-plain :
    (c : ℕ) (bs : Bytes) → (c == b'%') ≡ false → percent_bytes (c ∷ bs) ≡ c ∷ percent_bytes bs
unfolding percent_bytes
percent_bytes-plain c [] other = refl
percent_bytes-plain c (h ∷ []) other = refl
percent_bytes-plain c (h ∷ l ∷ bs) other = rw (escape_value-plain c h l other, percent_bytes) refl

percent_bytes-Escapes : (input text : Bytes) → Escapes input text → percent_bytes input ≡ text
unfolding percent_bytes escape_value
percent_bytes-Escapes input text done = refl
percent_bytes-Escapes input text (plain c input' text' other rest) =
    percent_bytes-plain c input' (ground (arith, other))
    ∙ ap (◌∷◌ c) (percent_bytes-Escapes input' text' rest)
percent_bytes-Escapes input text (escape h l high low input' text' eh el rest) =
    rw (hex_nibble-HexDigit h high eh, hex_nibble-HexDigit l low el, percent_bytes, escape_value)
      (ap (◌∷◌ (high * 16 + low)) (percent_bytes-Escapes input' text' rest))

-- A user name or a password in a proxy URL decodes to the UTF-8 reading of the text that it was
-- written for, whichever of the bytes of that text were escaped and by hexadecimal digits of either
-- case.
pub percent_decode-Escapes :
    (input text : Bytes) → Escapes input text → percent_decode input ≡ from_utf8_lossy text
unfolding percent_decode
percent_decode-Escapes input text written = rw (percent_bytes-Escapes input text written) refl
