-- ===== src/Auth/Totp.antt =====
-- src/auth/totp.rs: the five characters of the Steam authenticator.
--
-- HMAC-SHA1 and the Base64 decoder are parameters. The texts are bytes.
pub mod Digits
use steamroids.Prelude.{
  ℕ, zero, suc, ◌+◌, ◌*◌, ◌/◌, ◌%◌, ◌^◌, List, [], ◌∷◌, ◌++◌, Option, some, none, bit_and, get_or,
}
use steamroids.Prelude.Text.{codes}
use steamroids.Prelude.Split.{trim}
use steamroids.Error.{Result, ok, err, base64, invalid_config, msg, ◌>>=◌}
use steamroids.Wire.{Bytes}
use steamroids.Codec.{decode_or}

abbrev pub steam_alphabet : Bytes
steam_alphabet = codes "23456789BCDFGHJKMNPQRTVWXY"

abbrev pub time_step_secs : ℕ
time_step_secs = 30

-- A digest of 20 bytes has its offset in the last one.
unfoldable pub truncated : Bytes → ℕ
truncated hash =
    let offset = bit_and (get_or hash 19 0) 0x0F in
    bit_and (get_or hash offset 0) 0x7F * 2 ^ 24
    + get_or hash (offset + 1) 0 * 2 ^ 16
    + get_or hash (offset + 2) 0 * 2 ^ 8
    + get_or hash (offset + 3) 0

-- The characters of the `n` lowest digits to the base 26, the lowest first.
unfoldable pub code_chars : ℕ → ℕ → Bytes
code_chars zero code = []
code_chars (suc n) code = get_or steam_alphabet (code % 26) 0 ∷ code_chars n (code / 26)

-- `to_be_bytes` of a 64-bit number.
unfoldable pub be_bytes : ℕ → ℕ → Bytes
be_bytes zero n = []
be_bytes (suc k) n = be_bytes k (n / 256) ++ ((n % 256) ∷ [])

-- `hmac` takes the key and the message.
unfoldable pub generate_with_step : (Bytes → Bytes → Bytes) → Bytes → ℕ → Bytes
unfolding truncated code_chars be_bytes
generate_with_step hmac secret step = code_chars 5 (truncated (hmac secret (be_bytes 8 step)))

-- `clock` is the wall clock, in seconds since the epoch (`none`: it is before the epoch).
time_of : Option ℕ → Option ℕ → Result ℕ
time_of (some t) clock = ok t
time_of none clock = decode_or (invalid_config (msg "system clock before epoch")) clock

unfoldable pub generate_auth_code :
    (Bytes → Bytes → Bytes) → (Bytes → Option Bytes) → Option ℕ → Bytes → Option ℕ → Result Bytes
unfolding time_of generate_with_step trim
generate_auth_code hmac standard_decode clock shared_secret_b64 timestamp = do
  secret ← decode_or (base64 (msg "{e}")) (standard_decode (trim shared_secret_b64))
  ts ← time_of timestamp clock
  ok (generate_with_step hmac secret (ts / time_step_secs))
