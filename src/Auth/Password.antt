-- ===== src/Auth/Password.antt =====
-- src/auth/rsa_pw.rs: the encryption of the password.
--
-- The RSA library is a parameter.
use steamroids.Prelude.{ℕ, Bool, Option, if◌then◌else◌}
use steamroids.Error.{Result, ok, err, auth_rejected, msg, ◌>>=◌}
use steamroids.Wire.{Bytes}
use steamroids.Codec.{decode_or}

pub record Rsa : Type 0 where
  -- `BigUint::parse_bytes` to the base 16.
  pub parse_hex : Bytes → Option ℕ
  -- Whether `RsaPublicKey::new` takes a modulus and an exponent.
  pub is_key : ℕ → ℕ → Bool
  -- PKCS#1 v1.5 with the padding that the generator gives.
  pub encrypt : ℕ → ℕ → Bytes → Option Bytes
  -- `STANDARD.encode`.
  pub base64 : Bytes → Bytes

key_check : Bool → Result (Unit {0})
key_check valid = if valid then ok tt else err (auth_rejected (msg "rsa: {err}"))

unfoldable pub encrypt_password : Rsa → Bytes → Bytes → Bytes → Result Bytes
unfolding key_check
encrypt_password rsa word mod_hex exp_hex = do
  n ← decode_or (auth_rejected (msg "rsa: bad modulus hex")) (rsa.parse_hex mod_hex)
  e ← decode_or (auth_rejected (msg "rsa: bad exponent hex")) (rsa.parse_hex exp_hex)
  u ← key_check (rsa.is_key n e)
  ct ← decode_or (auth_rejected (msg "rsa encrypt: {err}")) (rsa.encrypt n e word)
  ok (rsa.base64 ct)
