-- ===== src/Auth/Jwt.antt =====
-- src/auth/jwt.rs: what the code reads out of a refresh token.
--
-- The Base64 and the JSON decoder are parameters.
pub mod Shape
pub mod Rejections
use steamroids.Prelude.{
  ℕ, Bool, true, false, List, [], ◌∷◌, Option, some, none, ◌||◌, if◌then◌else◌,
}
use steamroids.Prelude.Text.{codes}
use steamroids.Prelude.Parse.{parse_u64}
use steamroids.Prelude.Split.{split_on}
use steamroids.Error.{Error, Text, Result, ok, err, auth_rejected, msg, ◌>>=◌}
use steamroids.Wire.{Bytes}
use steamroids.Codec.{decode_or}

-- `serde_json::Value`, as far as it is looked at: a text, a number that fits 64 unsigned bits, or
-- something else.
pub data Json : Type 0 where
  text : Bytes → Json
  number : ℕ → Json
  other : Json

pub record JwtDecoders : Type 0 where
  -- `URL_SAFE_NO_PAD.decode`.
  pub base64_url : Bytes → Option Bytes
  -- `serde_json::from_slice`, seen through `get`.
  pub from_slice : Bytes → Option (Bytes → Option Json)

pub record RefreshTokenClaims : Type 0 where
  pub steam_id : ℕ
  pub exp : Option ℕ

unfoldable pub is_empty : Bytes → Bool
is_empty [] = true
is_empty (b ∷ bs) = false

-- `as_str` and `as_u64` of a member that may be absent.
unfoldable pub as_str : Option Json → Option Bytes
as_str (some (text s)) = some s
as_str (some (number n)) = none
as_str (some other) = none
as_str none = none

unfoldable pub as_u64 : Option Json → Option ℕ
as_u64 (some (number n)) = some n
as_u64 (some (text s)) = none
as_u64 (some other) = none
as_u64 none = none

-- The middle one of exactly three segments, none of them empty.
unfoldable pub payload_of : List Bytes → Result Bytes
unfolding is_empty
payload_of (header ∷ payload ∷ signature ∷ []) =
    if is_empty header || (is_empty payload || is_empty signature)
    then err (auth_rejected (msg "jwt: empty segment"))
    else ok payload
payload_of segments = err (auth_rejected (msg "jwt: expected 3 segments"))

unfoldable pub decode_payload : JwtDecoders → Bytes → Result (Bytes → Option Json)
unfolding payload_of split_on
decode_payload d jwt = do
  payload ← payload_of (split_on b'.' jwt)
  bytes ← decode_or (auth_rejected (msg "jwt b64: {e}")) (d.base64_url payload)
  decode_or (auth_rejected (msg "jwt json: {e}")) (d.from_slice bytes)

unfoldable pub refresh_token_claims : JwtDecoders → Bytes → Result RefreshTokenClaims
unfolding decode_payload as_str as_u64 parse_u64
refresh_token_claims d jwt = do
  get ← decode_payload d jwt
  sub ← decode_or (auth_rejected (msg "jwt: no sub claim")) (as_str (get (codes "sub")))
  steam_id ← decode_or (auth_rejected (msg "jwt sub: {e}")) (parse_u64 sub)
  ok (record { steam_id = steam_id; exp = as_u64 (get (codes "exp")) })

unfoldable pub steam_id_from_refresh_token : JwtDecoders → Bytes → Result ℕ
unfolding refresh_token_claims
steam_id_from_refresh_token d jwt = do claims ← refresh_token_claims d jwt; ok claims.steam_id
