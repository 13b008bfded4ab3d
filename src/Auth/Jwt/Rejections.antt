-- ===== src/Auth/Jwt/Rejections.antt =====
-- Which errors a token gives.
use steamroids.Prelude.{◌≡◌, refl, inl, inr, ◌||◌, Bool-cases, List, [], ◌∷◌, Option, some, none}
use steamroids.Prelude.Text.{codes}
use steamroids.Prelude.Split.{split_on}
use steamroids.Prelude.Parse.{parse_u64}
use steamroids.Error.{Text, Result, ok, err, auth_rejected, msg, ◌>>=◌}
use steamroids.Wire.{Bytes}
use steamroids.Codec.{decode_or}
use steamroids.Auth.Jwt.{
  JwtDecoders, payload_of, decode_payload, refresh_token_claims, as_str, is_empty,
}

-- The errors of a token are all of one kind.
abbrev pub IsRejection : {A : Type 0} → Result A → Type 0
IsRejection (ok a) = Unit {0}
IsRejection (err e) = (why : Text) × (e ≡ auth_rejected why)

decode_or-IsRejection :
    {A B : Type 0} (why : Text) (o : Option A) (f : A → Result B)
    → ((a : A) → IsRejection (f a))
    → IsRejection (decode_or (auth_rejected why) o >>= f)
decode_or-IsRejection why none f h = (why, refl)
decode_or-IsRejection why (some a) f h = h a

payload_of-IsRejection : (segments : List Bytes) → IsRejection (payload_of segments)
unfolding payload_of
payload_of-IsRejection [] = (msg "jwt: expected 3 segments", refl)
payload_of-IsRejection (a ∷ []) = (msg "jwt: expected 3 segments", refl)
payload_of-IsRejection (a ∷ b ∷ []) = (msg "jwt: expected 3 segments", refl)
payload_of-IsRejection (a ∷ b ∷ c ∷ d ∷ rest) = (msg "jwt: expected 3 segments", refl)
payload_of-IsRejection (a ∷ b ∷ c ∷ []) =
    elim (Bool-cases (is_empty a || (is_empty b || is_empty c))) [
      | inl some_empty ↦ rw some_empty (msg "jwt: empty segment", refl)
      | inr all_full ↦ rw all_full tt
    ]

bind-IsRejection :
    {A B : Type 0} (r : Result A) (f : A → Result B)
    → IsRejection r
    → ((a : A) → IsRejection (f a))
    → IsRejection (r >>= f)
bind-IsRejection (ok a) f h k = k a
bind-IsRejection (err e) f h k = h

pub claims-IsRejection : (d : JwtDecoders) (jwt : Bytes) → IsRejection (refresh_token_claims d jwt)
unfolding refresh_token_claims decode_payload
claims-IsRejection d jwt =
    bind-IsRejection (decode_payload d jwt) _
      (bind-IsRejection (payload_of (split_on b'.' jwt)) _
        (payload_of-IsRejection (split_on b'.' jwt))
        (λ payload.
          decode_or-IsRejection (msg "jwt b64: {e}") (d.base64_url payload) _
            (λ bytes. last (d.from_slice bytes))))
      (λ get.
        decode_or-IsRejection (msg "jwt: no sub claim") (as_str (get (codes "sub"))) _
          (λ sub. decode_or-IsRejection (msg "jwt sub: {e}") (parse_u64 sub) _ (λ id. tt)))
  where
    last :
        {A : Type 0} (o : Option A)
        → IsRejection (decode_or (auth_rejected (msg "jwt json: {e}")) o)
    last none = (msg "jwt json: {e}", refl)
    last (some a) = tt
