-- ===== src/Auth/Jwt/Shape.antt =====
-- Which tokens the code accepts.
use steamroids.Prelude.{
  ◌≡◌, ◌∙◌, sym, ◌↔◌, refl, ap, subst, inl, inr, false, List, [], ◌∷◌, ◌++◌, Option, some, none,
  All, Bool-cases, Option-cases,
}
use steamroids.Prelude.Text.{codes}
use steamroids.Prelude.Parse.{parse_u64}
use steamroids.Prelude.Split.{
  split_on, join_with, IsFree, join_with-split_on, split_on-IsFree, split_on-join_with,
}
use steamroids.Error.{Result, ok, Result-cases, auth_rejected, msg, ◌>>=◌}
use steamroids.Wire.{Bytes}
use steamroids.Codec.{decode_or}
use steamroids.Auth.Jwt.{
  Json, text, number, other, JwtDecoders, RefreshTokenClaims, is_empty, as_str, as_u64, payload_of,
  decode_payload, refresh_token_claims,
}

-- Three segments that are not empty, with a dot after the first and after the second, and no other.
abbrev pub IsJwt : Bytes → Bytes → Type 0
IsJwt jwt payload =
    (header signature : Bytes) × (jwt ≡ header ++ (b'.' ∷ payload ++ (b'.' ∷ signature)))
    × All (IsFree b'.') (header ∷ payload ∷ signature ∷ [])
    × All (λ (segment : Bytes). is_empty segment ≡ false) (header ∷ payload ∷ signature ∷ [])

payload_of-ok :
    (segments : List Bytes) (payload : Bytes)
    → (payload_of segments ≡ ok payload) ↔ (
        (header signature : Bytes) × (segments ≡ header ∷ payload ∷ signature ∷ [])
        × All (λ (segment : Bytes). is_empty segment ≡ false) (header ∷ payload ∷ signature ∷ []))
unfolding payload_of
payload_of-ok [] payload = ((λ h. absurd (cc h)), (λ t. absurd (cc t.2)))
payload_of-ok (a ∷ []) payload = ((λ h. absurd (cc h)), (λ t. absurd (cc t.2)))
payload_of-ok (a ∷ b ∷ []) payload = ((λ h. absurd (cc h)), (λ t. absurd (cc t.2)))
payload_of-ok (a ∷ b ∷ c ∷ d ∷ rest) payload = ((λ h. absurd (cc h)), (λ t. absurd (cc t.2)))
payload_of-ok (a ∷ b ∷ c ∷ []) payload = (
  (λ h. elim (Bool-cases (is_empty a)) [
    | inl bad ↦ absurd (cc (rw bad at h))
    | inr full_a ↦ elim (Bool-cases (is_empty b)) [
      | inl bad ↦ absurd (cc (rw (full_a, bad) at h))
      | inr full_b ↦ elim (Bool-cases (is_empty c)) [
        | inl bad ↦ absurd (cc (rw (full_a, full_b, bad) at h))
        | inr full_c ↦
            let here : b ≡ payload = cc (rw (full_a, full_b, full_c) at h) in
            (a, c, rw here refl, (full_a, (ap is_empty (sym here) ∙ full_b, (full_c, tt))))
      ]
    ]
  ]),
  (λ t.
      let (header, signature, shape, (full_a, (full_b, (full_c, u)))) = t in
      let here : b ≡ payload = cc in
      let first : is_empty a ≡ false = (let e : a ≡ header = cc in ap is_empty e ∙ full_a) in
      let second : is_empty b ≡ false = ap is_empty here ∙ full_b in
      let third : is_empty c ≡ false = (let e : c ≡ signature = cc in ap is_empty e ∙ full_c) in
      rw (first, second, third) (ap ok here)),
)

payload_of-IsJwt :
    (jwt payload : Bytes) → (payload_of (split_on b'.' jwt) ≡ ok payload) ↔ IsJwt jwt payload
unfolding join_with
payload_of-IsJwt jwt payload = (
  (λ h.
      let (header, signature, shape, full) = (payload_of-ok (split_on b'.' jwt) payload).0 h in
      (
        header,
        signature,
        sym (join_with-split_on b'.' jwt) ∙ ap (join_with b'.') shape,
        subst (All (IsFree b'.')) shape (split_on-IsFree b'.' jwt),
        full,
      )),
  (λ t.
      let (header, signature, shape, free, full) = t in
      (payload_of-ok (split_on b'.' jwt) payload).1 (
        header,
        signature,
        ap (split_on b'.') shape ∙ split_on-join_with b'.' header (payload ∷ signature ∷ []) free,
        full,
      )),
)

as_str-text : (o : Option Json) (s : Bytes) → (as_str o ≡ some s) ↔ (o ≡ some (text s))
unfolding as_str
as_str-text none s = ((λ h. absurd (cc h)), (λ h. absurd (cc h)))
as_str-text (some (text x)) s = ((λ h. cc), (λ h. cc))
as_str-text (some (number n)) s = ((λ h. absurd (cc h)), (λ h. absurd (cc h)))
as_str-text (some other) s = ((λ h. absurd (cc h)), (λ h. absurd (cc h)))

module _ (d : JwtDecoders) (jwt : Bytes) (claims : RefreshTokenClaims) where
  -- The code behind the check of the segments.
  read_claims : Bytes → Result RefreshTokenClaims
  read_claims payload = do
    get ← do
      bytes ← decode_or (auth_rejected (msg "jwt b64: {e}")) (d.base64_url payload)
      decode_or (auth_rejected (msg "jwt json: {e}")) (d.from_slice bytes)
    sub ← decode_or (auth_rejected (msg "jwt: no sub claim")) (as_str (get (codes "sub")))
    steam_id ← decode_or (auth_rejected (msg "jwt sub: {e}")) (parse_u64 sub)
    ok (record { steam_id = steam_id; exp = as_u64 (get (codes "exp")) })

  -- What the payload says, as its decoders read it.
  abbrev pub Says : Bytes → Type 0
  Says payload =
      (bytes : Bytes) × (get : Bytes → Option Json) × (sub : Bytes) × (d.base64_url payload
        ≡ some bytes)
      × (d.from_slice bytes ≡ some get)
      × (get (codes "sub") ≡ some (text sub))
      × (parse_u64 sub ≡ some claims.steam_id)
      × (as_u64 (get (codes "exp")) ≡ claims.exp)

  claims-Says : (payload : Bytes) → read_claims payload ≡ ok claims → Says payload
  unfolding read_claims
  claims-Says payload h = elim (Option-cases (d.base64_url payload)) [
    | inl bad ↦ absurd (cc (rw bad at h))
    | inr (bytes, reads) ↦ elim (Option-cases (d.from_slice bytes)) [
      | inl bad ↦ absurd (cc (rw (reads, bad) at h))
      | inr (get, parses) ↦ elim (Option-cases (as_str (get (codes "sub")))) [
        | inl bad ↦ absurd (cc (rw (reads, parses, bad) at h))
        | inr (sub, is_text) ↦ elim (Option-cases (parse_u64 sub)) [
          | inl bad ↦ absurd (cc (rw (reads, parses, is_text, bad) at h))
          | inr (id, numeric) ↦
              let same : record { steam_id = id; exp = as_u64 (get (codes "exp")) } ≡ claims =
                cc (rw (reads, parses, is_text, numeric) at h) in
              (
                bytes,
                get,
                sub,
                reads,
                parses,
                (as_str-text (get (codes "sub")) sub).0 is_text,
                numeric ∙ ap (λ (c : RefreshTokenClaims). some c.steam_id) same,
                ap (λ (c : RefreshTokenClaims). c.exp) same,
              )
        ]
      ]
    ]
  ]

  -- The claims that the code reads from a token are those of its payload, and it accepts exactly the
  -- tokens that are three non-empty segments between two dots, of which the middle one decodes as
  -- Base64 and then as JSON with a text `sub` that is a 64-bit number. An `exp` that is absent or no
  -- 64-bit number is taken as absent.
  pub refresh_token_claims-IsJwt :
      (refresh_token_claims d jwt ≡ ok claims)
      ↔ ((payload : Bytes) × IsJwt jwt payload × Says payload)
  unfolding refresh_token_claims decode_payload read_claims
  refresh_token_claims-IsJwt = (
    (λ h. elim (Result-cases (payload_of (split_on b'.' jwt))) [
      | inr (e, bad) ↦ absurd (cc (rw (bad, refresh_token_claims, decode_payload) at h))
      | inl (payload, shape) ↦ (
        payload,
        (payload_of-IsJwt jwt payload).0 shape,
        claims-Says payload (rw (shape, refresh_token_claims, decode_payload) at h),
      )
    ]),
    (λ t.
        let (payload, shape, (bytes, get, sub, reads, parses, is_text, numeric, exp)) = t in
        rw ((payload_of-IsJwt jwt payload).1 shape, reads, parses, is_text, numeric, exp) refl),
  )
