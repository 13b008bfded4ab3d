-- ===== src/Auth/SignIn/Flow/Usable.antt =====
-- Which stored tokens can be used, and what the flow of a stored token makes of them.
use steamroids.Prelude.{
  ℕ, ◌+◌, ◌<◌, arith, true, ◌≡◌, subst, refl, inl, inr, ◌⊎◌, Bool-cases, false, List, Option, some,
  none, Option-cases, sym, ◌∙◌, ap,
}
use steamroids.Error.{Result, ok, err, Result-cases}
use mathlib.Core.Option.{get_or}
use steamroids.Wire.{Bytes}
use steamroids.Auth.Jwt.{RefreshTokenClaims, refresh_token_claims}
use steamroids.Auth.Jwt.Rejections.{IsRejection, claims-IsRejection}
use steamroids.Auth.WebApi.{success, token_rejected, Act}
use steamroids.Auth.SignIn.{AuthServices, SignIn}
use steamroids.Auth.SignIn.Flow.{
  execute, execute_refresh_token_flow, is_expired, now_unix, stored_attempt, stale,
}

module _ (s : AuthServices) where
  -- A token that expires more than 60 seconds after the time of the clock, 0 where that cannot be
  -- read, or that does not expire.
  abbrev pub StaysValid : Option ℕ → Type 0
  StaysValid none = Unit {0}
  StaysValid (some exp) = get_or s.wall_clock 0 + 60 < exp

  -- A token that decodes and stays valid.
  abbrev pub IsUsable : Bytes → RefreshTokenClaims → Type 0
  IsUsable token claims = (refresh_token_claims s.jwt token ≡ ok claims) × StaysValid claims.exp

  is_expired-StaysValid : (exp : Option ℕ) → StaysValid exp → is_expired (now_unix s) exp ≡ false
  unfolding now_unix
  is_expired-StaysValid none h = refl
  is_expired-StaysValid (some exp) h = ground (arith, h)

  expired-StaysValid : (exp : Option ℕ) → is_expired (now_unix s) exp ≡ true → StaysValid exp → ⊥
  expired-StaysValid exp h valid = cc (sym h ∙ is_expired-StaysValid exp valid)

  StaysValid-is_expired : (exp : Option ℕ) → is_expired (now_unix s) exp ≡ false → StaysValid exp
  unfolding now_unix
  StaysValid-is_expired none h = tt
  StaysValid-is_expired (some exp) h = ground (arith, h)

  pub stored_attempt-execute :
      (sign_in : SignIn) (token : Bytes) (acts : List Act)
      → execute s (stored_attempt sign_in token) acts
        ≡ some (execute_refresh_token_flow s (record { expose = token }), acts)
  unfolding execute stored_attempt
  stored_attempt-execute sign_in token acts = elim (Option-cases sign_in.proxy) [
    | inl direct ↦ rw (direct, stored_attempt) refl
    | inr (p, proxied) ↦ rw (proxied, stored_attempt) refl
  ]

  pub usable-flow :
      (token : Bytes) (claims : RefreshTokenClaims)
      → IsUsable token claims
      → execute_refresh_token_flow s (record { expose = token })
        ≡ ok (success claims.steam_id (record { expose = token }) none)
  unfolding execute_refresh_token_flow
  usable-flow token claims (reads, valid) =
      rw (reads, is_expired-StaysValid claims.exp valid, execute_refresh_token_flow) refl

  pub unusable-flow :
      (token : Bytes)
      → ((claims : RefreshTokenClaims) → IsUsable token claims → ⊥)
      → stale (execute_refresh_token_flow s (record { expose = token })) ≡ ok token_rejected
  unfolding execute_refresh_token_flow stale
  unusable-flow token bad = elim (Result-cases (refresh_token_claims s.jwt token)) [
    | inl (claims, reads) ↦ elim (Bool-cases (is_expired (now_unix s) claims.exp)) [
      | inl expired ↦ rw (reads, expired, execute_refresh_token_flow) refl
      | inr fresh ↦ absurd (bad claims (reads, StaysValid-is_expired claims.exp fresh))
    ]
    | inr (e, fails) ↦
        let rejection : IsRejection {A = RefreshTokenClaims} (err e) =
          subst (λ (r : Result RefreshTokenClaims). IsRejection r) fails
            (claims-IsRejection s.jwt token) in
        let (why, is_rejected) = rejection in
        rw (fails, is_rejected, execute_refresh_token_flow, stale) refl
  ]

  -- Whether what the store holds is a usable token.
  pub IsUsable-cases :
      (held : Option Bytes)
      → ((token : Bytes) × (claims : RefreshTokenClaims) × (held ≡ some token)
          × IsUsable token claims)
        ⊎ ((token : Bytes) (claims : RefreshTokenClaims)
            → held ≡ some token
            → IsUsable token claims
            → ⊥)
  IsUsable-cases none = inr (λ token claims e u. cc e)
  IsUsable-cases (some held) = elim (Result-cases (refresh_token_claims s.jwt held)) [
    | inr (e, fails) ↦ inr (λ token claims same usable.
        let here : held ≡ token = cc in
        cc (sym fails ∙ ap (refresh_token_claims s.jwt) here ∙ usable.0))
    | inl (claims, reads) ↦ elim (Bool-cases (is_expired (now_unix s) claims.exp)) [
      | inr fresh ↦ inl (held, claims, refl, (reads, StaysValid-is_expired claims.exp fresh))
      | inl expired ↦ inr (λ token claims' same usable.
          let here : held ≡ token = cc in
          let same_claims : claims ≡ claims' =
            cc (sym reads ∙ ap (refresh_token_claims s.jwt) here ∙ usable.0) in
          absurd (
            expired-StaysValid claims.exp expired
              (subst (λ (c : RefreshTokenClaims). StaysValid c.exp) (sym same_claims) usable.1)))
    ]
  ]
