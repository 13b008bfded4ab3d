-- ===== src/Auth/SignIn/Flow.antt =====
-- src/auth/signin.rs: the flows of a sign-in, `execute` and `execute_with_store`.
pub mod Total
pub mod Quiet
pub mod Saves
pub mod Usable
pub mod Reuse
use steamroids.Prelude.{
  ℕ, ◌-◌, Bool, true, false, List, [], ◌∷◌, Option, some, none, leb, if◌then◌else◌,
}
use mathlib.Core.Option.{get_or}
use steamroids.Error.{Error, Text, auth_rejected, Result, ok, err, token_store, msg}
use steamroids.Wire.{Bytes}
use steamroids.Auth.{PasswordCredentials, RefreshToken, password, refresh_token}
use steamroids.Auth.Jwt.{RefreshTokenClaims, refresh_token_claims}
use steamroids.Auth.Password.{encrypt_password}
use steamroids.Auth.WebApi.{SignInOutcome, success, token_rejected, Act, loaded, saved}
use steamroids.Auth.SignIn.{
  AuthServices, SignIn, with_refresh_token, with_proxy, EarlyExit, continue_with, outcome,
  RsaKeyResponse, BeginSession,
}
use steamroids.Auth.SignIn.Begin.{fetch_rsa_key, begin_session, resolve_guard}
use steamroids.Auth.SignIn.Poll.{poll_for_token}

abbrev pub token_expiry_slack_secs : ℕ
token_expiry_slack_secs = 60

-- The end of a flow, with what was done (`none`: the fuel of the polling is used up).
abbrev pub End : Type 0
End = Option (Result SignInOutcome × List Act)

-- A step of the flow and what follows it.
unfoldable pub then_do : {A : Type 0} → Result (EarlyExit A) × List Act → (A → List Act → End) → End
then_do (err e, acts) next = some (err e, acts)
then_do (ok (outcome o), acts) next = some (ok o, acts)
then_do (ok (continue_with a), acts) next = next a acts

unfoldable pub or_fail : {A : Type 0} → Result A → List Act → (A → End) → End
or_fail (err e) acts next = some (err e, acts)
or_fail (ok a) acts next = next a

unfoldable pub execute_password_flow : AuthServices → SignIn → PasswordCredentials → List Act → End
unfolding then_do or_fail fetch_rsa_key encrypt_password begin_session resolve_guard poll_for_token
execute_password_flow s sign_in creds acts = or_fail (s.http_client sign_in.proxy) acts (λ client.
    then_do (fetch_rsa_key s creds.account_name acts) (λ key acts1.
      or_fail (encrypt_password s.rsa creds.password key.mod_hex key.exp_hex) acts1 (λ encrypted.
        then_do (begin_session s creds.account_name encrypted key.timestamp acts1) (λ begin acts2.
          then_do (resolve_guard s begin creds.shared_secret acts2)
            (λ guarded acts3. poll_for_token s begin acts3)))))

-- The Unix time, 0 before the epoch.
unfoldable pub now_unix : AuthServices → ℕ
now_unix s = get_or s.wall_clock 0

abbrev pub is_expired : ℕ → Option ℕ → Bool
is_expired now none = false
is_expired now (some exp) = leb (exp - token_expiry_slack_secs) now

unfoldable pub execute_refresh_token_flow : AuthServices → RefreshToken → Result SignInOutcome
unfolding refresh_token_claims now_unix
execute_refresh_token_flow s token = elim (refresh_token_claims s.jwt token.expose) [
  | err e ↦ err e
  | ok claims ↦
      if is_expired (now_unix s) claims.exp
      then ok token_rejected
      else ok (success claims.steam_id token none)
]

unfoldable pub execute : AuthServices → SignIn → List Act → End
unfolding execute_password_flow execute_refresh_token_flow
execute s sign_in acts = elim sign_in.credentials [
  | password creds ↦ execute_password_flow s sign_in creds acts
  | refresh_token token ↦ some (execute_refresh_token_flow s token, acts)
]

pub store_error : Error
store_error = token_store (msg "{e}")

-- `save`, and what is returned when it works.
unfoldable pub save_token : AuthServices → Bytes → Bytes → SignInOutcome → List Act → End
unfolding store_error
save_token s account token result acts =
    let now = saved account token ∷ acts in
    if s.save now then some (ok result, now) else some (err store_error, now)

-- A stored token that does not decode counts as one that is rejected.
unfoldable pub stale : Result SignInOutcome → Result SignInOutcome
stale (err (auth_rejected why)) = ok token_rejected
stale r = r

-- The outcome of a stored token: it is saved again and returned, or the password flow follows, or
-- it is returned as it is.
unfoldable pub after_stored :
    AuthServices → Bytes → (List Act → End) → Result SignInOutcome → List Act → End
unfolding save_token
after_stored s account fresh (ok (success id token access)) acts =
    save_token s account token.expose (success id token access) acts
after_stored s account fresh (ok token_rejected) acts = fresh acts
after_stored s account fresh r acts = some (r, acts)

-- The end of the password flow: a new token is saved.
unfoldable pub after_fresh : AuthServices → Bytes → End → End
unfolding save_token
after_fresh s account none = none
after_fresh s account (some (ok (success id token access), acts)) =
    save_token s account token.expose (success id token access) acts
after_fresh s account (some other) = some other

-- The builder for a stored token, with the proxy of the password builder.
unfoldable pub stored_attempt : SignIn → Bytes → SignIn
stored_attempt sign_in token = elim sign_in.proxy [
  | none ↦ with_refresh_token token
  | some p ↦ with_proxy (with_refresh_token token) p
]

unfoldable pub with_stored : AuthServices → SignIn → Bytes → Option (Option Bytes) → List Act → End
unfolding store_error after_fresh after_stored stale stored_attempt execute
with_stored s sign_in account none acts = some (err store_error, acts)
with_stored s sign_in account (some none) acts = after_fresh s account (execute s sign_in acts)
with_stored s sign_in account (some (some token)) acts =
    elim (execute s (stored_attempt sign_in token) acts) [
      | none ↦ none
      | some (r, acts') ↦
          after_stored s account (λ acts''. after_fresh s account (execute s sign_in acts''))
            (stale r) acts'
    ]

unfoldable pub execute_with_store : AuthServices → SignIn → List Act → End
unfolding with_stored execute
execute_with_store s sign_in acts = elim sign_in.credentials [
  | refresh_token token ↦ execute s sign_in acts
  | password creds ↦
      let now = loaded creds.account_name ∷ acts in
      with_stored s sign_in creds.account_name (s.load now) now
]
