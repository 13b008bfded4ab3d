-- ===== src/Auth/SignIn/Flow/Total.antt =====
-- The flows end.
use steamroids.Prelude.{
  ℕ, ◌≡◌, refl, ap, subst, ◌≤◌, List, ◌∷◌, Option, some, none, Option-cases, Bool-cases, inl, inr,
}
use steamroids.Error.{Result, ok, err, ◌>>=◌}
use steamroids.Prelude.Int.{ℤ}
use steamroids.Wire.{Bytes}
use steamroids.Auth.{PasswordCredentials, Credentials, password, refresh_token}
use steamroids.Auth.Password.{encrypt_password}
use steamroids.Auth.WebApi.{
  SignInOutcome, success, Act, loaded, saved, token_rejected, call, post, refusal,
}
use steamroids.Auth.SignIn.{
  AuthServices, SignIn, EarlyExit, continue_with, outcome, BeginSession, BeginReply,
}
use steamroids.Auth.SignIn.Begin.{
  fetch_rsa_key, begin_session, resolve_guard, unless_refused, session_of, field,
  compute_poll_interval, begin_msg,
}
use steamroids.Auth.SignIn.Poll.Ends.{Sleeps, poll_for_token-ends, compute_poll_interval-bounds}
use steamroids.Auth.SignIn.Flow.{
  End, then_do, or_fail, execute_password_flow, execute_refresh_token_flow, execute, store_error,
  execute_with_store, with_stored, stale, stored_attempt, after_stored, after_fresh, save_token,
}

abbrev pub Ends : End → Type 0
Ends e = (end : Result SignInOutcome × List Act) × (e ≡ some end)

or_fail-Ends :
    {A : Type 0} (r : Result A) (acts : List Act) (next : A → End)
    → ((a : A) → Ends (next a))
    → Ends (or_fail r acts next)
unfolding or_fail
or_fail-Ends (ok a) acts next h = h a
or_fail-Ends (err e) acts next h = ((err e, acts), refl)

then_do-Ends :
    {A : Type 0} (step : Result (EarlyExit A) × List Act) (next : A → List Act → End)
    → ((a : A) → step.0 ≡ ok (continue_with a) → (acts : List Act) → Ends (next a acts))
    → Ends (then_do step next)
unfolding then_do
then_do-Ends (err e, acts) next h = ((err e, acts), refl)
then_do-Ends (ok (outcome o), acts) next h = ((ok o, acts), refl)
then_do-Ends (ok (continue_with a), acts) next h = h a refl acts

session_of-interval :
    (resp : BeginReply) (begin : BeginSession)
    → session_of resp ≡ ok begin
    → 1 ≤ begin.poll_interval
unfolding session_of field
session_of-interval resp begin h = elim (Option-cases resp.client_id) [
  | inl none1 ↦ absurd (cc (rw none1 at h))
  | inr (client_id, e1) ↦ elim (Option-cases resp.request_id) [
    | inl none2 ↦ absurd (cc (rw (e1, none2) at h))
    | inr (request_id, e2) ↦ elim (Option-cases resp.steamid) [
      | inl none3 ↦ absurd (cc (rw (e1, e2, none3) at h))
      | inr (steamid, e3) ↦
          let interval : compute_poll_interval resp.interval ≡ begin.poll_interval =
            ap interval_of (rw (e1, e2, e3) at h) in
          subst (λ (n : ℕ). 1 ≤ n) interval (compute_poll_interval-bounds resp.interval).0
    ]
  ]
]
  where
    interval_of : Result BeginSession → ℕ
    interval_of (ok b) = b.poll_interval
    interval_of (err e) = 0

unless_refused-continue :
    {A : Type 0} (o : Option (Result SignInOutcome)) (r : Result A) (a : A)
    → unless_refused o r ≡ ok (continue_with a)
    → r ≡ ok a
unfolding unless_refused
unless_refused-continue (some (ok x)) r a h = absurd (cc h)
unless_refused-continue (some (err e)) r a h = absurd (cc h)
unless_refused-continue none (ok x) a h = cc
unless_refused-continue none (err e) a h = absurd (cc h)

-- A session that begins has a poll interval of at least one second.
begin_session-interval :
    (s : AuthServices) (account encrypted : Bytes) (timestamp : ℕ) (acts : List Act)
    (begin : BeginSession)
    → (begin_session s account encrypted timestamp acts).0 ≡ ok (continue_with begin)
    → 1 ≤ begin.poll_interval
unfolding begin_session unless_refused
begin_session-interval s account encrypted timestamp acts begin h =
    answered
      (call s.web s.protos.begin s.protos.begin_reply "BeginAuthSessionViaCredentials" post
        (begin_msg account encrypted timestamp) acts).0
      h
  where
    answered :
        (r : Result (ℤ × BeginReply))
        → (r >>= λ (er, resp).
            unless_refused (refusal "BeginAuthSessionViaCredentials" er) (session_of resp))
          ≡ ok (continue_with begin)
        → 1 ≤ begin.poll_interval
    answered (err e) h' = absurd (cc h')
    answered (ok (er, resp)) h' = session_of-interval resp begin (
        unless_refused-continue (refusal "BeginAuthSessionViaCredentials" er) (session_of resp)
          begin h')

module _ (s : AuthServices) (sleeps : Sleeps s) where
  password_flow-Ends :
      (sign_in : SignIn) (creds : PasswordCredentials) (acts : List Act)
      → Ends (execute_password_flow s sign_in creds acts)
  unfolding execute_password_flow
  password_flow-Ends sign_in creds acts =
      or_fail-Ends (s.http_client sign_in.proxy) acts _ (λ client.
        then_do-Ends (fetch_rsa_key s creds.account_name acts) _ (λ key e acts1.
          or_fail-Ends (encrypt_password s.rsa creds.password key.mod_hex key.exp_hex) acts1 _
            (λ encrypted.
              then_do-Ends (begin_session s creds.account_name encrypted key.timestamp acts1) _
                (λ begin begins acts2.
                  then_do-Ends (resolve_guard s begin creds.shared_secret acts2) _
                    (λ guarded e' acts3.
                      poll_for_token-ends s begin acts3
                        (begin_session-interval s creds.account_name encrypted key.timestamp acts1
                          begin begins)
                        sleeps)))))

  execute-Ends : (sign_in : SignIn) (acts : List Act) → Ends (execute s sign_in acts)
  unfolding execute
  execute-Ends sign_in acts = by_kind sign_in.credentials
    where
      by_kind :
          (c : Credentials)
          → Ends (elim c [
            | password creds ↦ execute_password_flow s sign_in creds acts
            | refresh_token token ↦ some (execute_refresh_token_flow s token, acts)
          ])
      by_kind (password creds) = password_flow-Ends sign_in creds acts
      by_kind (refresh_token token) = ((execute_refresh_token_flow s token, acts), refl)

  save_token-Ends :
      (account token : Bytes) (o : SignInOutcome) (acts : List Act)
      → Ends (save_token s account token o acts)
  unfolding save_token
  save_token-Ends account token o acts = elim (Bool-cases (s.save (saved account token ∷ acts))) [
    | inl works ↦ ((ok o, saved account token ∷ acts), rw (works, save_token) refl)
    | inr fails ↦ ((err store_error, saved account token ∷ acts), rw (fails, save_token) refl)
  ]

  after_fresh-Ends : (account : Bytes) (e : End) → Ends e → Ends (after_fresh s account e)
  unfolding after_fresh
  after_fresh-Ends account e ((r, acts), h) = rw h (fresh r)
    where
      fresh : (r : Result SignInOutcome) → Ends (after_fresh s account (some (r, acts)))
      fresh (ok (success id token access)) =
          save_token-Ends account token.expose (success id token access) acts
      fresh x = ((x, acts), refl)

  after_stored-Ends :
      (account : Bytes) (fresh : List Act → End) (r : Result SignInOutcome) (acts : List Act)
      → ((acts' : List Act) → Ends (fresh acts'))
      → Ends (after_stored s account fresh r acts)
  unfolding after_stored
  after_stored-Ends account fresh (ok (success id token access)) acts h =
      save_token-Ends account token.expose (success id token access) acts
  after_stored-Ends account fresh (ok token_rejected) acts h = h acts
  after_stored-Ends account fresh r acts h = ((r, acts), refl)

  -- When no sleep ends before its time, a sign-in with a token store ends, whatever Steam, the store
  -- and the network answer: the polling does not go on for ever.
  pub execute_with_store-Ends :
      (sign_in : SignIn) (acts : List Act) → Ends (execute_with_store s sign_in acts)
  unfolding execute_with_store with_stored
  execute_with_store-Ends sign_in acts = by_kind sign_in.credentials
    where
      stored :
          (account : Bytes) (held : Option (Option Bytes)) (now : List Act)
          → Ends (with_stored s sign_in account held now)
      stored account none now = ((err store_error, now), refl)
      stored account (some none) now =
          after_fresh-Ends account (execute s sign_in now) (execute-Ends sign_in now)
      stored account (some (some token)) now =
          let ((r, acts'), e) = execute-Ends (stored_attempt sign_in token) now in
          rw (e, with_stored)
            (after_stored-Ends account (λ acts''. after_fresh s account (execute s sign_in acts''))
              (stale r) acts'
              (λ acts''.
                after_fresh-Ends account (execute s sign_in acts'') (execute-Ends sign_in acts'')))

      by_kind :
          (c : Credentials)
          → Ends (elim c [
            | refresh_token token ↦ execute s sign_in acts
            | password creds ↦
                let now = loaded creds.account_name ∷ acts in
                with_stored s sign_in creds.account_name (s.load now) now
          ])
      by_kind (refresh_token token) = execute-Ends sign_in acts
      by_kind (password creds) =
          let now = loaded creds.account_name ∷ acts in stored creds.account_name (s.load now) now
