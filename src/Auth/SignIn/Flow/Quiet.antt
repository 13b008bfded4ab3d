-- ===== src/Auth/SignIn/Flow/Quiet.antt =====
-- The flows behind `execute` leave the token store alone.
use steamroids.Prelude.{
  ℕ, zero, suc, String, ◌≡◌, ◌∙◌, refl, inl, inr, Bool-cases, List, [], ◌∷◌, Option, some, none,
}
use steamroids.Prelude.Int.{pos}
use steamroids.Error.{Result, ok, err, Result-cases}
use steamroids.Wire.{Bytes, Proto}
use steamroids.Auth.{PasswordCredentials, Credentials, password, refresh_token}
use steamroids.Auth.Password.{encrypt_password}
use steamroids.Auth.Totp.{generate_auth_code}
use steamroids.Auth.WebApi.{
  WebApi, HttpMethod, get, post, Act, called, loaded, saved, call, url_for,
}
use steamroids.Auth.SignIn.{AuthServices, SignIn, EarlyExit, continue_with, outcome, BeginSession}
use steamroids.Auth.SignIn.Begin.{
  fetch_rsa_key, begin_session, resolve_guard, has_guard, guard_type_device_code, device_guard,
  send_code, begin_msg,
}
use steamroids.Auth.SignIn.Poll.{
  poll_once, past_deadline, poll_loop, poll_for_token, max_polls, Polled-cases,
}
use steamroids.Auth.SignIn.Flow.{
  End, then_do, or_fail, execute_password_flow, execute_refresh_token_flow, execute,
}

-- What was saved, the newest first: the account and the token.
unfoldable pub saves : List Act → List (Bytes × Bytes)
saves [] = []
saves (saved account token ∷ acts) = (account, token) ∷ saves acts
saves (loaded account ∷ acts) = saves acts
saves (called url verb body ∷ acts) = saves acts

-- A step, and a flow, that saves nothing.
abbrev pub IsQuiet : {A : Type 0} → A × List Act → List Act → Type 0
IsQuiet step acts = saves step.1 ≡ saves acts

abbrev pub IsQuietEnd : End → List Act → Type 0
IsQuietEnd none acts = Unit {0}
IsQuietEnd (some end) acts = IsQuiet end acts

call-IsQuiet :
    {Q R : Type 0} (web : WebApi) (q : Proto Q) (p : Proto R) (method : String) (verb : HttpMethod)
    (req : Q) (acts : List Act)
    → IsQuiet (call web q p method verb req acts) acts
unfolding call saves
call-IsQuiet web q p method verb req acts = elim (Result-cases (url_for web method)) [
  | inl (url, good) ↦ rw (good, call) refl
  | inr (e, bad) ↦ rw (bad, call) refl
]

module _ (s : AuthServices) where
  fetch_rsa_key-IsQuiet :
      (account : Bytes) (acts : List Act) → IsQuiet (fetch_rsa_key s account acts) acts
  unfolding fetch_rsa_key
  fetch_rsa_key-IsQuiet account acts =
      call-IsQuiet s.web s.protos.rsa_key s.protos.rsa_key_reply "GetPasswordRSAPublicKey" get
        (record { account_name = some account }) acts

  begin_session-IsQuiet :
      (account encrypted : Bytes) (timestamp : ℕ) (acts : List Act)
      → IsQuiet (begin_session s account encrypted timestamp acts) acts
  unfolding begin_session
  begin_session-IsQuiet account encrypted timestamp acts =
      call-IsQuiet s.web s.protos.begin s.protos.begin_reply "BeginAuthSessionViaCredentials" post
        (begin_msg account encrypted timestamp) acts

  device_guard-IsQuiet :
      (begin : BeginSession) (secret : Option Bytes) (acts : List Act)
      → IsQuiet (device_guard s begin secret acts) acts
  unfolding device_guard send_code
  device_guard-IsQuiet begin none acts = refl
  device_guard-IsQuiet begin (some secret) acts =
      elim (Result-cases (generate_auth_code s.hmac s.standard_decode s.wall_clock secret none)) [
        | inl (code, good) ↦
            rw (good, device_guard, send_code)
              (call-IsQuiet s.web s.protos.guard_code s.protos.guard_code_reply
                "UpdateAuthSessionWithSteamGuardCode" post
                (record {
                  client_id = some begin.client_id;
                  steamid = some begin.session_steamid;
                  code = some code;
                  code_type = some (pos guard_type_device_code);
                })
                acts)
        | inr (e, bad) ↦ rw (bad, device_guard) refl
      ]

  resolve_guard-IsQuiet :
      (begin : BeginSession) (secret : Option Bytes) (acts : List Act)
      → IsQuiet (resolve_guard s begin secret acts) acts
  unfolding resolve_guard
  resolve_guard-IsQuiet begin secret acts =
      elim (Bool-cases (has_guard guard_type_device_code begin.guards)) [
        | inl device ↦ rw (device, resolve_guard) (device_guard-IsQuiet begin secret acts)
        | inr other ↦ rw (other, resolve_guard) refl
      ]

  poll_once-IsQuiet :
      (begin : BeginSession) (client_id : ℕ) (acts : List Act)
      → IsQuiet (poll_once s begin client_id acts) acts
  unfolding poll_once
  poll_once-IsQuiet begin client_id acts =
      call-IsQuiet s.web s.protos.poll s.protos.poll_reply "PollAuthSessionStatus" post
        (record { client_id = some client_id; request_id = some begin.request_id }) acts

  pub quiet_from :
      (e : End) (now acts : List Act)
      → saves now ≡ saves acts
      → IsQuietEnd e now
      → IsQuietEnd e acts
  quiet_from none now acts same h = tt
  quiet_from (some end) now acts same h = h ∙ same

  poll_loop-IsQuietEnd :
      (f : ℕ) (begin : BeginSession) (polls client_id : ℕ) (acts : List Act)
      → IsQuietEnd (poll_loop f s begin polls client_id acts) acts
  unfolding poll_loop
  poll_loop-IsQuietEnd zero begin polls client_id acts = tt
  poll_loop-IsQuietEnd (suc f) begin polls client_id acts =
      let quiet = poll_once-IsQuiet begin client_id acts in
      let now = (poll_once s begin client_id acts).1 in
      elim (Polled-cases (poll_once s begin client_id acts).0) [
        | inl (r, done) ↦ rw (done, poll_loop) quiet
        | inr (next, more) ↦ elim (Bool-cases (past_deadline s begin (suc polls))) [
          | inl late ↦ rw (more, late, poll_loop) quiet
          | inr early ↦
              rw (more, early, poll_loop)
                (quiet_from (poll_loop f s begin (suc polls) next now) now acts quiet
                  (poll_loop-IsQuietEnd f begin (suc polls) next now))
        ]
      ]

  or_fail-IsQuietEnd :
      {A : Type 0} (r : Result A) (acts : List Act) (next : A → End)
      → ((a : A) → IsQuietEnd (next a) acts)
      → IsQuietEnd (or_fail r acts next) acts
  unfolding or_fail
  or_fail-IsQuietEnd (ok a) acts next h = h a
  or_fail-IsQuietEnd (err e) acts next h = refl

  then_do-IsQuietEnd :
      {A : Type 0} (step : Result (EarlyExit A) × List Act) (next : A → List Act → End)
      (acts : List Act)
      → IsQuiet step acts
      → ((a : A) (now : List Act) → IsQuietEnd (next a now) now)
      → IsQuietEnd (then_do step next) acts
  unfolding then_do
  then_do-IsQuietEnd (err e, now) next acts quiet h = quiet
  then_do-IsQuietEnd (ok (outcome o), now) next acts quiet h = quiet
  then_do-IsQuietEnd (ok (continue_with a), now) next acts quiet h =
      quiet_from (next a now) now acts quiet (h a now)

  password_flow-IsQuietEnd :
      (sign_in : SignIn) (creds : PasswordCredentials) (acts : List Act)
      → IsQuietEnd (execute_password_flow s sign_in creds acts) acts
  unfolding execute_password_flow poll_for_token
  password_flow-IsQuietEnd sign_in creds acts =
      or_fail-IsQuietEnd (s.http_client sign_in.proxy) acts _ (λ client.
        then_do-IsQuietEnd (fetch_rsa_key s creds.account_name acts) _ acts
          (fetch_rsa_key-IsQuiet creds.account_name acts)
          (λ key acts1.
            or_fail-IsQuietEnd (encrypt_password s.rsa creds.password key.mod_hex key.exp_hex) acts1
              _
              (λ encrypted.
                then_do-IsQuietEnd
                  (begin_session s creds.account_name encrypted key.timestamp acts1) _ acts1
                  (begin_session-IsQuiet creds.account_name encrypted key.timestamp acts1)
                  (λ begin acts2.
                    then_do-IsQuietEnd (resolve_guard s begin creds.shared_secret acts2) _ acts2
                      (resolve_guard-IsQuiet begin creds.shared_secret acts2)
                      (λ guarded acts3.
                        poll_loop-IsQuietEnd max_polls begin 0 begin.client_id acts3)))))

  pub execute-IsQuietEnd :
      (sign_in : SignIn) (acts : List Act) → IsQuietEnd (execute s sign_in acts) acts
  unfolding execute
  execute-IsQuietEnd sign_in acts = by_kind sign_in.credentials
    where
      by_kind :
          (c : Credentials)
          → IsQuietEnd
              (elim c [
                | password creds ↦ execute_password_flow s sign_in creds acts
                | refresh_token token ↦ some (execute_refresh_token_flow s token, acts)
              ])
              acts
      by_kind (password creds) = password_flow-IsQuietEnd sign_in creds acts
      by_kind (refresh_token token) = refl
