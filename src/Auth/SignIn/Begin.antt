-- ===== src/Auth/SignIn/Begin.antt =====
-- src/auth/signin.rs: the steps of the password flow before the polling.
use steamroids.Prelude.{
  ℕ, String, Bool, true, false, ◌+◌, ◌*◌, ◌/◌, ◌^◌, List, [], ◌∷◌, map, Option, some, none, min,
  max, ◌&&◌, ◌||◌, not, ◌==◌, if◌then◌else◌,
}
use mathlib.Core.Option.{get_or}
use steamroids.Prelude.Int.{ℤ, pos, is_code}
use steamroids.Prelude.Text.{codes}
use steamroids.Error.{num, Result, ok, err, auth_rejected, msg, ◌>>=◌}
use steamroids.Wire.{Bytes}
use steamroids.Codec.{decode_or}
use steamroids.Auth.Jwt.{is_empty}
use steamroids.Auth.Totp.{generate_auth_code}
use steamroids.Auth.WebApi.{
  SignInOutcome, needs_mobile_guard_code, needs_email_guard_code, Act, get, post, call, refusal,
}
use steamroids.Auth.SignIn.{
  F32, nan, infinite, finite, RsaKeyReply, BeginMsg, Confirmation, BeginReply, AuthServices,
  EarlyExit, continue_with, outcome, RsaKeyResponse, BeginSession,
}

abbrev pub guard_type_none : ℕ
guard_type_none = 1

abbrev pub guard_type_email_code : ℕ
guard_type_email_code = 2

abbrev pub guard_type_device_code : ℕ
guard_type_device_code = 3

abbrev pub platform_steam_client : ℕ
platform_steam_client = 1

abbrev pub os_type_windows_10 : ℕ
os_type_windows_10 = 16

abbrev pub session_persistent : ℕ
session_persistent = 1

abbrev pub poll_default_interval_secs : ℕ
poll_default_interval_secs = 5

-- The outcome that a result code decides, or else what the response gives.
unfoldable pub unless_refused :
    {A : Type 0} → Option (Result SignInOutcome) → Result A → Result (EarlyExit A)
unless_refused (some (ok o)) r = ok (outcome o)
unless_refused (some (err e)) r = err e
unless_refused none (ok a) = ok (continue_with a)
unless_refused none (err e) = err e

unfoldable pub field : {A : Type 0} → String → Option A → Result A
field why o = decode_or (auth_rejected (msg why)) o

rsa_key_of : RsaKeyReply → Result RsaKeyResponse
unfolding field
rsa_key_of resp = do
  mod_hex ← field "rsa response: missing modulus" resp.publickey_mod
  exp_hex ← field "rsa response: missing exponent" resp.publickey_exp
  timestamp ← field "rsa response: missing timestamp" resp.timestamp
  ok (record { mod_hex = mod_hex; exp_hex = exp_hex; timestamp = timestamp })

unfoldable pub fetch_rsa_key :
    AuthServices → Bytes → List Act → Result (EarlyExit RsaKeyResponse) × List Act
unfolding call refusal unless_refused rsa_key_of
fetch_rsa_key s account acts =
    let method : String = "GetPasswordRSAPublicKey" in
    let (r, acts') =
      call s.web s.protos.rsa_key s.protos.rsa_key_reply method get
        (record { account_name = some account }) acts in
    (r >>= λ (er, resp). unless_refused (refusal method er) (rsa_key_of resp), acts')

-- The least and the greatest interval and the default; half a second is rounded up.
unfoldable pub compute_poll_interval : Option F32 → ℕ
compute_poll_interval none = poll_default_interval_secs
compute_poll_interval (some nan) = poll_default_interval_secs
compute_poll_interval (some (infinite negative)) = poll_default_interval_secs
compute_poll_interval (some (finite negative m e)) =
    let clamped = min (max (m * 2 ^ e) (2 ^ 149)) (60 * 2 ^ 149) in
    if negative || m == 0 then poll_default_interval_secs else (clamped + 2 ^ 148) / 2 ^ 149

unfoldable pub filter_nonempty : Option Bytes → Option Bytes
unfolding is_empty
filter_nonempty none = none
filter_nonempty (some s) = if is_empty s then none else some s

abbrev pub or_first : {A : Type 0} → Option A → Option A → Option A
or_first (some a) b = some a
or_first none b = b

-- The loop over the confirmations: the types in order, and the hint of the first e-mail entry that
-- has one.
unfoldable pub guards_of : List Confirmation → List ℤ
guards_of [] = []
guards_of (c ∷ cs) = elim c.confirmation_type [ none ↦ guards_of cs | some ct ↦ ct ∷ guards_of cs ]

hint_of : Confirmation → Option Bytes
unfolding filter_nonempty
hint_of c = elim c.confirmation_type [
  | none ↦ none
  | some ct ↦
      if is_code ct guard_type_email_code then filter_nonempty c.associated_message else none
]

unfoldable pub email_hint : List Confirmation → Option Bytes
unfolding hint_of
email_hint [] = none
email_hint (c ∷ cs) = or_first (hint_of c) (email_hint cs)

unfoldable pub session_of : BeginReply → Result BeginSession
unfolding field compute_poll_interval guards_of email_hint
session_of resp = do
  client_id ← field "BeginAuth response: missing client_id" resp.client_id
  request_id ← field "BeginAuth response: missing request_id" resp.request_id
  session_steamid ← field "BeginAuth response: missing steamid" resp.steamid
  ok (record {
    client_id = client_id;
    request_id = request_id;
    session_steamid = session_steamid;
    poll_interval = compute_poll_interval resp.interval;
    guards = guards_of resp.allowed_confirmations;
    email_domain_hint = email_hint resp.allowed_confirmations;
  })

pub begin_msg : Bytes → Bytes → ℕ → BeginMsg
begin_msg account encrypted timestamp = record {
  device_friendly_name = some (codes "steamroids");
  account_name = some account;
  encrypted_password = some encrypted;
  encryption_timestamp = some timestamp;
  remember_login = some true;
  platform_type = some (pos platform_steam_client);
  persistence = some (pos session_persistent);
  device_details = some (record {
    device_friendly_name = some (codes "steamroids");
    platform_type = some (pos platform_steam_client);
    os_type = some (pos os_type_windows_10);
  });
}

unfoldable pub begin_session :
    AuthServices → Bytes → Bytes → ℕ → List Act → Result (EarlyExit BeginSession) × List Act
unfolding call refusal unless_refused begin_msg session_of
begin_session s account encrypted timestamp acts =
    let method : String = "BeginAuthSessionViaCredentials" in
    let (r, acts') =
      call s.web s.protos.begin s.protos.begin_reply method post
        (begin_msg account encrypted timestamp) acts in
    (r >>= λ (er, resp). unless_refused (refusal method er) (session_of resp), acts')

unfoldable pub has_guard : ℕ → List ℤ → Bool
has_guard g [] = false
has_guard g (ct ∷ cts) = is_code ct g || has_guard g cts

abbrev pub Guarded : Type 0
Guarded = Result (EarlyExit (Unit {0})) × List Act

unfoldable pub send_code : AuthServices → BeginSession → Bytes → List Act → Guarded
unfolding call refusal unless_refused
send_code s begin code acts =
    let method : String = "UpdateAuthSessionWithSteamGuardCode" in
    let (r, acts') =
      call s.web s.protos.guard_code s.protos.guard_code_reply method post
        (record {
          client_id = some begin.client_id;
          steamid = some begin.session_steamid;
          code = some code;
          code_type = some (pos guard_type_device_code);
        })
        acts in
    (r >>= λ (er, resp). unless_refused (refusal method er) (ok tt), acts')

-- The entry of a device code, when there is a secret to make it from.
unfoldable pub device_guard : AuthServices → BeginSession → Option Bytes → List Act → Guarded
unfolding send_code generate_auth_code
device_guard s begin none acts = (ok (outcome needs_mobile_guard_code), acts)
device_guard s begin (some secret) acts =
    elim (generate_auth_code s.hmac s.standard_decode s.wall_clock secret none) [
      | err e ↦ (err e, acts)
      | ok code ↦ send_code s begin code acts
    ]

no_guards : List ℤ → Bool
no_guards [] = true
no_guards (g ∷ gs) = false

-- The other confirmations.
other_guard : BeginSession → Result (EarlyExit (Unit {0}))
unfolding has_guard no_guards
other_guard begin =
    if has_guard guard_type_email_code begin.guards
    then ok (outcome (needs_email_guard_code (get_or begin.email_domain_hint [])))
    else if not (no_guards begin.guards) && not (has_guard guard_type_none begin.guards)
    then err (
        auth_rejected (record {
          template = "unsupported confirmation types: {guards}";
          parts = map num begin.guards;
        }))
    else ok (continue_with tt)

unfoldable pub resolve_guard : AuthServices → BeginSession → Option Bytes → List Act → Guarded
unfolding has_guard device_guard other_guard
resolve_guard s begin secret acts =
    if has_guard guard_type_device_code begin.guards
    then device_guard s begin secret acts
    else (other_guard begin, acts)
