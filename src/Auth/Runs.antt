-- ===== src/Auth/Runs.antt =====
-- Sign-ins at concrete inputs.
use steamroids.Prelude.{
  ℕ, ◌⊎◌, zero, suc, ◌≡◌, ◌↔◌, refl, ◌+◌, ◌*◌, ◌%◌, ◌^◌, true, false, List, [], ◌∷◌, ◌++◌, Option,
  some, none, length, replicate, arith, if◌then◌else◌, ◌==◌, All, ◌<◌,
}
use mathlib.Core.Option.{get_or}
use steamroids.Prelude.Int.{pos}
use steamroids.Prelude.Text.{codes}
use steamroids.Prelude.Parse.{
  parse_u64, parse_unsigned, parse_number, parse_digits, push_digit, parse_i32,
}
use steamroids.Prelude.Split.{split_on, onto_first}
use steamroids.Error.{Result, ok}
use steamroids.Wire.{Bytes, Proto}
use steamroids.Auth.{PasswordCredentials, password}
use steamroids.Auth.Jwt.{
  Json, text, number, JwtDecoders, RefreshTokenClaims, payload_of, is_empty, decode_payload,
  refresh_token_claims, as_str, as_u64,
}
use steamroids.Auth.Jwt.Shape.{IsJwt, Says, refresh_token_claims-IsJwt}
use steamroids.Auth.Totp.{be_bytes, generate_with_step}
use steamroids.Auth.Totp.Digits.{IsCode, Picks, generate_with_step-IsCode}
use steamroids.Auth.Password.{Rsa, encrypt_password}
use steamroids.Auth.WebApi.{
  SignInOutcome, success, WebApi, Act, loaded, call, url_for, read_response, refusal,
}
use steamroids.Auth.SignIn.{AuthServices, finite, AuthProtos, SignIn, PollReply}
use steamroids.Auth.SignIn.Begin.{
  fetch_rsa_key, begin_session, resolve_guard, unless_refused, field, session_of,
  compute_poll_interval, guards_of, email_hint, has_guard, filter_nonempty,
}
use steamroids.Auth.SignIn.Poll.{
  second, poll_for_token, poll_loop, poll_once, token_outcome, past_deadline,
}
use steamroids.Auth.SignIn.Poll.Ends.{Sleeps}
use steamroids.Auth.SignIn.Flow.{
  End, execute_with_store, with_stored, execute, execute_password_flow, then_do, or_fail,
  after_fresh, save_token, now_unix,
}
use steamroids.Auth.SignIn.Flow.Total.{Ends, execute_with_store-Ends}
use steamroids.Auth.SignIn.Flow.Saves.{SavesToken, execute_with_store-SavesToken}
use steamroids.Auth.SignIn.Flow.Usable.{IsUsable}
use steamroids.Auth.SignIn.Flow.Reuse.{IsSaved, IsPassedOn, execute_with_store-reuse}

-- A payload is its own Base64 and JSON: the account, and it expires at 5000.
abbrev first_of : Bytes → ℕ
first_of [] = 0
first_of (b ∷ bs) = b

abbrev json_of : Bytes → Bytes → Option Json
json_of payload key =
    if length key == 3
    then (if first_of key == b's' then some (text payload) else some (number 5000))
    else none

abbrev read_json : Bytes → Option (Bytes → Option Json)
read_json [] = none
read_json (b ∷ bs) = some (json_of (b ∷ bs))

abbrev decoders : JwtDecoders
decoders = record { base64_url = λ bytes. some bytes; from_slice = read_json }

abbrev claims : RefreshTokenClaims
claims = record { steam_id = 76; exp = some 5000 }

abbrev token : Bytes
token = codes "h.76.s"

claims_read : refresh_token_claims decoders token ≡ ok claims
unfolding refresh_token_claims decode_payload payload_of is_empty split_on onto_first as_str as_u64
    parse_u64 parse_unsigned parse_number parse_digits push_digit
claims_read = refl

refresh_token_claims-IsJwt_example :
    (refresh_token_claims decoders token ≡ ok claims)
    ↔ ((payload : Bytes) × IsJwt token payload × Says decoders token claims payload)
refresh_token_claims-IsJwt_example = refresh_token_claims-IsJwt decoders token claims

abbrev hmac : Bytes → Bytes → Bytes
hmac key message = replicate 16 200 ++ (1 ∷ 2 ∷ 3 ∷ 12 ∷ [])

generate_with_step-IsCode_example :
    (b0 b1 b2 b3 : ℕ) × Picks (hmac [] (be_bytes 8 42)) b0 b1 b2 b3
    × IsCode
        ((b0 * 2 ^ 24 + b1 * 2 ^ 16 + b2 * 2 ^ 8 + b3) % 2 ^ 31)
        (generate_with_step hmac [] 42)
generate_with_step-IsCode_example = generate_with_step-IsCode hmac [] 42 (refl, small)
  where
    small : All (λ (b : ℕ). b < 256) (hmac [] (be_bytes 8 42))
    small = ground arith

-- Steam answers every call with success, and the second poll with a token.
abbrev web : WebApi
web = record {
  url = λ url. some url;
  base64 = λ bytes. bytes;
  respond =
      λ acts. some (record { eresult = some (some (codes "1")); body = some (length acts ∷ []) });
}

abbrev silent : {M : Type 0} → Proto M
silent = record { encode = λ m. []; decode = λ bytes. none }

abbrev always : {M : Type 0} → M → Proto M
always m = record { encode = λ other. []; decode = λ bytes. some m }

abbrev poll_reply_of : Bytes → Option PollReply
poll_reply_of [] = none
poll_reply_of (n ∷ bytes) = some (record {
  new_client_id = none;
  refresh_token = if n == 4 then none else some token;
  access_token = none;
})

abbrev protos : AuthProtos
protos = record {
  rsa_key = silent;
  rsa_key_reply = always (record {
    publickey_mod = some (codes "c5");
    publickey_exp = some (codes "11");
    timestamp = some 9;
  });
  begin = silent;
  begin_reply = always (record {
    client_id = some 3;
    request_id = some [];
    steamid = some 76;
    interval = some (finite false 3 149);
    allowed_confirmations =
        record { confirmation_type = some (pos 1); associated_message = none } ∷ [];
  });
  guard_code = silent;
  guard_code_reply = silent;
  poll = record { encode = λ m. get_or m.client_id 0 ∷ []; decode = λ bytes. none };
  poll_reply = record { encode = λ m. []; decode = poll_reply_of };
}

abbrev rsa : Rsa
rsa = record {
  parse_hex = λ bytes. some (length bytes);
  is_key = λ n e. true;
  encrypt = λ n e word. some word;
  base64 = λ bytes. bytes;
}

elapsed : ℕ → ℕ → ℕ
elapsed interval zero = 0
elapsed interval (suc k) = elapsed interval k + interval * second

-- The store holds what is given.
abbrev services : Option Bytes → AuthServices
services held = record {
  web = web;
  protos = protos;
  rsa = rsa;
  jwt = decoders;
  hmac = hmac;
  standard_decode = λ bytes. some bytes;
  http_client = λ proxy. ok tt;
  load = λ acts. some held;
  save = λ acts. true;
  wall_clock = some 1000;
  instant = elapsed;
}

abbrev creds : PasswordCredentials
creds = record { account_name = codes "bot"; password = codes "pw"; shared_secret = none }

abbrev sign_in : SignIn
sign_in = record { credentials = password creds; proxy = none }

sleeps : (held : Option Bytes) → Sleeps (services held)
unfolding elapsed
sleeps held interval k = omega arith

execute_with_store-Ends_example : Ends (execute_with_store (services none) sign_in [])
execute_with_store-Ends_example = execute_with_store-Ends (services none) (sleeps none) sign_in []

abbrev result_of : End → Option (Result SignInOutcome × ℕ)
result_of none = none
result_of (some (r, acts)) = some (r, length acts)

-- The store is asked; the key, the session and two polls; the token is saved.
signed_in :
    result_of (execute_with_store (services none) sign_in [])
    ≡ some (ok (success 76 (record { expose = token }) none), 6)
unfolding execute_with_store with_stored execute execute_password_flow then_do or_fail fetch_rsa_key
    call url_for read_response parse_i32 parse_unsigned parse_number parse_digits push_digit refusal
    unless_refused encrypt_password begin_session session_of field guards_of email_hint
    filter_nonempty is_empty compute_poll_interval resolve_guard has_guard poll_for_token poll_loop
    poll_once past_deadline elapsed token_outcome after_fresh save_token refresh_token_claims
    decode_payload payload_of split_on onto_first as_str as_u64 parse_u64
signed_in = refl

execute_with_store-SavesToken_example :
    (r : Result SignInOutcome) × (now : List Act) × (execute_with_store (services none) sign_in []
      ≡ some (r, now))
    × SavesToken (services none) (codes "bot") [] r now
execute_with_store-SavesToken_example =
    execute_with_store-SavesToken (services none) creds none [] (sleeps none)

usable : IsUsable (services (some token)) token claims
unfolding now_unix
usable = (claims_read, omega arith)

execute_with_store-reuse_example :
    ((stored : Bytes) × (read : RefreshTokenClaims) × (some token ≡ some stored)
      × IsUsable (services (some token)) stored read
      × IsSaved
          (services (some token))
          (codes "bot")
          stored
          (success read.steam_id (record { expose = stored }) none)
          (loaded (codes "bot") ∷ [])
          (execute_with_store (services (some token)) sign_in []))
    ⊎ (((stored : Bytes) (read : RefreshTokenClaims)
          → some token ≡ some stored
          → IsUsable (services (some token)) stored read
          → ⊥)
        × IsPassedOn
            (services (some token))
            (codes "bot")
            (execute_password_flow
              (services (some token))
              sign_in
              creds
              (loaded (codes "bot") ∷ []))
            (execute_with_store (services (some token)) sign_in []))
execute_with_store-reuse_example =
    execute_with_store-reuse (services (some token)) creds none [] (some token) refl
