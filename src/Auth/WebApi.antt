-- ===== src/Auth/WebApi.antt =====
-- src/auth/webapi.rs: the calls of the authentication service, and what a result code means.
--
-- The HTTP client, the URL parser and Base64 are parameters. What was done so far is a list, the
-- newest first, on which the answers of the other side may depend.
use steamroids.Prelude.{ℕ, String, List, [], ◌∷◌, ◌++◌, Option, some, none, if◌then◌else◌}
use steamroids.Prelude.Int.{ℤ, is_code}
use steamroids.Prelude.Text.{codes}
use steamroids.Prelude.Parse.{parse_i32}
use steamroids.Error.{
  Text, str, num, Result, ok, err, network, auth_rejected, url_parse, msg, ◌>>=◌,
}
use steamroids.Error.Eresult
use steamroids.Wire.{Bytes, Proto}
use steamroids.Codec.{decode_or}
use steamroids.Auth.{RefreshToken}

-- `SignInOutcome` of src/auth/signin.rs.
pub data SignInOutcome : Type 0 where
  success : ℕ → RefreshToken → Option Bytes → SignInOutcome
  needs_mobile_guard_code guard_code_rejected : SignInOutcome
  needs_email_guard_code : Bytes → SignInOutcome
  invalid_credentials token_rejected : SignInOutcome
  -- The hint, in seconds.
  rate_limited : Option ℕ → SignInOutcome

abbrev pub base_url : Bytes
base_url = codes "https://api.steampowered.com/IAuthenticationService/"

abbrev pub rate_limit_backoff : ℕ
rate_limit_backoff = 60

pub data HttpMethod : Type 0 where
  get post : HttpMethod

unfoldable pub map_non_ok_eresult : ℤ → Option SignInOutcome
map_non_ok_eresult er =
    if is_code er Eresult.invalid_password
    then some invalid_credentials
    else if is_code er Eresult.account_logon_denied
    then some (needs_email_guard_code [])
    else if is_code er Eresult.account_login_denied_need_two_factor
    then some needs_mobile_guard_code
    else if is_code er Eresult.two_factor_code_mismatch
    then some guard_code_rejected
    else if is_code er Eresult.rate_limit_exceeded
    then some (rate_limited (some rate_limit_backoff))
    else if is_code er Eresult.account_login_denied_throttle
    then some (rate_limited (some rate_limit_backoff))
    else none

-- What was done: a call of the service, and the uses of the token store.
pub data Act : Type 0 where
  called : Bytes → HttpMethod → Bytes → Act
  loaded : Bytes → Act
  saved : Bytes → Bytes → Act

-- A response: its `x-eresult` header (absent, not ASCII, or a text) and its body, if it arrives.
pub record Response : Type 0 where
  pub eresult : Option (Option Bytes)
  pub body : Option Bytes

pub record WebApi : Type 0 where
  -- `Url::parse`, which gives the text of the URL.
  pub url : Bytes → Option Bytes
  -- `STANDARD.encode`.
  pub base64 : Bytes → Bytes
  -- The answer to the newest call (`none`: sending it fails).
  pub respond : List Act → Option Response

unfoldable pub url_for : WebApi → String → Result Bytes
url_for web method =
    decode_or (url_parse (msg "{e}")) (web.url (base_url ++ (codes method ++ codes "/v1/")))

abbrev pub in_method : String → String → Text
in_method template method = record { template = template; parts = str (codes method) ∷ [] }

eresult_of : String → Option (Option Bytes) → Result ℤ
eresult_of method none =
    err (auth_rejected (in_method "{method}: response missing x-eresult header" method))
eresult_of method (some none) =
    err (auth_rejected (in_method "{method}: x-eresult not ascii" method))
eresult_of method (some (some s)) =
    decode_or (auth_rejected (in_method "{method}: x-eresult not an integer" method)) (parse_i32 s)

unfoldable pub read_response : {R : Type 0} → Proto R → String → Option Response → Result (ℤ × R)
unfolding eresult_of
read_response p method response = do
  r ← decode_or (network (in_method "{method}: {e}" method)) response
  er ← eresult_of method r.eresult
  body ← decode_or (network (in_method "{method} read body: {e}" method)) r.body
  resp ←
      decode_or (auth_rejected (in_method "decode {method} response: {e}" method)) (p.decode body)
  ok (er, resp)

unfoldable pub call :
    {Q R : Type 0}
    → WebApi
    → Proto Q
    → Proto R
    → String
    → HttpMethod
    → Q
    → List Act
    → Result (ℤ × R) × List Act
unfolding url_for read_response
call web q p method verb req acts =
    let now = λ (url : Bytes). called url verb (web.base64 (q.encode req)) ∷ acts in
    elim (url_for web method) [
      | err e ↦ (err e, acts)
      | ok url ↦ (read_response p method (web.respond (now url)), now url)
    ]

-- The check that follows every call: `none` when the code is that of success.
unfoldable pub refusal : String → ℤ → Option (Result SignInOutcome)
unfolding map_non_ok_eresult
refusal method er = if is_code er Eresult.ok then none else (elim (map_non_ok_eresult er) [
  | some outcome ↦ some (ok outcome)
  | none ↦ some (
      err (
        auth_rejected (record {
          template = "{method} eresult {er}";
          parts = str (codes method) ∷ num er ∷ [];
        })))
])
