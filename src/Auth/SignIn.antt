-- ===== src/Auth/SignIn.antt =====
-- src/auth/signin.rs: the builder, the generated messages and what the flows need from outside.
pub mod Begin
pub mod Poll
pub mod Flow
use steamroids.Prelude.{ℕ, Bool, List, Option, some, none}
use steamroids.Prelude.Int.{ℤ}
use steamroids.Error.{Result}
use steamroids.Wire.{Bytes, Proto}
use steamroids.Proxy.{ProxyConfig}
use steamroids.Auth.{
  Credentials, PasswordCredentials, password, refresh_token, password_credentials,
  refresh_token_credentials,
}
use steamroids.Auth.Jwt.{JwtDecoders}
use steamroids.Auth.Password.{Rsa}
use steamroids.Auth.WebApi.{WebApi, Act, SignInOutcome}

-- `f32`: `finite negative m e` is m * 2 ^ e units of the least positive value, 2 ^ -149.
pub data F32 : Type 0 where
  nan : F32
  infinite : Bool → F32
  finite : Bool → ℕ → ℕ → F32

-- The generated messages.
pub record RsaKeyMsg : Type 0 where
  pub account_name : Option Bytes

pub record RsaKeyReply : Type 0 where
  pub publickey_mod : Option Bytes
  pub publickey_exp : Option Bytes
  pub timestamp : Option ℕ

pub record DeviceDetails : Type 0 where
  pub device_friendly_name : Option Bytes
  pub platform_type : Option ℤ
  pub os_type : Option ℤ

pub record BeginMsg : Type 0 where
  pub device_friendly_name : Option Bytes
  pub account_name : Option Bytes
  pub encrypted_password : Option Bytes
  pub encryption_timestamp : Option ℕ
  pub remember_login : Option Bool
  pub platform_type : Option ℤ
  pub persistence : Option ℤ
  pub device_details : Option DeviceDetails

pub record Confirmation : Type 0 where
  pub confirmation_type : Option ℤ
  pub associated_message : Option Bytes

pub record BeginReply : Type 0 where
  pub client_id : Option ℕ
  pub request_id : Option Bytes
  pub steamid : Option ℕ
  pub interval : Option F32
  pub allowed_confirmations : List Confirmation

pub record GuardCodeMsg : Type 0 where
  pub client_id : Option ℕ
  pub steamid : Option ℕ
  pub code : Option Bytes
  pub code_type : Option ℤ

-- `CAuthenticationUpdateAuthSessionWithSteamGuardCodeResponse`, of which nothing is read.
pub record GuardCodeReply : Type 0 where
  pub agreement_session_url : Option Bytes

pub record PollMsg : Type 0 where
  pub client_id : Option ℕ
  pub request_id : Option Bytes

pub record PollReply : Type 0 where
  pub new_client_id : Option ℕ
  pub refresh_token : Option Bytes
  pub access_token : Option Bytes

pub record AuthProtos : Type 0 where
  pub rsa_key : Proto RsaKeyMsg
  pub rsa_key_reply : Proto RsaKeyReply
  pub begin : Proto BeginMsg
  pub begin_reply : Proto BeginReply
  pub guard_code : Proto GuardCodeMsg
  pub guard_code_reply : Proto GuardCodeReply
  pub poll : Proto PollMsg
  pub poll_reply : Proto PollReply

-- What is not code of this repository, and the clocks.
pub record AuthServices : Type 0 where
  pub web : WebApi
  pub protos : AuthProtos
  pub rsa : Rsa
  pub jwt : JwtDecoders
  pub hmac : Bytes → Bytes → Bytes
  pub standard_decode : Bytes → Option Bytes
  -- The construction of an HTTP client.
  pub http_client : Option ProxyConfig → Result (Unit {0})
  -- The token store: what the newest use of it gives (`none`, `false`: its error).
  pub load : List Act → Option (Option Bytes)
  pub save : List Act → Bool
  -- The wall clock in seconds since the epoch (`none`: it is before the epoch).
  pub wall_clock : Option ℕ
  -- `Instant::now()` in nanoseconds, for an interval between polls: when polling starts, and after
  -- each sleep of that interval.
  pub instant : ℕ → ℕ → ℕ

pub record SignIn : Type 0 where
  pub credentials : Credentials
  pub proxy : Option ProxyConfig

abbrev pub with_password : Bytes → Bytes → SignIn
with_password account word = record {
  credentials = password_credentials account word none;
  proxy = none;
}

abbrev pub with_refresh_token : Bytes → SignIn
with_refresh_token token = record { credentials = refresh_token_credentials token; proxy = none }

abbrev pub with_secret : Bytes → Credentials → Credentials
with_secret secret (password c) = password_credentials c.account_name c.password (some secret)
with_secret secret (refresh_token t) = refresh_token t

abbrev pub shared_secret : SignIn → Bytes → SignIn
shared_secret s secret = record { credentials = with_secret secret s.credentials; proxy = s.proxy }

abbrev pub with_proxy : SignIn → ProxyConfig → SignIn
with_proxy s p = record { credentials = s.credentials; proxy = some p }

-- Either the flow goes on, or it ends with an outcome.
pub data EarlyExit (A : Type 0) : Type 0 where
  continue_with : A → EarlyExit A
  outcome : SignInOutcome → EarlyExit A

pub record RsaKeyResponse : Type 0 where
  pub mod_hex : Bytes
  pub exp_hex : Bytes
  pub timestamp : ℕ

pub record BeginSession : Type 0 where
  pub client_id : ℕ
  pub request_id : Bytes
  pub session_steamid : ℕ
  -- In seconds.
  pub poll_interval : ℕ
  pub guards : List ℤ
  pub email_domain_hint : Option Bytes
