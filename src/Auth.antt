-- ===== src/Auth.antt =====
-- src/auth: signing in. This file has the credentials; a text is the list of its bytes.
pub mod Jwt
pub mod Totp
pub mod Password
pub mod WebApi
pub mod SignIn
mod Runs
use steamroids.Prelude.{Option, some, none}
use steamroids.Wire.{Bytes}

pub record PasswordCredentials : Type 0 where
  pub account_name : Bytes
  pub password : Bytes
  pub shared_secret : Option Bytes

-- The wrapper of `RefreshToken`, with `new` and `expose`.
pub record RefreshToken : Type 0 where
  pub expose : Bytes

pub data Credentials : Type 0 where
  password : PasswordCredentials → Credentials
  refresh_token : RefreshToken → Credentials

-- The two constructors by name.
abbrev pub password_credentials : Bytes → Bytes → Option Bytes → Credentials
password_credentials account secret_word shared =
    password (record { account_name = account; password = secret_word; shared_secret = shared })

abbrev pub refresh_token_credentials : Bytes → Credentials
refresh_token_credentials token = refresh_token (record { expose = token })
