-- ===== src/Error.antt =====
-- src/error.rs: the crate-wide error type, the `EResult` codes, and the result monad.
--
-- The text of an error is kept as its format string and the values that are put into it. The
-- text of a third-party error (`{e}`) is not kept.
pub mod Eresult
use steamroids.Prelude.{ℕ, ◌⊎◌, inl, inr, ◌≡◌, refl, Bool, true, false, List, [], ◌∷◌, String}
use steamroids.Prelude.Int.{ℤ, pos}

pub data Part : Type 0 where
  num : ℤ → Part
  str : List ℕ → Part

pub record Text : Type 0 where
  pub template : String
  pub parts : List Part

pub data Error : Type 0 where
  io : Text → Error
  invalid_url : Text → Error
  url_parse : Text → Error
  invalid_config : Text → Error
  socks5 : Text → Error
  http_connect : Text → Error
  tls : Text → Error
  web_socket : Text → Error
  codec : Text → Error
  base64 : Text → Error
  hmac_key : Error
  network : Text → Error
  auth_rejected : Text → Error
  logon_retryable : Text → Error
  remote : Text → Error
  auth_rate_limited : Text → Error
  token_store : Text → Error
  invalid_state : String → String → Error
  timeout : String → Error
  not_implemented : String → Error

-- A message with no values in it, and one with numbers.
abbrev pub msg : String → Text
msg s = record { template = s; parts = [] }

abbrev pub msg1 : String → ℕ → Text
msg1 s a = record { template = s; parts = num (pos a) ∷ [] }

abbrev pub msg2 : String → ℕ → ℕ → Text
msg2 s a b = record { template = s; parts = num (pos a) ∷ num (pos b) ∷ [] }

abbrev pub msg_int : String → ℤ → Text
msg_int s a = record { template = s; parts = num a ∷ [] }

pub data Result {ℓ} (A : Type ℓ) : Type ℓ where
  ok : A → Result A
  err : Error → Result A

-- The `?` operator.
infixl 5 ◌>>=◌
abbrev pub ◌>>=◌ {ℓ κ} : {A : Type ℓ} {B : Type κ} → Result A → (A → Result B) → Result B
ok a >>= f = f a
err e >>= f = err e

abbrev pub is_err {ℓ} : {A : Type ℓ} → Result A → Bool
is_err (ok a) = false
is_err (err e) = true

pub Result-cases {ℓ} :
    {A : Type ℓ} (r : Result A) → ((a : A) × (r ≡ ok a)) ⊎ ((e : Error) × (r ≡ err e))
Result-cases (ok a) = inl (a, refl)
Result-cases (err e) = inr (e, refl)
