-- ===== src/Auth/SignIn/Flow/Reuse.antt =====
-- When a stored token is used, and when the password flow runs.
use steamroids.Prelude.{
  true, ◌≡◌, subst, refl, inl, inr, ◌⊎◌, Bool-cases, false, List, ◌∷◌, Option, some, none, sym, ◌∙◌,
  ap,
}
use steamroids.Error.{ok, err, token_store, msg}
use steamroids.Wire.{Bytes}
use steamroids.Proxy.{ProxyConfig}
use steamroids.Auth.{PasswordCredentials, password}
use steamroids.Auth.Jwt.{RefreshTokenClaims}
use steamroids.Auth.WebApi.{
  SignInOutcome, success, needs_mobile_guard_code, guard_code_rejected, needs_email_guard_code,
  invalid_credentials, token_rejected, rate_limited, Act, loaded, saved,
}
use steamroids.Auth.SignIn.{AuthServices, SignIn}
use steamroids.Auth.SignIn.Flow.{
  End, store_error, execute, execute_password_flow, execute_with_store, with_stored, after_stored,
  after_fresh, save_token,
}
use steamroids.Auth.SignIn.Flow.Usable.{
  IsUsable, IsUsable-cases, stored_attempt-execute, usable-flow, unusable-flow,
}

module _ (s : AuthServices) where
  -- What follows a success: the store is asked to take the token. If it does, the result is that
  -- success, and if it refuses, the error of saving.
  abbrev pub IsSaved : Bytes → Bytes → SignInOutcome → List Act → End → Type 0
  IsSaved account token result acts e =
      ((s.save (saved account token ∷ acts) ≡ true)
        × (e ≡ some (ok result, saved account token ∷ acts)))
      ⊎ ((s.save (saved account token ∷ acts) ≡ false)
          × (e ≡ some (err (token_store (msg "{e}")), saved account token ∷ acts)))

  -- What follows the password flow: its token is saved, and any other end is passed on.
  abbrev pub IsPassedOn : Bytes → End → End → Type 0
  IsPassedOn account none e = e ≡ none
  IsPassedOn account (some (ok (success id token access), now)) e =
      IsSaved account token.expose (success id token access) now e
  IsPassedOn account (some (r, now)) e = e ≡ some (r, now)

  save_token-IsSaved :
      (account token : Bytes) (result : SignInOutcome) (acts : List Act)
      → IsSaved account token result acts (save_token s account token result acts)
  unfolding save_token store_error
  save_token-IsSaved account token result acts =
      elim (Bool-cases (s.save (saved account token ∷ acts))) [
        | inl works ↦ inl (works, rw (works, save_token) refl)
        | inr fails ↦ inr (fails, rw (fails, save_token) refl)
      ]

  after_fresh-IsPassedOn :
      (account : Bytes) (e : End) → IsPassedOn account e (after_fresh s account e)
  unfolding after_fresh
  after_fresh-IsPassedOn account none = refl
  after_fresh-IsPassedOn account (some (ok (success id token access), now)) =
      save_token-IsSaved account token.expose (success id token access) now
  after_fresh-IsPassedOn account (some (ok needs_mobile_guard_code, now)) = refl
  after_fresh-IsPassedOn account (some (ok guard_code_rejected, now)) = refl
  after_fresh-IsPassedOn account (some (ok (needs_email_guard_code domain), now)) = refl
  after_fresh-IsPassedOn account (some (ok invalid_credentials, now)) = refl
  after_fresh-IsPassedOn account (some (ok token_rejected, now)) = refl
  after_fresh-IsPassedOn account (some (ok (rate_limited hint), now)) = refl
  after_fresh-IsPassedOn account (some (err e, now)) = refl

  module _ (creds : PasswordCredentials) (proxy : Option ProxyConfig) (acts : List Act) where
    abbrev pub by_password : SignIn
    by_password = record { credentials = password creds; proxy = proxy }

    abbrev pub asked : List Act
    asked = loaded creds.account_name ∷ acts

    reused :
        (token : Bytes) (claims : RefreshTokenClaims)
        → s.load asked ≡ some (some token)
        → IsUsable s token claims
        → execute_with_store s by_password acts
          ≡ save_token s creds.account_name token
              (success claims.steam_id (record { expose = token }) none)
              asked
    unfolding execute_with_store with_stored execute after_stored
    reused token claims held usable =
        rw
          (
            held,
            execute_with_store,
            with_stored,
            stored_attempt-execute s by_password token asked,
            usable-flow s token claims usable,
            after_stored,
          )
          refl

    fell_back :
        (held : Option Bytes)
        → s.load asked ≡ some held
        → ((token : Bytes) (claims : RefreshTokenClaims)
            → held ≡ some token
            → IsUsable s token claims
            → ⊥)
        → execute_with_store s by_password acts
          ≡ after_fresh s creds.account_name (execute_password_flow s by_password creds asked)
    unfolding execute_with_store with_stored execute after_stored
    fell_back none absent none_usable = rw (absent, execute_with_store, with_stored) refl
    fell_back (some token) held none_usable =
        rw
          (
            held,
            execute_with_store,
            with_stored,
            stored_attempt-execute s by_password token asked,
            unusable-flow s token (λ claims. none_usable token claims refl),
            after_stored,
          )
          refl

    -- When the store can be read, a sign-in by password does one of two things. If the store has a
    -- token for the account that decodes and expires more than 60 seconds from now, or never, it
    -- makes no call: it asks the store to save that token again, and returns success with it and
    -- with the account that its claims name, or the error of the store. If the store has no such
    -- token, it ends as the password flow does, except that with a success the new token is saved
    -- first, and the error of the store takes its place where that fails.
    pub execute_with_store-reuse :
        (held : Option Bytes)
        → s.load asked ≡ some held
        → ((token : Bytes) × (claims : RefreshTokenClaims) × (held ≡ some token)
            × IsUsable s token claims
            × IsSaved creds.account_name token
                (success claims.steam_id (record { expose = token }) none)
                asked
                (execute_with_store s by_password acts))
          ⊎ (((token : Bytes) (claims : RefreshTokenClaims)
                → held ≡ some token
                → IsUsable s token claims
                → ⊥)
              × IsPassedOn creds.account_name
                  (execute_password_flow s by_password creds asked)
                  (execute_with_store s by_password acts))
    execute_with_store-reuse held read = elim (IsUsable-cases s held) [
      | inl (token, claims, same, usable) ↦
          let result = success claims.steam_id (record { expose = token }) none in
          inl (
            token,
            claims,
            same,
            usable,
            subst (IsSaved creds.account_name token result asked)
                (sym (reused token claims (read ∙ ap some same) usable))
                (save_token-IsSaved creds.account_name token result asked),
          )
      | inr none_usable ↦
          let flow = execute_password_flow s by_password creds asked in
          inr (
            none_usable,
            subst (IsPassedOn creds.account_name flow) (sym (fell_back held read none_usable))
                (after_fresh-IsPassedOn creds.account_name flow),
          )
    ]
