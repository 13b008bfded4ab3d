-- ===== src/Auth/SignIn/Flow/Saves.antt =====
-- What a sign-in writes to the token store.
use steamroids.Prelude.{
  ℕ, true, false, ◌≡◌, refl, subst, inl, inr, ◌⊎◌, Bool-cases, List, ◌∷◌, Option, some, none,
}
use steamroids.Error.{Result, ok, err}
use steamroids.Wire.{Bytes}
use steamroids.Auth.{PasswordCredentials, password, RefreshToken}
use steamroids.Auth.WebApi.{
  SignInOutcome, success, needs_mobile_guard_code, guard_code_rejected, needs_email_guard_code,
  invalid_credentials, token_rejected, rate_limited, Act, loaded, saved,
}
use steamroids.Auth.SignIn.{AuthServices, SignIn}
use steamroids.Auth.SignIn.Flow.{
  End, execute, execute_with_store, with_stored, stored_attempt, stale, after_stored, after_fresh,
  save_token, store_error,
}
use steamroids.Proxy.{ProxyConfig}
use steamroids.Auth.SignIn.Poll.Ends.{Sleeps}
use steamroids.Auth.SignIn.Flow.Total.{execute_with_store-Ends}
use steamroids.Auth.SignIn.Flow.Quiet.{saves, IsQuietEnd, quiet_from, execute-IsQuietEnd}

module _ (s : AuthServices) (account : Bytes) (acts : List Act) where
  -- The one thing that was saved since `acts`, and that last, is `token`.
  abbrev pub EndsBySaving : Bytes → List Act → Type 0
  EndsBySaving token now =
      (before : List Act) × (now ≡ saved account token ∷ before) × (saves before ≡ saves acts)

  -- With success the token was saved, and the store took it; with another outcome nothing was saved;
  -- with an error nothing was, unless the store refused the token.
  abbrev pub SavesToken : Result SignInOutcome → List Act → Type 0
  SavesToken (ok (success id token access)) now =
      EndsBySaving token.expose now × (s.save now ≡ true)
  SavesToken (ok o) now = saves now ≡ saves acts
  SavesToken (err e) now =
      (saves now ≡ saves acts)
      ⊎ ((e ≡ store_error) × ((token : Bytes) × EndsBySaving token now) × (s.save now ≡ false))

  abbrev pub SavesTokenEnd : End → Type 0
  SavesTokenEnd none = Unit {0}
  SavesTokenEnd (some (r, now)) = SavesToken r now

  save_token-Saves :
      (id : ℕ) (token : RefreshToken) (access : Option Bytes) (now : List Act)
      → saves now ≡ saves acts
      → SavesTokenEnd (save_token s account token.expose (success id token access) now)
  unfolding save_token
  save_token-Saves id token access now same =
      elim (Bool-cases (s.save (saved account token.expose ∷ now))) [
        | inl works ↦ rw (works, save_token) ((now, refl, same), works)
        | inr fails ↦ rw (fails, save_token) (inr (refl, (token.expose, (now, refl, same)), fails))
      ]

  after_fresh-Saves : (e : End) → IsQuietEnd e acts → SavesTokenEnd (after_fresh s account e)
  unfolding after_fresh
  after_fresh-Saves none quiet = tt
  after_fresh-Saves (some (ok (success id token access), now)) quiet =
      save_token-Saves id token access now quiet
  after_fresh-Saves (some (ok needs_mobile_guard_code, now)) quiet = quiet
  after_fresh-Saves (some (ok guard_code_rejected, now)) quiet = quiet
  after_fresh-Saves (some (ok (needs_email_guard_code domain), now)) quiet = quiet
  after_fresh-Saves (some (ok invalid_credentials, now)) quiet = quiet
  after_fresh-Saves (some (ok token_rejected, now)) quiet = quiet
  after_fresh-Saves (some (ok (rate_limited hint), now)) quiet = quiet
  after_fresh-Saves (some (err e, now)) quiet = inl quiet

  after_stored-Saves :
      (fresh : List Act → End) (r : Result SignInOutcome) (now : List Act)
      → saves now ≡ saves acts
      → SavesTokenEnd (fresh now)
      → SavesTokenEnd (after_stored s account fresh r now)
  unfolding after_stored
  after_stored-Saves fresh (ok (success id token access)) now same h =
      save_token-Saves id token access now same
  after_stored-Saves fresh (ok token_rejected) now same h = h
  after_stored-Saves fresh (ok needs_mobile_guard_code) now same h = same
  after_stored-Saves fresh (ok guard_code_rejected) now same h = same
  after_stored-Saves fresh (ok (needs_email_guard_code domain)) now same h = same
  after_stored-Saves fresh (ok invalid_credentials) now same h = same
  after_stored-Saves fresh (ok (rate_limited hint)) now same h = same
  after_stored-Saves fresh (err e) now same h = inl same

  stored-Saves :
      (sign_in : SignIn) (held : Option (Option Bytes))
      → SavesTokenEnd (with_stored s sign_in account held (loaded account ∷ acts))
  unfolding with_stored saves
  stored-Saves sign_in held = by_held held
    where
      fresh-Saves :
          (now : List Act)
          → saves now ≡ saves acts
          → SavesTokenEnd (after_fresh s account (execute s sign_in now))
      fresh-Saves now same =
          after_fresh-Saves (execute s sign_in now)
            (quiet_from s (execute s sign_in now) now acts same (execute-IsQuietEnd s sign_in now))

      attempted :
          (e : End)
          → IsQuietEnd e acts
          → SavesTokenEnd (elim e [
            | none ↦ none
            | some (r, now) ↦
                after_stored s account
                  (λ now'. after_fresh s account (execute s sign_in now'))
                  (stale r)
                  now
          ])
      attempted none quiet = tt
      attempted (some (r, now)) quiet =
          after_stored-Saves (λ now'. after_fresh s account (execute s sign_in now')) (stale r) now
            quiet (fresh-Saves now quiet)

      by_held :
          (held : Option (Option Bytes))
          → SavesTokenEnd (with_stored s sign_in account held (loaded account ∷ acts))
      by_held none = inl refl
      by_held (some none) = fresh-Saves (loaded account ∷ acts) refl
      by_held (some (some token)) =
          attempted (execute s (stored_attempt sign_in token) (loaded account ∷ acts)) (
            quiet_from s (execute s (stored_attempt sign_in token) (loaded account ∷ acts))
              (loaded account ∷ acts) acts refl
              (execute-IsQuietEnd s (stored_attempt sign_in token) (loaded account ∷ acts)))

-- When no sleep ends before its time, a sign-in by password with a token store ends. If it ends with
-- success, the last thing it did was to save the token that it returns, for its account; the store
-- accepted that, and nothing else was saved. With another outcome it has saved nothing; with an
-- error it has saved nothing either, or it ended by trying to save one token for its account, which
-- the store refused, and the error says so.
pub execute_with_store-SavesToken :
    (s : AuthServices) (creds : PasswordCredentials) (proxy : Option ProxyConfig) (acts : List Act)
    → Sleeps s
    → (r : Result SignInOutcome) × (now : List Act) × (execute_with_store s
          (record { credentials = password creds; proxy = proxy })
          acts
        ≡ some (r, now))
      × SavesToken s creds.account_name acts r now
unfolding execute_with_store
execute_with_store-SavesToken s creds proxy acts sleeps =
    let sign_in : SignIn = record { credentials = password creds; proxy = proxy } in
    let ((r, now), e) = execute_with_store-Ends s sleeps sign_in acts in
    let kept =
      stored-Saves s creds.account_name acts sign_in (s.load (loaded creds.account_name ∷ acts)) in
    (r, now, e, subst (SavesTokenEnd s creds.account_name acts) e kept)
