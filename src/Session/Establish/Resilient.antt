-- ===== src/Session/Establish/Resilient.antt =====
-- The first connection of a session.
use steamroids.Prelude.{
  ℕ, suc, ◌+◌, ◌<◌, ◌≡◌, ◌≢◌, refl, ap, ◌∙◌, ◌⊎◌, inl, inr, true, false, [], ◌∷◌, take, All, arith,
}
use steamroids.Error.{Error, Text, Result, ok, err, auth_rejected, Result-cases, msg}
use steamroids.Session.Driver.Reconnect.{is_fatal}
use steamroids.Session.Establish.{Established, resilient_from, establish_resilient}

-- A rejected token stops the attempts.
rejected_or :
    (e : Error)
    → ((is_fatal e ≡ true) × (why : Text) × (e ≡ auth_rejected why))
      ⊎ ((is_fatal e ≡ false) × ((why : Text) → e ≢ auth_rejected why))
unfolding is_fatal
rejected_or (auth_rejected t) = inl (refl, t, refl)
rejected_or (Error.io t) = inr (refl, λ w h. cc h)
rejected_or (Error.invalid_url t) = inr (refl, λ w h. cc h)
rejected_or (Error.url_parse t) = inr (refl, λ w h. cc h)
rejected_or (Error.invalid_config t) = inr (refl, λ w h. cc h)
rejected_or (Error.socks5 t) = inr (refl, λ w h. cc h)
rejected_or (Error.http_connect t) = inr (refl, λ w h. cc h)
rejected_or (Error.tls t) = inr (refl, λ w h. cc h)
rejected_or (Error.web_socket t) = inr (refl, λ w h. cc h)
rejected_or (Error.codec t) = inr (refl, λ w h. cc h)
rejected_or (Error.base64 t) = inr (refl, λ w h. cc h)
rejected_or Error.hmac_key = inr (refl, λ w h. cc h)
rejected_or (Error.network t) = inr (refl, λ w h. cc h)
rejected_or (Error.logon_retryable t) = inr (refl, λ w h. cc h)
rejected_or (Error.remote t) = inr (refl, λ w h. cc h)
rejected_or (Error.auth_rate_limited t) = inr (refl, λ w h. cc h)
rejected_or (Error.token_store t) = inr (refl, λ w h. cc h)
rejected_or (Error.invalid_state a b) = inr (refl, λ w h. cc h)
rejected_or (Error.timeout s) = inr (refl, λ w h. cc h)
rejected_or (Error.not_implemented s) = inr (refl, λ w h. cc h)

module _ (connect : ℕ → Result Established) where
  -- An attempt that fails otherwise than with a rejected token, and one that does not.
  abbrev pub Misses : ℕ → Type 0
  Misses n = (e : Error) × (connect n ≡ err e) × ((why : Text) → e ≢ auth_rejected why)

  abbrev pub Settles : ℕ → Type 0
  Settles n =
      ((found : Established) × (connect n ≡ ok found))
      ⊎ ((why : Text) × (connect n ≡ err (auth_rejected why)))

  -- The attempt `k + 1` is the last one made: those before it miss, and it settles or is the fourth.
  abbrev pub IsLast : ℕ → Type 0
  IsLast k = (k < 4) × All Misses (take k (1 ∷ 2 ∷ 3 ∷ 4 ∷ [])) × (Settles (k + 1) ⊎ (k ≡ 3))

  -- What a run from attempt `n` on does next.
  attempt-cases :
      (left n backoff : ℕ) (last : Error)
      → (Settles n × (resilient_from connect (suc left) n backoff last ≡ ([], connect n)))
        ⊎ ((e : Error) × (connect n ≡ err e) × (is_fatal e ≡ false) × Misses n)
  unfolding resilient_from
  attempt-cases left n backoff last = elim (Result-cases (connect n)) [
    | inl (found, hit) ↦ inl (inl (found, hit), rw (hit, resilient_from) refl)
    | inr (e, miss) ↦ elim (rejected_or e) [
      | inl (fatal, why, here) ↦
          inl (inr (why, miss ∙ ap err here), rw (miss, fatal, resilient_from) refl)
      | inr (mild, other) ↦ inr (e, miss, mild, (e, miss, other))
    ]
  ]

  -- The first connection: for the attempt `k + 1` that is the last one made, its result is the
  -- result, whether a connection, a rejected token, or the error of the fourth attempt; and the
  -- waits are the first `k` of 1, 2 and 4 seconds, one before each further attempt.
  pub establish_resilient-IsLast :
      (k : ℕ) × IsLast k
      × ((establish_resilient connect).1 ≡ connect (k + 1))
      × ((establish_resilient connect).0 ≡ take k (1 ∷ 2 ∷ 4 ∷ []))
  unfolding establish_resilient resilient_from
  establish_resilient-IsLast =
      let start = Error.network (msg "no connect attempt ran") in
      elim (attempt-cases 3 1 1 start) [
        | inl (done, e) ↦ (0, (omega arith, tt, inl done), ap (λ r. r.1) e, ap (λ r. r.0) e)
        | inr (e1, miss1, mild1, m1) ↦ elim (attempt-cases 2 2 2 e1) [
          | inl (done, e) ↦ (
            1,
            (omega arith, (m1, tt), inl done),
            rw (miss1, mild1, resilient_from) (ap (λ r. r.1) e),
            rw (miss1, mild1, resilient_from) (ap (λ r. 1 ∷ r.0) e),
          )
          | inr (e2, miss2, mild2, m2) ↦ elim (attempt-cases 1 3 4 e2) [
            | inl (done, e) ↦ (
              2,
              (omega arith, (m1, (m2, tt)), inl done),
              rw (miss1, mild1, miss2, mild2, resilient_from) (ap (λ r. r.1) e),
              rw (miss1, mild1, miss2, mild2, resilient_from) (ap (λ r. 1 ∷ 2 ∷ r.0) e),
            )
            | inr (e3, miss3, mild3, m3) ↦ elim (attempt-cases 0 4 8 e3) [
              | inl (done, e) ↦ (
                3,
                (omega arith, (m1, (m2, (m3, tt))), inl done),
                rw (miss1, mild1, miss2, mild2, miss3, mild3, resilient_from) (ap (λ r. r.1) e),
                rw (miss1, mild1, miss2, mild2, miss3, mild3, resilient_from)
                    (ap (λ r. 1 ∷ 2 ∷ 4 ∷ r.0) e),
              )
              | inr (e4, miss4, mild4, m4) ↦ (
                3,
                (omega arith, (m1, (m2, (m3, tt))), inr refl),
                rw (miss1, mild1, miss2, mild2, miss3, mild3, miss4, mild4, resilient_from) refl,
                rw (miss1, mild1, miss2, mild2, miss3, mild3, miss4, mild4, resilient_from) refl,
              )
            ]
          ]
        ]
      ]
