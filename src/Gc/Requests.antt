-- ===== src/Gc/Requests.antt =====
-- src/gc/coordinator.rs: `wait_ready` and `request_matching`, which wait for the pump.
--
-- What the pump delivers is a list; where it ends, the wait goes on until the deadline.
use steamroids.Prelude.{
  ℕ, ◌∙◌, sym, subst, ◌≡◌, ◌≢◌, ◌⊎◌, ◌↔◌, refl, ap, inl, inr, Bool, true, false, List, [], ◌∷◌,
  ◌++◌, Option, some, none, ◌==◌, if◌then◌else◌, All, Bool-cases, Option-cases, arith,
}
use steamroids.Error.{Result, ok, err, web_socket, codec, msg, ◌>>=◌}
use steamroids.Wire.{Proto}
use steamroids.Wait.{Delivery, event, within, await_event, Skips, All-Skips, within-FirstTaken}
use steamroids.Gc.Envelope.{GcMessage}

-- The changes of the readiness (`none`: the pump is gone).
unfoldable pub await_ready : List (Option Bool) → Option (Result (Unit {0}))
await_ready [] = none
await_ready (none ∷ changes) = some (err (web_socket (msg "GC pump stopped")))
await_ready (some true ∷ changes) = some (ok tt)
await_ready (some false ∷ changes) = await_ready changes

unfoldable pub wait_ready : Bool → List (Option Bool) → Option (Result (Unit {0}))
unfolding await_ready
wait_ready true changes = some (ok tt)
wait_ready false changes = await_ready changes

-- What one message means to a request: a reply to take, a failure, or nothing.
unfoldable pub match_reply : {M : Type 0} → Proto M → ℕ → (M → Bool) → GcMessage → Option (Result M)
match_reply p response_type accept m =
    if m.msgtype == response_type
    then (elim (p.decode m.body) [
      | none ↦ some (err (codec (msg "decode GC response: {e}")))
      | some decoded ↦ if accept decoded then some (ok decoded) else none
    ])
    else none

unfoldable pub await_reply :
    {M : Type 0} → Proto M → ℕ → (M → Bool) → List (Delivery GcMessage) → Option (Result M)
unfolding await_event match_reply
await_reply p response_type accept =
    await_event (msg "GC pump stopped") (match_reply p response_type accept)

-- The readiness at the start and its changes, the result of the send, and what is delivered then.
unfoldable pub request_matching :
    {M : Type 0}
    → Proto M
    → ℕ
    → (M → Bool)
    → Bool
    → List (Option Bool)
    → Result (Unit {0})
    → List (Delivery GcMessage)
    → Result M
unfolding within wait_ready await_reply
request_matching p response_type accept ready_now changes sent deliveries = do
  u ← within "GC welcome" (wait_ready ready_now changes)
  v ← sent
  within "GC response" (await_reply p response_type accept deliveries)

module _ {M : Type 0} (p : Proto M) (response_type : ℕ) (accept : M → Bool) where
  -- A message of another type, or a reply that decodes and is not accepted.
  abbrev pub IsUnrelated : GcMessage → Type 0
  IsUnrelated m =
      (m.msgtype ≢ response_type)
      ⊎ ((decoded : M) × (p.decode m.body ≡ some decoded) × (accept decoded ≡ false))

  -- The first message that is not unrelated is a reply that decodes as `found`.
  abbrev pub FirstReply : List (Delivery GcMessage) → M → Type 0
  FirstReply deliveries found =
      (before : List (Delivery GcMessage)) × (m : GcMessage) × (after : List (Delivery GcMessage))
      × (deliveries ≡ before ++ (event m ∷ after))
      × All (Skips IsUnrelated) before
      × (m.msgtype ≡ response_type)
      × (p.decode m.body ≡ some found)
      × (accept found ≡ true)

  match_reply-IsUnrelated :
      (m : GcMessage) → (match_reply p response_type accept m ≡ none) ↔ IsUnrelated m
  unfolding match_reply
  match_reply-IsUnrelated m = elim (Bool-cases (m.msgtype == response_type)) [
    | inr other ↦ (
      (λ h. inl (λ same. absurd (ground (arith, other, same)))),
      (λ t. rw (other, match_reply) refl),
    )
    | inl same ↦ elim (Option-cases (p.decode m.body)) [
      | inl undecodable ↦ (
        (λ h. absurd (cc (rw (same, undecodable, match_reply) at h))),
        (λ t. elim t [
          | inl other ↦ absurd (other (ground (arith, same)))
          | inr (decoded, decodes, refused) ↦ absurd (cc (sym undecodable ∙ decodes))
        ]),
      )
      | inr (decoded, decodes) ↦ elim (Bool-cases (accept decoded)) [
        | inl taken ↦ (
          (λ h. absurd (cc (rw (same, decodes, taken, match_reply) at h))),
          (λ t. elim t [
            | inl other ↦ absurd (other (ground (arith, same)))
            | inr (decoded', decodes', refused) ↦ rw (same, decodes', refused, match_reply) refl
          ]),
        )
        | inr refused ↦ (
          (λ h. inr (decoded, decodes, refused)),
          (λ t. rw (same, decodes, refused, match_reply) refl),
        )
      ]
    ]
  ]

  match_reply-ok :
      (m : GcMessage) (found : M)
      → (match_reply p response_type accept m ≡ some (ok found))
        ↔ ((m.msgtype ≡ response_type) × (p.decode m.body ≡ some found) × (accept found ≡ true))
  unfolding match_reply
  match_reply-ok m found = elim (Bool-cases (m.msgtype == response_type)) [
    | inr other ↦ (
      (λ h. absurd (cc (rw (other, match_reply) at h))),
      (λ t. let (same, decodes, taken) = t in absurd (ground (arith, other, same))),
    )
    | inl same ↦ elim (Option-cases (p.decode m.body)) [
      | inl undecodable ↦ (
        (λ h. absurd (cc (rw (same, undecodable, match_reply) at h))),
        (λ t. let (type, decodes, taken) = t in absurd (cc (sym undecodable ∙ decodes))),
      )
      | inr (decoded, decodes) ↦ elim (Bool-cases (accept decoded)) [
        | inl taken ↦ (
          (λ h.
              let here : decoded ≡ found = cc (rw (same, decodes, taken, match_reply) at h) in
              (
                ground (arith, same),
                decodes ∙ ap some here,
                subst (λ (x : M). accept x ≡ true) here taken,
              )),
          (λ t. let (type, decodes', taken') = t in rw (same, decodes', taken', match_reply) refl),
        )
        | inr passed ↦ (
          (λ h. absurd (cc (rw (same, decodes, passed, match_reply) at h))),
          (λ t. let (type, decodes', taken') = t in rw (same, decodes', taken', match_reply) refl),
        )
      ]
    ]
  ]

  -- A request that waits for a coordinator which is ready, and whose send went through, returns
  -- `found` exactly when among the deliveries there is a message of the response type which decodes
  -- as `found` and is accepted, and the subscription has not ended before it and every message before
  -- it is of another type, or decodes and is not accepted.
  pub request_matching-FirstReply :
      (changes : List (Option Bool)) (deliveries : List (Delivery GcMessage)) (found : M)
      → (request_matching p response_type accept true changes (ok tt) deliveries ≡ ok found)
        ↔ FirstReply deliveries found
  unfolding request_matching await_reply wait_ready
  request_matching-FirstReply changes deliveries found =
      let (forth, back) =
        within-FirstTaken (msg "GC pump stopped") (match_reply p response_type accept) "GC response"
          deliveries found in
      (
        (λ h.
            let (before, m, after, shape, passed, hit) = forth h in
            let (type, decodes, taken) = (match_reply-ok m found).0 hit in
            (
              before,
              m,
              after,
              shape,
              All-Skips (λ x. match_reply p response_type accept x ≡ none) IsUnrelated before
                  (λ x. (match_reply-IsUnrelated x).0) passed,
              type,
              decodes,
              taken,
            )),
        (λ first.
            let (before, m, after, shape, passed, type, decodes, taken) = first in
            back (
              before,
              m,
              after,
              shape,
              All-Skips IsUnrelated (λ x. match_reply p response_type accept x ≡ none) before
                  (λ x. (match_reply-IsUnrelated x).1) passed,
              (match_reply-ok m found).1 (type, decodes, taken),
            )),
      )
