-- ===== src/Cs2/Profile.antt =====
-- Which profile a request returns.
use steamroids.Prelude.{
  ℕ, ◌≡◌, ◌≢◌, ◌∙◌, sym, ◌↔◌, refl, ap, inl, inr, Bool, true, List, ◌∷◌, ◌++◌, Option, some, All,
  Bool-cases, ◌==◌, Option-cases, arith, ◌⊎◌,
}
use steamroids.Prelude.Find.{
  FirstWith, find_by-FirstWith, find_by-Lacks, any_by, any_by-find_by, any_by-Lacks,
}
use steamroids.Error.{Error, Result, ok, err, Result-cases, ◌>>=◌}
use steamroids.Session.Remote.{Remote, Sent}
use steamroids.Wait.{Delivery, event, Skips, All-Skips, within}
use steamroids.Gc.Envelope.{GcMessage}
use steamroids.Gc.Requests
use steamroids.Gc.Requests.{wait_ready, request_matching, FirstReply, request_matching-FirstReply}
use steamroids.Gc.Coordinator.{GameCoordinator, send_gc, request_over}
use steamroids.Cs2.{
  app_id, gc_players_profile, gc_client_request_players_profile, request_level, PlayerProfile,
  AccountProfile, PlayersProfile, Cs2Protos, find_account, has_account, profile_of, profile_in,
  request_player_profile,
}

-- The first entry of an account among the profiles of a reply.
abbrev pub FirstEntry : ℕ → List AccountProfile → AccountProfile → Type 0
FirstEntry = FirstWith (λ p. p.account_id)

module _ (env : Remote) (p : Cs2Protos) (gc : GameCoordinator) (account : ℕ)
    (sent : List Sent) where
  -- A message of another type, or a reply that decodes and has no entry of the account.
  abbrev pub IsUnrelated : GcMessage → Type 0
  IsUnrelated m =
      (m.msgtype ≢ gc_players_profile)
      ⊎ ((reply : PlayersProfile) × (p.players_profile.decode m.body ≡ some reply)
          × All (λ (q : AccountProfile). q.account_id ≢ some account) reply.account_profiles)

  -- The profile is read off the first entry of the account in the first reply that has one.
  abbrev pub IsFirstProfile : List (Delivery GcMessage) → PlayerProfile → Type 0
  IsFirstProfile deliveries profile =
      (before : List (Delivery GcMessage)) × (m : GcMessage) × (after : List (Delivery GcMessage))
      × (reply : PlayersProfile) × (entry : AccountProfile) × (deliveries
          ≡ before ++ (event m ∷ after))
      × All (Skips IsUnrelated) before
      × (m.msgtype ≡ gc_players_profile)
      × (p.players_profile.decode m.body ≡ some reply)
      × FirstEntry account reply.account_profiles entry
      × (profile_of account entry ≡ profile)

  -- The same of the wait for a reply.
  abbrev IsUnwanted : GcMessage → Type 0
  IsUnwanted = Requests.IsUnrelated p.players_profile gc_players_profile (has_account account)

  IsUnrelated-IsUnwanted : (m : GcMessage) → IsUnrelated m ↔ IsUnwanted m
  unfolding has_account
  IsUnrelated-IsUnwanted m =
      let absent = λ (reply : PlayersProfile).
        any_by-Lacks (λ (q : AccountProfile). q.account_id) account reply.account_profiles in
      (
        (λ t. elim t [
          | inl other ↦ inl other
          | inr (reply, decodes, none_here) ↦ inr (reply, decodes, (absent reply).1 none_here)
        ]),
        (λ t. elim t [
          | inl other ↦ inl other
          | inr (reply, decodes, refused) ↦ inr (reply, decodes, (absent reply).0 refused)
        ]),
      )

  has_account-FirstEntry :
      (reply : PlayersProfile) (entry : AccountProfile)
      → FirstEntry account reply.account_profiles entry
      → has_account account reply ≡ true
  unfolding has_account
  has_account-FirstEntry reply entry first =
      let key = λ (q : AccountProfile). q.account_id in
      let found = (find_by-FirstWith key account reply.account_profiles entry).1 first in
      elim (Bool-cases (any_by key account reply.account_profiles)) [
        | inl here ↦ here
        | inr missing ↦
            let lacks = (any_by-Lacks key account reply.account_profiles).0 missing in
            absurd (cc (sym ((find_by-Lacks key account reply.account_profiles).1 lacks) ∙ found))
      ]

  -- A profile that is the first in this sense is read off the first reply that the wait takes.
  IsFirstProfile-FirstReply :
      (deliveries : List (Delivery GcMessage)) (profile : PlayerProfile)
      → IsFirstProfile deliveries profile ↔ (
          (reply : PlayersProfile) × (entry : AccountProfile) × FirstReply p.players_profile
            gc_players_profile
            (has_account account)
            deliveries
            reply
          × FirstEntry account reply.account_profiles entry
          × (profile_of account entry ≡ profile))
  IsFirstProfile-FirstReply deliveries profile = (
    (λ t.
        let (before, m, after, reply, entry, shape, passed, type, decodes, first, here) = t in
        let unwanted =
          All-Skips IsUnrelated IsUnwanted before (λ x. (IsUnrelated-IsUnwanted x).0) passed in
        let mentioned = has_account-FirstEntry reply entry first in
        (reply, entry, (before, m, after, shape, unwanted, type, decodes, mentioned), first, here)),
    (λ t.
        let (reply, entry, taken, first, here) = t in
        let (before, m, after, shape, unwanted, type, decodes, mentioned) = taken in
        let passed =
          All-Skips IsUnwanted IsUnrelated before (λ x. (IsUnrelated-IsUnwanted x).1) unwanted in
        (before, m, after, reply, entry, shape, passed, type, decodes, first, here)),
  )

  profile_in-FirstEntry :
      (reply : PlayersProfile) (profile : PlayerProfile)
      → (profile_in account reply ≡ ok profile) ↔ (
          (entry : AccountProfile) × FirstEntry account reply.account_profiles entry
          × (profile_of account entry ≡ profile))
  unfolding profile_in
  profile_in-FirstEntry reply profile = (
    (λ h. elim (Option-cases (find_account account reply.account_profiles)) [
      | inl missing ↦ absurd (cc (rw (missing, profile_in) at h))
      | inr (entry, e) ↦ (
        entry,
        (find_by-FirstWith (λ q. q.account_id) account reply.account_profiles entry).0 e,
        cc (rw (e, profile_in) at h),
      )
    ]),
    (λ t.
        let (entry, first, here) = t in
        rw
          (
            (find_by-FirstWith (λ q. q.account_id) account reply.account_profiles entry).1 first,
            profile_in,
          )
          (ap ok here)),
  )

  -- The wait of the request, once the coordinator is ready and the request is sent.
  abbrev pub waited : List (Option Bool) → List (Delivery GcMessage) → Result PlayersProfile
  waited changes deliveries =
      request_matching p.players_profile gc_players_profile (has_account account) true changes
        (ok tt) deliveries

  waited-has_account :
      (changes : List (Option Bool)) (deliveries : List (Delivery GcMessage))
      (reply : PlayersProfile)
      → waited changes deliveries ≡ ok reply
      → (found : PlayerProfile) × (profile_in account reply ≡ ok found)
  unfolding has_account profile_in
  waited-has_account changes deliveries reply h =
      let (before, m, after, shape, passed, type, decodes, taken) =
        (request_matching-FirstReply p.players_profile gc_players_profile (has_account account)
            changes deliveries reply).0
          h in
      let (entry, e) = any_by-find_by (λ q. q.account_id) account reply.account_profiles taken in
      (profile_of account entry, rw (e, profile_in) refl)

  module _ (changes : List (Option Bool)) (deliveries : List (Delivery GcMessage)) where
    requested : Result PlayerProfile × List Sent
    requested =
        request_player_profile env p gc
          (record { ready_now = true; changes = changes; deliveries = deliveries }) account sent

    requested-waited :
        gc.app.appid ≡ app_id
        → (send_gc env gc gc_client_request_players_profile p.profile_request
            (record { account_id = some account; request_level = some request_level })
            sent).0
          ≡ ok tt
        → requested.0 ≡ (waited changes deliveries >>= profile_in account)
    unfolding requested request_player_profile request_over wait_ready within
    requested-waited cs2 written =
        let same : (gc.app.appid == app_id) ≡ true = ground (arith, cs2) in rw (same, written) refl

    -- At a coordinator of CS2 that is ready and takes the request, a request for a profile returns
    -- `profile` exactly when it is read off the first entry for the account in a reply, every message
    -- before that reply is of another type or decodes and has no entry for the account, and the
    -- subscription has not ended before it. It returns such a profile or fails with an error of the wait, never for want of an
    -- entry in the reply.
    pub request_player_profile-IsFirstProfile :
        (profile : PlayerProfile)
        → gc.app.appid ≡ app_id
        → (send_gc env gc gc_client_request_players_profile p.profile_request
            (record { account_id = some account; request_level = some request_level })
            sent).0
          ≡ ok tt
        → (((request_player_profile env p gc
                (record { ready_now = true; changes = changes; deliveries = deliveries })
                account
                sent).0
              ≡ ok profile)
            ↔ IsFirstProfile deliveries profile)
          × (((found : PlayerProfile) × ((request_player_profile env p gc
                    (record { ready_now = true; changes = changes; deliveries = deliveries })
                    account
                    sent).0
                  ≡ ok found))
              ⊎ ((e : Error) × ((request_player_profile env p gc
                      (record { ready_now = true; changes = changes; deliveries = deliveries })
                      account
                      sent).0
                    ≡ err e)
                  × (waited changes deliveries ≡ err e)))
    unfolding requested
    request_player_profile-IsFirstProfile profile cs2 written =
        let whole = requested-waited cs2 written in
        let replies =
          request_matching-FirstReply p.players_profile gc_players_profile (has_account account)
            changes deliveries in
        (
          (
            (λ h. elim (Result-cases (waited changes deliveries)) [
              | inl (reply, got) ↦
                  let (entry, first, here) =
                    (profile_in-FirstEntry reply profile).0 (rw got at (sym whole ∙ h)) in
                  (IsFirstProfile-FirstReply deliveries profile).1
                    (reply, entry, (replies reply).0 got, first, here)
              | inr (e, failed) ↦ absurd (cc (rw failed at (sym whole ∙ h)))
            ]),
            (λ t.
                let (reply, entry, first_reply, first, here) =
                  (IsFirstProfile-FirstReply deliveries profile).0 t in
                whole
                ∙ rw ((replies reply).1 first_reply)
                    ((profile_in-FirstEntry reply profile).1 (entry, first, here))),
          ),
          elim (Result-cases (waited changes deliveries)) [
            | inl (reply, got) ↦
                let (found, good) = waited-has_account changes deliveries reply got in
                inl (found, whole ∙ rw got good)
            | inr (e, failed) ↦ inr (e, whole ∙ rw failed refl, failed)
          ],
        )
