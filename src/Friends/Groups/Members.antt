-- ===== src/Friends/Groups/Members.antt =====
-- How far the loops over the friends of a group go.
use steamroids.Prelude.{
  ℕ, String, ◌≡◌, ◌∙◌, sym, ◌⊎◌, ◌↔◌, refl, ap, inl, inr, Bool-cases, true, List, [], ◌∷◌, ◌++◌,
  Option, some, none, ◌==◌, arith,
}
use steamroids.Prelude.Int.{ℤ}
use steamroids.Error.{Text, Error, Result, ok, err, Result-cases}
use steamroids.Error.Eresult
use steamroids.Wire.{Proto}
use steamroids.Session.Handle.{dispatch_request, dispatch_request-Obtains, Obtains}
use steamroids.Session.Remote.{Remote, Sent, ask}
use steamroids.Friends.Messages.{FriendProtos, AmResponse}
use steamroids.Friends.Actions.{am_request, accepted}
use steamroids.Friends.Groups.{
  MemberMsg, member_msg, member_error, change_members, add_friends_to_group,
  remove_friends_from_group, emsg_am_client_add_friend_to_group,
  emsg_am_client_remove_friend_from_group,
}

accepted-ok :
    (why : ℕ → Text) (code : Option ℕ) → (accepted why code ≡ ok tt) ↔ (code ≡ some Eresult.ok)
unfolding accepted
accepted-ok why none = ((λ h. absurd (cc h)), (λ h. absurd (cc h)))
accepted-ok why (some c) = elim (Bool-cases (c == Eresult.ok)) [
  | inl same ↦ ((λ h. ap some (ground (arith, same))), (λ e. rw (same, accepted) refl))
  | inr other ↦ (
    (λ h. absurd (cc (rw (other, accepted) at h))),
    (λ e. absurd (let here : c ≡ Eresult.ok = cc in ground (arith, other, here))),
  )
]

module _ (env : Remote) (p : FriendProtos) (q : Proto MemberMsg) (emsg : ℕ) (group_id : ℤ) where
  -- The history with the request for a friend, and with those for some friends in turn.
  abbrev pub with_member : ℕ → List Sent → List Sent
  with_member sid sent = (emsg, q.encode (member_msg group_id sid)) ∷ sent

  abbrev pub with_members : List ℕ → List Sent → List Sent
  with_members [] sent = sent
  with_members (sid ∷ sids) sent = with_members sids (with_member sid sent)

  -- The newest request of a history is answered with the code for success.
  abbrev pub IsGranted : List Sent → Type 0
  IsGranted now =
      (r : AmResponse) × Obtains p.am_response (env.queued now) (env.replies now) true r
      × (r.eresult ≡ some Eresult.ok)

  abbrev pub AllGranted : List ℕ → List Sent → Type 0
  AllGranted [] sent = Unit {0}
  AllGranted (sid ∷ sids) sent =
      IsGranted (with_member sid sent) × AllGranted sids (with_member sid sent)

  -- Either all are granted and sent, or the first that is not granted is the last that was sent.
  abbrev pub Stops : List ℕ → List Sent → Result (Unit {0}) × List Sent → Type 0
  Stops steam_ids sent after =
      (AllGranted steam_ids sent × (after ≡ (ok tt, with_members steam_ids sent)))
      ⊎ ((done : List ℕ) × (sid : ℕ) × (rest : List ℕ) × (e : Error) × (steam_ids
            ≡ done ++ (sid ∷ rest))
          × AllGranted done sent
          × (IsGranted (with_members (done ++ (sid ∷ [])) sent) → ⊥)
          × (after ≡ (err e, with_members (done ++ (sid ∷ [])) sent)))

  module _ (template : String) where
    one : ℕ → List Sent → Result (Unit {0}) × List Sent
    one sid = am_request env p q emsg (member_msg group_id sid) (member_error template group_id sid)

    one-sent : (sid : ℕ) (sent : List Sent) → (one sid sent).1 ≡ with_member sid sent
    unfolding one am_request ask
    one-sent sid sent = refl

    one-IsGranted :
        (sid : ℕ) (sent : List Sent) → ((one sid sent).0 ≡ ok tt) ↔ IsGranted (with_member sid sent)
    unfolding one am_request ask
    one-IsGranted sid sent =
        let now = with_member sid sent in
        let why = member_error template group_id sid in
        let answer : Result AmResponse =
          dispatch_request p.am_response (env.queued now) (env.replies now) true in
        (
          (λ h. elim (Result-cases answer) [
            | inl (r, good) ↦ (
              r,
              (dispatch_request-Obtains p.am_response true r (env.queued now) (env.replies now)).0
                  good,
              (accepted-ok why r.eresult).0 (rw good at h),
            )
            | inr (e, bad) ↦ absurd (cc (rw bad at h))
          ]),
          (λ g.
              let (r, obtains, code) = g in
              rw
                ((dispatch_request-Obtains p.am_response true r (env.queued now)
                    (env.replies now)).1
                  obtains)
                ((accepted-ok why r.eresult).1 code)),
        )

    loop : List ℕ → List Sent → Result (Unit {0}) × List Sent
    loop = change_members env p q emsg template group_id

    loop-granted :
        (sid : ℕ) (sids : List ℕ) (sent : List Sent)
        → (one sid sent).0 ≡ ok tt
        → loop (sid ∷ sids) sent ≡ loop sids (with_member sid sent)
    unfolding loop change_members one am_request ask
    loop-granted sid sids sent good = rw (good, loop, change_members) refl

    loop-rejected :
        (sid : ℕ) (sids : List ℕ) (sent : List Sent) (e : Error)
        → (one sid sent).0 ≡ err e
        → loop (sid ∷ sids) sent ≡ (err e, with_member sid sent)
    unfolding loop change_members one am_request ask
    loop-rejected sid sids sent e bad = rw (bad, loop, change_members) refl

    loop-Stops :
        (steam_ids : List ℕ) (sent : List Sent) → Stops steam_ids sent (loop steam_ids sent)
    unfolding loop change_members
    loop-Stops [] sent = inl (tt, refl)
    loop-Stops (sid ∷ sids) sent =
        let next = with_member sid sent in
        let (granted, answers) = one-IsGranted sid sent in
        elim (Result-cases (one sid sent).0) [
          | inl (u, good) ↦
              let step = loop-granted sid sids sent good in
              elim (loop-Stops sids next) [
                | inl (all, now) ↦ inl ((granted good, all), step ∙ now)
                | inr (done, last, rest, e, shape, all, refused, now) ↦ inr (
                  sid ∷ done,
                  last,
                  rest,
                  e,
                  ap (◌∷◌ sid) shape,
                  (granted good, all),
                  refused,
                  step ∙ now,
                )
              ]
          | inr (e, bad) ↦ inr (
            [],
            sid,
            sids,
            e,
            refl,
            tt,
            (λ g. cc (sym bad ∙ answers g)),
            loop-rejected sid sids sent e bad,
          )
        ]

-- A change of a group's friends sends one request for each of them in the given order and stops at
-- the first that is not granted. Either all are granted, and then all were sent and the result is
-- success: the driver took each request and answered it in time, the header has no code or that of
-- success, and the body decodes with the code of success. Or it fails: the requests before the last
-- that it sent were granted, and the last was not. This holds of adding friends and of removing them.
pub change_members-Stops :
    (env : Remote) (p : FriendProtos) (q : Proto MemberMsg) (group_id : ℤ) (steam_ids : List ℕ)
    (sent : List Sent)
    → Stops env p q emsg_am_client_add_friend_to_group group_id steam_ids sent
        (add_friends_to_group env p q group_id steam_ids sent)
      × Stops env p q emsg_am_client_remove_friend_from_group group_id steam_ids sent
          (remove_friends_from_group env p q group_id steam_ids sent)
unfolding add_friends_to_group remove_friends_from_group loop
change_members-Stops env p q group_id steam_ids sent = (
  loop-Stops env p q emsg_am_client_add_friend_to_group group_id
      "add friend {sid} to group {group_id}: eresult {code}" steam_ids sent,
  loop-Stops env p q emsg_am_client_remove_friend_from_group group_id
      "remove friend {sid} from group {group_id}: eresult {code}" steam_ids sent,
)
