-- ===== src/Persona/Summary/First.antt =====
-- Which push a request for a summary takes.
use steamroids.Prelude.{
  ℕ, ◌≡◌, ◌↔◌, refl, inl, inr, ◌/◌, ◌%◌, true, none, List, [], ◌∷◌, ◌++◌, some, All, ◌==◌,
  Bool-cases, Option-cases, arith,
}
use mathlib.Core.Option.{get_or}
use steamroids.Prelude.Find.{FirstWith, find_by-FirstWith}
use steamroids.Error.{ok, msg}
use steamroids.Wire.{Proto}
use steamroids.Codec.{SteamMessage}
use steamroids.Session.Remote.{Remote, Sent, tell}
use steamroids.Wait.{Delivery, event, Skips, All-Skips, within-FirstTaken}
use steamroids.Persona.{PlayerSummary}
use steamroids.Persona.Summary.{
  emsg_client_persona_state, emsg_client_request_friend_data, persona_flags, FriendDataMsg,
  PersonaFriend, PersonaStateMsg, find_friend, summary_of, is_full_state,
  summary_from_persona_state, take_summary, request_player_summary, found_summary,
}
use steamroids.Persona.Summary.Unrelated.{names_bit, IsUnrelated, take_summary-IsUnrelated}

-- The first entry of the player among those of a push.
abbrev pub FirstFriend : ℕ → List PersonaFriend → PersonaFriend → Type 0
FirstFriend = FirstWith (λ f. f.friendid)

module _ (p : Proto PersonaStateMsg) (steam_id : ℕ) where
  -- A push with names and an entry for the player, of which the first gives the summary.
  abbrev pub IsAnswer : SteamMessage → PlayerSummary → Type 0
  IsAnswer m found =
      (m.emsg ≡ emsg_client_persona_state)
      × (state : PersonaStateMsg) × (entry : PersonaFriend) × (p.decode m.body ≡ some state)
      × (get_or state.status_flags 0 / 2 % 2 ≡ 1)
      × FirstFriend steam_id state.friends entry
      × (summary_of steam_id entry ≡ found)

  take_summary-IsAnswer :
      (m : SteamMessage) (found : PlayerSummary)
      → (take_summary p steam_id m ≡ some (ok found)) ↔ IsAnswer m found
  unfolding take_summary summary_from_persona_state found_summary
  take_summary-IsAnswer m found = (
    (λ h. elim (Bool-cases (m.emsg == emsg_client_persona_state)) [
      | inr other ↦ absurd (cc (rw (other, take_summary) at h))
      | inl same ↦ elim (Option-cases (p.decode m.body)) [
        | inl bad ↦ absurd (cc (rw (same, bad, take_summary, summary_from_persona_state) at h))
        | inr (state, good) ↦ elim (Bool-cases (is_full_state state)) [
          | inr partial ↦
              absurd (cc (rw (same, good, partial, take_summary, summary_from_persona_state) at h))
          | inl names ↦ elim (Option-cases (find_friend steam_id state.friends)) [
            | inl missing ↦ absurd (
                cc (
                  rw
                    (
                      same, good, names, missing, take_summary, summary_from_persona_state,
                      found_summary,
                    )
                    at h))
            | inr (entry, e) ↦ (
              ground (arith, same),
              state,
              entry,
              good,
              (names_bit state).0 names,
              (find_by-FirstWith (λ f. f.friendid) steam_id state.friends entry).0 e,
              cc (
                  rw (same, good, names, e, take_summary, summary_from_persona_state, found_summary)
                    at h),
            )
          ]
        ]
      ]
    ]),
    (λ t.
        let (type, state, entry, good, bit, first, here) = t in
        let same : (m.emsg == emsg_client_persona_state) ≡ true = ground (arith, type) in
        let e = (find_by-FirstWith (λ f. f.friendid) steam_id state.friends entry).1 first in
        rw
          (
            same,
            good,
            (names_bit state).1 bit,
            e,
            here,
            take_summary,
            summary_from_persona_state,
            found_summary,
          )
          refl),
  )

  -- When the request is written, it returns `found` within its deadline exactly when among the
  -- deliveries there is a persona state with the flag for names whose first entry for the player
  -- gives `found`, and the subscription has not ended before it and every message before it is
  -- passed over: it is of another type, or a persona state that decodes without that flag or without
  -- such an entry. It asks for that player, once.
  pub request_player_summary-IsAnswer :
      (env : Remote) (q : Proto FriendDataMsg) (deliveries : List (Delivery SteamMessage))
      (sent : List Sent) (found : PlayerSummary)
      → (tell env q emsg_client_request_friend_data
          (record { persona_state_requested = some persona_flags; friends = steam_id ∷ [] })
          sent).0
        ≡ ok tt
      → (((request_player_summary env q p deliveries steam_id sent).0 ≡ ok found) ↔ (
          (before : List (Delivery SteamMessage)) × (m : SteamMessage) × (after : List
            (Delivery SteamMessage))
          × (deliveries ≡ before ++ (event m ∷ after))
          × All (Skips (IsUnrelated p steam_id)) before
          × IsAnswer m found))
        × ((request_player_summary env q p deliveries steam_id sent).1
            ≡ (
              emsg_client_request_friend_data,
              q.encode (record {
                persona_state_requested = some persona_flags;
                friends = steam_id ∷ [];
              }),
            )
              ∷ sent)
  unfolding request_player_summary tell
  request_player_summary-IsAnswer env q deliveries sent found written =
      let (forth, back) =
        within-FirstTaken (msg "session stopped") (take_summary p steam_id) "persona state"
          deliveries found in
      (
        (
          (λ h.
              let (before, m, after, shape, passed, hit) = forth (rw written at h) in
              (
                before,
                m,
                after,
                shape,
                All-Skips (λ x. take_summary p steam_id x ≡ none) (IsUnrelated p steam_id) before
                    (λ x. (take_summary-IsUnrelated p steam_id x).0) passed,
                (take_summary-IsAnswer m found).0 hit,
              )),
          (λ t.
              let (before, m, after, shape, passed, answer) = t in
              rw written (
                back (
                  before,
                  m,
                  after,
                  shape,
                  All-Skips (IsUnrelated p steam_id) (λ x. take_summary p steam_id x ≡ none) before
                      (λ x. (take_summary-IsUnrelated p steam_id x).1) passed,
                  (take_summary-IsAnswer m found).1 answer,
                ))),
        ),
        refl,
      )
