-- ===== src/Persona/Summary/Unrelated.antt =====
-- Which pushes a request for a summary passes over.
use steamroids.Prelude.{
  ℕ, ◌≡◌, ◌≢◌, ◌⊎◌, ◌∙◌, sym, ◌↔◌, refl, inl, inr, ◌/◌, ◌%◌, true, false, none, some, All, ◌==◌,
  Bool-cases, Option-cases, arith,
}
use mathlib.Core.Option.{get_or}
use steamroids.Prelude.Bits.{bit_and-single}
use steamroids.Prelude.Find.{find_by-Lacks}
use steamroids.Wire.{Proto}
use steamroids.Codec.{SteamMessage}
use steamroids.Persona.Summary.{
  emsg_client_persona_state, PersonaFriend, PersonaStateMsg, find_friend, is_full_state,
  summary_from_persona_state, take_summary, found_summary, settled,
}

-- The second lowest bit of the flags says that a push carries names.
pub names_bit :
    (state : PersonaStateMsg)
    → (is_full_state state ≡ true) ↔ (get_or state.status_flags 0 / 2 % 2 ≡ 1)
unfolding is_full_state
names_bit state =
    let bit = bit_and-single 1 (get_or state.status_flags 0) in
    ((λ h. ground (arith, bit, h)), (λ h. ground (arith, bit, h)))

names_off :
    (state : PersonaStateMsg)
    → is_full_state state ≡ false
    → get_or state.status_flags 0 / 2 % 2 ≡ 0
names_off state h = elim (Bool-cases (get_or state.status_flags 0 / 2 % 2 == 1)) [
  | inl on ↦ absurd (cc (sym h ∙ (names_bit state).1 (ground (arith, on))))
  | inr off ↦ ground (arith, off)
]

off_names :
    (state : PersonaStateMsg)
    → get_or state.status_flags 0 / 2 % 2 ≡ 0
    → is_full_state state ≡ false
off_names state h = elim (Bool-cases (is_full_state state)) [
  | inl on ↦ absurd (omega (arith, h, (names_bit state).0 on))
  | inr off ↦ off
]

module _ (p : Proto PersonaStateMsg) (steam_id : ℕ) where
  -- A message of another type, or a push that decodes without names or without the player.
  abbrev pub IsUnrelated : SteamMessage → Type 0
  IsUnrelated m =
      (m.emsg ≢ emsg_client_persona_state)
      ⊎ ((state : PersonaStateMsg) × (p.decode m.body ≡ some state)
          × ((get_or state.status_flags 0 / 2 % 2 ≡ 0)
              ⊎ All (λ (f : PersonaFriend). f.friendid ≢ some steam_id) state.friends))

  summary-IsUnrelated :
      (m : SteamMessage)
      → (m.emsg == emsg_client_persona_state) ≡ true
      → (settled (summary_from_persona_state p m steam_id) ≡ none) ↔ IsUnrelated m
  unfolding summary_from_persona_state found_summary
  summary-IsUnrelated m same = (
    (λ h. elim (Option-cases (p.decode m.body)) [
      | inl bad ↦ absurd (cc (rw (bad, summary_from_persona_state) at h))
      | inr (state, good) ↦ elim (Bool-cases (is_full_state state)) [
        | inr partial ↦ inr (state, good, inl (names_off state partial))
        | inl names ↦ elim (Option-cases (find_friend steam_id state.friends)) [
          | inl missing ↦ inr (
            state,
            good,
            inr ((find_by-Lacks (λ f. f.friendid) steam_id state.friends).0 missing),
          )
          | inr (entry, e) ↦
              absurd (cc (rw (good, names, e, summary_from_persona_state, found_summary) at h))
        ]
      ]
    ]),
    (λ t. elim t [
      | inl other ↦ absurd (other (ground (arith, same)))
      | inr (state, good, inl off) ↦ rw (good, off_names state off, summary_from_persona_state) refl
      | inr (state, good, inr absent) ↦
          let missing = (find_by-Lacks (λ f. f.friendid) steam_id state.friends).1 absent in
          elim (Bool-cases (is_full_state state)) [
            | inr partial ↦ rw (good, partial, summary_from_persona_state) refl
            | inl names ↦ rw (good, names, missing, summary_from_persona_state, found_summary) refl
          ]
    ]),
  )

  pub take_summary-IsUnrelated :
      (m : SteamMessage) → (take_summary p steam_id m ≡ none) ↔ IsUnrelated m
  unfolding take_summary
  take_summary-IsUnrelated m = elim (Bool-cases (m.emsg == emsg_client_persona_state)) [
    | inl same ↦ rw (same, take_summary) (summary-IsUnrelated m same)
    | inr other ↦ (
      (λ h. inl (λ same. absurd (ground (arith, other, same)))),
      (λ t. rw (other, take_summary) refl),
    )
  ]
