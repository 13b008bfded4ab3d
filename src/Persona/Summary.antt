-- ===== src/Persona/Summary.antt =====
-- src/persona.rs: `request_player_summary`, which waits for a push that answers it.
pub mod Unrelated
pub mod First
use steamroids.Prelude.{
  ℕ, ◌%◌, ◌^◌, bit_and, Bool, false, List, [], ◌∷◌, Option, some, none, not, ◌&&◌, ◌==◌,
  if◌then◌else◌,
}
use mathlib.Core.Option.{get_or}
use steamroids.Prelude.Find.{find_by}
use steamroids.Error.{Result, ok, err, codec, msg, ◌>>=◌}
use steamroids.Wire.{Bytes, Proto}
use steamroids.Codec.{SteamMessage}
use steamroids.Session.Remote.{Remote, Sent, tell}
use steamroids.Wait.{Delivery, await_event, within}
use steamroids.Persona.{
  PlayerSummary, CurrentGame, profile_url_of, avatar_url_of, hash_to_hex, persona_state_from_raw,
}

abbrev pub emsg_client_persona_state : ℕ
emsg_client_persona_state = 766

abbrev pub emsg_client_request_friend_data : ℕ
emsg_client_request_friend_data = 815

-- 1 | 2 | 16 | 64 | 256.
abbrev pub persona_flags : ℕ
persona_flags = 339

abbrev pub required_summary_flags : ℕ
required_summary_flags = 2

-- `CMsgClientRequestFriendData` and `CMsgClientPersonaState` with its entries.
pub record FriendDataMsg : Type 0 where
  pub persona_state_requested : Option ℕ
  pub friends : List ℕ

pub record PersonaFriend : Type 0 where
  pub friendid : Option ℕ
  pub persona_state : Option ℕ
  pub game_played_app_id : Option ℕ
  pub gameid : Option ℕ
  pub game_name : Option Bytes
  pub player_name : Option Bytes
  pub avatar_hash : Option Bytes

pub record PersonaStateMsg : Type 0 where
  pub status_flags : Option ℕ
  pub friends : List PersonaFriend

abbrev pub find_friend : ℕ → List PersonaFriend → Option PersonaFriend
find_friend = find_by (λ f. f.friendid)

-- The app id, or else the low 32 bits of the game id.
unfoldable pub game_of : PersonaFriend → Option CurrentGame
game_of f =
    let game_id = get_or f.gameid 0 in
    let app_id = get_or f.game_played_app_id 0 in
    if app_id == 0 && game_id == 0
    then none
    else some (record {
      app_id = if app_id == 0 then game_id % 2 ^ 32 else app_id;
      game_id = game_id;
      name = get_or f.game_name [];
    })

unfoldable pub summary_of : ℕ → PersonaFriend → PlayerSummary
unfolding game_of profile_url_of avatar_url_of hash_to_hex persona_state_from_raw
summary_of steam_id f =
    let avatar = get_or f.avatar_hash [] in
    record {
      steam_id = steam_id;
      persona_name = get_or f.player_name [];
      profile_url = profile_url_of steam_id;
      avatar_url = avatar_url_of avatar;
      avatar_hash = hash_to_hex avatar;
      state = persona_state_from_raw (get_or f.persona_state 0);
      current_game = game_of f;
    }

-- Whether a push carries names.
unfoldable pub is_full_state : PersonaStateMsg → Bool
is_full_state state =
    bit_and (get_or state.status_flags 0) required_summary_flags == required_summary_flags

unfoldable pub found_summary : ℕ → PersonaStateMsg → Option PlayerSummary
unfolding find_by summary_of
found_summary steam_id state = elim (find_friend steam_id state.friends) [
  | none ↦ none
  | some f ↦ some (summary_of steam_id f)
]

unfoldable pub summary_from_persona_state :
    Proto PersonaStateMsg → SteamMessage → ℕ → Result (Option PlayerSummary)
unfolding is_full_state found_summary
summary_from_persona_state p m steam_id = elim (p.decode m.body) [
  | none ↦ err (codec (msg "decode persona state: {e}"))
  | some state ↦ if is_full_state state then ok (found_summary steam_id state) else ok none
]

-- `Ok(None)` is passed over.
abbrev pub settled : {A : Type 0} → Result (Option A) → Option (Result A)
settled (ok none) = none
settled (ok (some a)) = some (ok a)
settled (err e) = some (err e)

unfoldable pub take_summary :
    Proto PersonaStateMsg → ℕ → SteamMessage → Option (Result PlayerSummary)
unfolding summary_from_persona_state
take_summary p steam_id m =
    if m.emsg == emsg_client_persona_state
    then settled (summary_from_persona_state p m steam_id)
    else none

-- The deliveries are those of a subscription that is older than the request.
unfoldable pub request_player_summary :
    Remote
    → Proto FriendDataMsg
    → Proto PersonaStateMsg
    → List (Delivery SteamMessage)
    → ℕ
    → List Sent
    → Result PlayerSummary × List Sent
unfolding tell within await_event take_summary
request_player_summary env q p deliveries steam_id sent =
    let (written, sent') =
      tell env q emsg_client_request_friend_data
        (record { persona_state_requested = some persona_flags; friends = steam_id ∷ [] }) sent in
    let answer =
      within "persona state"
        (await_event (msg "session stopped") (take_summary p steam_id) deliveries) in
    (written >>= λ u. answer, sent')
