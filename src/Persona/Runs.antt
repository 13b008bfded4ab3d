-- ===== src/Persona/Runs.antt =====
-- Requests for a profile at concrete inputs.
use steamroids.Prelude.{ℕ, ◌≡◌, ◌↔◌, refl, true, List, [], ◌∷◌, ◌++◌, some, none, All}
use steamroids.Prelude.Text.{codes}
use steamroids.Prelude.Parse.{parse_u64, parse_unsigned, parse_number, parse_digits, push_digit}
use steamroids.Prelude.Split.{split_once, strip_prefix, trim, trim_start, trim_end_reversed}
use steamroids.Error.{ok}
use steamroids.Wire.{Proto, default_header}
use steamroids.Codec.{SteamMessage}
use steamroids.Wait.{Delivery, event, gap, Skips}
use steamroids.Session.Handle.{notify_result, expired}
use steamroids.Session.Remote.{Remote, tell}
use steamroids.Persona.{avatar_url_sized, medium, hash_to_hex, hex_digit, all_zero}
use steamroids.Persona.Summary.{
  FriendDataMsg, PersonaFriend, PersonaStateMsg, request_player_summary, summary_of,
}
use steamroids.Persona.Summary.Unrelated.{IsUnrelated}
use steamroids.Persona.Summary.First.{IsAnswer, request_player_summary-IsAnswer}
use steamroids.Persona.Web.{extract_steam_id64}

vanity_id : extract_steam_id64 (codes "<a><steamID64> 76 </steamID64>") ≡ some 76
unfolding extract_steam_id64 split_once strip_prefix trim trim_start trim_end_reversed parse_u64
    parse_unsigned parse_number parse_digits push_digit
vanity_id = refl

avatar :
    avatar_url_sized (1 ∷ 0xAB ∷ []) medium
    ≡ codes "https://avatars.steamstatic.com/01ab_medium.jpg"
unfolding avatar_url_sized all_zero hash_to_hex hex_digit
avatar = refl

abbrev player : PersonaFriend
player = record {
  friendid = some 76;
  persona_state = none;
  game_played_app_id = some 730;
  gameid = none;
  game_name = none;
  player_name = some (codes "bo");
  avatar_hash = none;
}

abbrev states : Proto PersonaStateMsg
states = record {
  encode = λ m. [];
  decode = λ bytes. some (record { status_flags = some 339; friends = player ∷ [] });
}

abbrev asks : Proto FriendDataMsg
asks = record { encode = λ m. m.friends; decode = λ bytes. none }

abbrev remote_side : Remote
remote_side = record {
  queued = λ sent. true;
  replies = λ sent. expired;
  acks = λ sent. some (ok tt);
}

abbrev push : ℕ → SteamMessage
push emsg = record { emsg = emsg; header = default_header; body = [] }

abbrev deliveries : List (Delivery SteamMessage)
deliveries = event (push 767) ∷ gap ∷ event (push 766) ∷ []

request_player_summary-IsAnswer_example :
    (((request_player_summary remote_side asks states deliveries 76 []).0
        ≡ ok (summary_of 76 player))
      ↔ ((before : List (Delivery SteamMessage)) × (m : SteamMessage) × (after : List
            (Delivery SteamMessage))
          × (deliveries ≡ before ++ (event m ∷ after))
          × All (Skips (IsUnrelated states 76)) before
          × IsAnswer states 76 m (summary_of 76 player)))
    × ((request_player_summary remote_side asks states deliveries 76 []).1 ≡ (815, 76 ∷ []) ∷ [])
unfolding tell notify_result
request_player_summary-IsAnswer_example =
    request_player_summary-IsAnswer states 76 remote_side asks deliveries [] (summary_of 76 player)
      refl
