-- ===== src/Persona.antt =====
-- src/persona.rs: the data of a profile, and the URLs that are derived from it.
pub mod Summary
pub mod Info
pub mod Web
mod Runs
use steamroids.Prelude.{
  ℕ, ◌+◌, ◌-◌, ◌/◌, ◌%◌, Bool, true, false, List, [], ◌∷◌, ◌++◌, Option, ◌==◌, ◌&&◌, ltb,
  if◌then◌else◌,
}
use steamroids.Prelude.Text.{codes, decimal}
use steamroids.Wire.{Bytes}

abbrev pub avatar_host : Bytes
avatar_host = codes "https://avatars.steamstatic.com/"

abbrev pub default_avatar_hash : Bytes
default_avatar_hash = codes "fef49e7fa7e1997310d705b2a6158ff8dc1cdfeb"

pub data PersonaState : Type 0 where
  offline online busy away snooze looking_to_trade looking_to_play invisible : PersonaState
  unknown_state : ℕ → PersonaState

unfoldable pub persona_state_from_raw : ℕ → PersonaState
persona_state_from_raw value =
    if value == 0
    then offline
    else if value == 1
    then online
    else if value == 2
    then busy
    else if value == 3
    then away
    else if value == 4
    then snooze
    else if value == 5
    then looking_to_trade
    else if value == 6
    then looking_to_play
    else if value == 7
    then invisible
    else unknown_state value

pub record CurrentGame : Type 0 where
  pub app_id : ℕ
  pub game_id : ℕ
  pub name : Bytes

pub record PlayerSummary : Type 0 where
  pub steam_id : ℕ
  pub persona_name : Bytes
  pub profile_url : Bytes
  pub avatar_url : Bytes
  pub avatar_hash : Bytes
  pub state : PersonaState
  pub current_game : Option CurrentGame

pub record ProfileInfo : Type 0 where
  pub steam_id : ℕ
  pub real_name : Option Bytes
  pub country : Option Bytes
  pub state : Option Bytes
  pub city : Option Bytes
  pub summary : Option Bytes
  pub created_at : Option ℕ

unfoldable pub profile_url_of : ℕ → Bytes
profile_url_of steam_id = codes "https://steamcommunity.com/profiles/" ++ decimal steam_id

pub data AvatarSize : Type 0 where
  small medium full : AvatarSize

abbrev pub suffix : AvatarSize → Bytes
suffix small = []
suffix medium = codes "_medium"
suffix full = codes "_full"

unfoldable pub hex_digit : ℕ → ℕ
hex_digit d = if ltb d 10 then b'0' + d else b'a' + (d - 10)

unfoldable pub hash_to_hex : Bytes → Bytes
unfolding hex_digit
hash_to_hex [] = []
hash_to_hex (b ∷ bs) = hex_digit (b / 16) ∷ hex_digit (b % 16) ∷ hash_to_hex bs

unfoldable pub all_zero : Bytes → Bool
all_zero [] = true
all_zero (b ∷ bs) = b == 0 && all_zero bs

-- `all` is true of an empty hash too.
unfoldable pub avatar_url_sized : Bytes → AvatarSize → Bytes
unfolding hash_to_hex all_zero
avatar_url_sized hash size =
    let hex = if all_zero hash then default_avatar_hash else hash_to_hex hash in
    avatar_host ++ (hex ++ (suffix size ++ codes ".jpg"))

unfoldable pub avatar_url_of : Bytes → Bytes
unfolding avatar_url_sized
avatar_url_of hash = avatar_url_sized hash full
