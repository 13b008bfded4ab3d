-- ===== src/Cs2.antt =====
-- src/cs2.rs: the profile of a CS2 player, asked of the Game Coordinator of CS2.
--
-- The generated messages carry the fields that the code reads or writes; their serialisers are
-- parameters.
pub mod Profile
mod Runs
use steamroids.Prelude.{
  ℕ, ◌%◌, ◌^◌, Bool, true, false, List, [], ◌∷◌, Option, some, none, not, ◌||◌, ◌==◌, if◌then◌else◌,
}
use mathlib.Core.Option.{get_or}
use steamroids.Prelude.Find.{find_by, any_by}
use steamroids.Prelude.Int.{ℤ, pos}
use steamroids.Error.{Result, ok, err, invalid_config, network, msg1, msg2, ◌>>=◌}
use steamroids.Wire.{Proto}
use steamroids.Codec.{decode_or}
use steamroids.Session.Remote.{Remote, Sent}
use steamroids.Gc.{GcProtos}
use steamroids.Gc.Coordinator.{GameCoordinator, attach, PumpView, request_over}

abbrev pub app_id : ℕ
app_id = 730

abbrev pub gc_hello_version : ℕ
gc_hello_version = 2_000_244

abbrev pub gc_client_request_players_profile : ℕ
gc_client_request_players_profile = 9127

abbrev pub gc_players_profile : ℕ
gc_players_profile = 9128

abbrev pub request_level : ℕ
request_level = 32

pub record PlayerProfile : Type 0 where
  pub account_id : ℕ
  pub level : ℤ
  pub current_xp : ℤ
  pub competitive_rank : Option ℕ
  pub competitive_wins : Option ℕ
  pub medals : List ℕ
  pub featured_medal : Option ℕ

-- `CMsgGccStrike15V2ClientRequestPlayersProfile`.
pub record ProfileRequest : Type 0 where
  pub account_id : Option ℕ
  pub request_level : Option ℕ

-- `PlayerRankingInfo` and `PlayerMedalsInfo`.
pub record Ranking : Type 0 where
  pub rank_id : Option ℕ
  pub wins : Option ℕ

pub record Medals : Type 0 where
  pub display_items_defidx : List ℕ
  pub featured_display_item_defidx : Option ℕ

-- `CMsgGccStrike15V2MatchmakingGc2ClientHello`, and the list of them in
-- `CMsgGccStrike15V2PlayersProfile`.
pub record AccountProfile : Type 0 where
  pub account_id : Option ℕ
  pub ranking : Option Ranking
  pub medals : Option Medals
  pub player_level : Option ℤ
  pub player_cur_xp : Option ℤ

pub record PlayersProfile : Type 0 where
  pub account_profiles : List AccountProfile

pub record Cs2Protos : Type 0 where
  pub profile_request : Proto ProfileRequest
  pub players_profile : Proto PlayersProfile

unfoldable pub attach_cs2 : Remote → GcProtos → List Sent → Result GameCoordinator × List Sent
unfolding attach
attach_cs2 env p =
    attach env (record { appid = app_id; hello_version = gc_hello_version; protos = p })

abbrev pub find_account : ℕ → List AccountProfile → Option AccountProfile
find_account = find_by (λ p. p.account_id)

unfoldable pub has_account : ℕ → PlayersProfile → Bool
unfolding any_by
has_account account r = any_by (λ p. p.account_id) account r.account_profiles

unfoldable pub profile_of : ℕ → AccountProfile → PlayerProfile
profile_of account p = record {
  account_id = account;
  level = get_or p.player_level (pos 0);
  current_xp = get_or p.player_cur_xp (pos 0);
  competitive_rank = elim p.ranking [ none ↦ none | some r ↦ r.rank_id ];
  competitive_wins = elim p.ranking [ none ↦ none | some r ↦ r.wins ];
  medals = elim p.medals [ none ↦ [] | some m ↦ m.display_items_defidx ];
  featured_medal = elim p.medals [ none ↦ none | some m ↦ m.featured_display_item_defidx ];
}

unfoldable pub profile_in : ℕ → PlayersProfile → Result PlayerProfile
unfolding find_by profile_of
profile_in account r = elim (find_account account r.account_profiles) [
  | none ↦ err (network (msg1 "GC PlayersProfile carried no profile for account {id}" account))
  | some p ↦ ok (profile_of account p)
]

unfoldable pub request_player_profile :
    Remote
    → Cs2Protos
    → GameCoordinator
    → PumpView
    → ℕ
    → List Sent
    → Result PlayerProfile × List Sent
unfolding request_over has_account profile_in
request_player_profile env p gc view account sent =
    let (response, sent') =
      request_over env gc view gc_client_request_players_profile p.profile_request
        (record { account_id = some account; request_level = some request_level }) p.players_profile
        gc_players_profile (has_account account) sent in
    if not (gc.app.appid == app_id)
    then (
      err (
          invalid_config
            (msg2 "GameCoordinator is attached to app {}, not CS2 ({APP_ID})" gc.app.appid app_id)),
      sent,
    )
    else (response >>= profile_in account, sent')

-- `steam_id as u32`.
unfoldable pub account_id_from_steam_id : ℕ → ℕ
account_id_from_steam_id steam_id = steam_id % 2 ^ 32
