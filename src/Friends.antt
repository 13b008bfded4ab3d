-- ===== src/Friends.antt =====
-- src/friends.rs: the friends of an account. This file has the data and the mapping of the generated
-- messages, of which it keeps the fields that the code sets or reads.
pub mod Lists
pub mod Messages
pub mod Actions
pub mod Groups
mod Runs
use steamroids.Prelude.{
  ℕ, ◌&&◌, not, Bool, true, false, List, [], ◌∷◌, Option, some, none, ◌==◌, if◌then◌else◌,
}
use mathlib.Core.Option.{get_or}
use steamroids.Prelude.Int.{ℤ, pos, negsuc, is_code}
use steamroids.Wire.{Bytes, Proto}

pub data FriendRelationship : Type 0 where
  no_relationship blocked request_recipient friend request_initiator ignored ignored_friend :
      FriendRelationship
  unknown : ℕ → FriendRelationship

unfoldable pub relationship_from_raw : ℕ → FriendRelationship
relationship_from_raw value =
    if value == 0
    then no_relationship
    else if value == 1
    then blocked
    else if value == 2
    then request_recipient
    else if value == 3
    then friend
    else if value == 4
    then request_initiator
    else if value == 5
    then ignored
    else if value == 6
    then ignored_friend
    else unknown value

pub record Friend : Type 0 where
  pub steam_id : ℕ
  pub relationship : FriendRelationship

pub record AddedFriend : Type 0 where
  pub steam_id : ℕ
  pub persona_name : Bytes
  pub eresult : ℤ

pub record Nickname : Type 0 where
  pub steam_id : ℕ
  pub nickname : Bytes

pub record FriendsGroup : Type 0 where
  pub group_id : ℤ
  pub name : Bytes
  pub members : List ℕ

pub record NewFriendsGroup : Type 0 where
  pub group_id : ℤ
  pub name : Bytes

pub data ChatEntryType : Type 0 where
  text typing invite_game : ChatEntryType
  unknown : ℤ → ChatEntryType

unfoldable pub raw : ChatEntryType → ℤ
raw text = pos 1
raw typing = pos 2
raw invite_game = pos 3
raw (ChatEntryType.unknown other) = other

unfoldable pub chat_from_raw : ℤ → ChatEntryType
chat_from_raw value =
    if is_code value 1
    then text
    else if is_code value 2
    then typing
    else if is_code value 3
    then invite_game
    else ChatEntryType.unknown value

-- The generated `CMsgClientFriendsList`, `CMsgClientPlayerNicknameList` and
-- `CMsgClientFriendsGroupsList` with their entries.
pub record ProtoFriend : Type 0 where
  pub ulfriendid : Option ℕ
  pub efriendrelationship : Option ℕ

pub record FriendsList : Type 0 where
  pub bincremental : Option Bool
  pub friends : List ProtoFriend

pub record PlayerNickname : Type 0 where
  pub steamid : Option ℕ
  pub nickname : Option Bytes

pub record NicknameList : Type 0 where
  pub removal : Option Bool
  pub incremental : Option Bool
  pub nicknames : List PlayerNickname

pub record ProtoFriendGroup : Type 0 where
  pub n_group_id : Option ℤ
  pub str_group_name : Option Bytes

pub record ProtoMembership : Type 0 where
  pub ul_steam_id : Option ℕ
  pub n_group_id : Option ℤ

pub record GroupsList : Type 0 where
  pub bremoval : Option Bool
  pub bincremental : Option Bool
  pub friend_groups : List ProtoFriendGroup
  pub memberships : List ProtoMembership

-- `bincremental != Some(true)`.
unfoldable pub is_full_friends : FriendsList → Bool
is_full_friends list = elim list.bincremental [
  | some true ↦ false
  | some false ↦ true
  | none ↦ true
]

unfoldable pub is_full_nicknames : NicknameList → Bool
is_full_nicknames list = not (get_or list.incremental false) && not (get_or list.removal false)

unfoldable pub is_full_groups : GroupsList → Bool
is_full_groups list = not (get_or list.bincremental false) && not (get_or list.bremoval false)

-- `filter_map`.
unfoldable pub filter_map : {A B : Type 0} → (A → Option B) → List A → List B
filter_map f [] = []
filter_map f (x ∷ xs) = let rest = filter_map f xs in elim (f x) [ none ↦ rest | some y ↦ y ∷ rest ]

friend_of : ProtoFriend → Option Friend
friend_of f = elim f.ulfriendid [
  | none ↦ none
  | some id ↦ some (record {
    steam_id = id;
    relationship = relationship_from_raw (get_or f.efriendrelationship 0);
  })
]

unfoldable pub friends_from : FriendsList → List Friend
unfolding filter_map friend_of
friends_from list = filter_map friend_of list.friends

nickname_of : PlayerNickname → Option Nickname
nickname_of n = elim n.steamid [
  | none ↦ none
  | some id ↦ some (record { steam_id = id; nickname = get_or n.nickname [] })
]

unfoldable pub nicknames_from : NicknameList → List Nickname
unfolding filter_map nickname_of
nicknames_from list = filter_map nickname_of list.nicknames

same_group : ℤ → Option ℤ → Bool
same_group (pos n) (some (pos m)) = n == m
same_group (negsuc n) (some (negsuc m)) = n == m
same_group (pos n) (some (negsuc m)) = false
same_group (negsuc n) (some (pos m)) = false
same_group id none = false

member_of : ℤ → ProtoMembership → Option ℕ
unfolding same_group
member_of group_id m = if same_group group_id m.n_group_id then m.ul_steam_id else none

group_of : List ProtoMembership → ProtoFriendGroup → Option FriendsGroup
unfolding filter_map member_of
group_of memberships g = elim g.n_group_id [
  | none ↦ none
  | some id ↦ some (record {
    group_id = id;
    name = get_or g.str_group_name [];
    members = filter_map (member_of id) memberships;
  })
]

unfoldable pub groups_from : GroupsList → List FriendsGroup
unfolding group_of
groups_from list = filter_map (group_of list.memberships) list.friend_groups
