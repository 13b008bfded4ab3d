-- ===== src/Friends/Lists.antt =====
-- src/friends.rs: `request_friends_list`, `request_nicknames` and `request_friends_groups_list`.
--
-- The three have one shape, which is written once here: subscribe, read the cached snapshot, and
-- else wait for the first full list.
pub mod Full
pub mod Snapshot
use steamroids.Prelude.{
  ℕ, String, ◌≡◌, ◌∙◌, sym, ◌↔◌, refl, ap, subst, inl, inr, ◌⊎◌, Bool, true, false, List, [], ◌∷◌,
  ◌++◌, Option, some, none, All, ◌==◌, if◌then◌else◌, Bool-cases, Option-cases, arith,
}
use steamroids.Error.{Text, Result, ok, err, codec, msg}
use steamroids.Wire.{Bytes, Proto}
use steamroids.Codec.{SteamMessage}
use steamroids.Wait.{
  Delivery, event, gap, closed, await_event, within, Passed, FirstTaken, within-FirstTaken,
}
use steamroids.Friends.{
  FriendsList, NicknameList, GroupsList, Friend, Nickname, FriendsGroup, is_full_friends,
  is_full_nicknames, is_full_groups, friends_from, nicknames_from, groups_from,
}

abbrev pub emsg_client_friends_list : ℕ
emsg_client_friends_list = 767

abbrev pub emsg_client_friends_groups_list : ℕ
emsg_client_friends_groups_list = 5553

abbrev pub emsg_client_player_nickname_list : ℕ
emsg_client_player_nickname_list = 5587

-- What sets the three requests apart: `L` is the generated message and `B` what callers get.
pub record ListKind (L B : Type 0) : Type 0 where
  pub emsg : ℕ
  pub proto : Proto L
  pub undecodable : Text
  pub is_full : L → Bool
  pub from_list : L → B
  -- The name of the timeout.
  pub what : String

abbrev pub friends_kind : Proto FriendsList → ListKind FriendsList (List Friend)
friends_kind p = record {
  emsg = emsg_client_friends_list;
  proto = p;
  undecodable = msg "decode friends list: {e}";
  is_full = is_full_friends;
  from_list = friends_from;
  what = "friends list";
}

abbrev pub nicknames_kind : Proto NicknameList → ListKind NicknameList (List Nickname)
nicknames_kind p = record {
  emsg = emsg_client_player_nickname_list;
  proto = p;
  undecodable = msg "decode nicknames: {e}";
  is_full = is_full_nicknames;
  from_list = nicknames_from;
  what = "nicknames list";
}

abbrev pub groups_kind : Proto GroupsList → ListKind GroupsList (List FriendsGroup)
groups_kind p = record {
  emsg = emsg_client_friends_groups_list;
  proto = p;
  undecodable = msg "decode groups list: {e}";
  is_full = is_full_groups;
  from_list = groups_from;
  what = "friends groups list";
}

module _ {L B : Type 0} where
  -- What a body of the list's type decides: a full list ends the request, a delta is passed over.
  unfoldable pub read_body : ListKind L B → Bytes → Option (Result B)
  read_body k body = elim (k.proto.decode body) [
    | none ↦ some (err (codec k.undecodable))
    | some list ↦ if k.is_full list then some (ok (k.from_list list)) else none
  ]

  unfoldable pub take_list : ListKind L B → SteamMessage → Option (Result B)
  unfolding read_body
  take_list k m = if m.emsg == k.emsg then read_body k m.body else none

  read_cache : ListKind L B → Option Bytes → Option (Result B)
  unfolding read_body
  read_cache k none = none
  read_cache k (some body) = read_body k body

  -- `cached` is what `cached_snapshot` returns, and the deliveries are those of a subscription that
  -- is older.
  unfoldable pub request_list :
      ListKind L B → Option Bytes → List (Delivery SteamMessage) → Result B
  unfolding read_cache take_list within await_event
  request_list k cached deliveries = elim (read_cache k cached) [
    | some r ↦ r
    | none ↦ within k.what (await_event (msg "session stopped") (take_list k) deliveries)
  ]

unfoldable pub request_friends_list :
    Proto FriendsList → Option Bytes → List (Delivery SteamMessage) → Result (List Friend)
unfolding request_list
request_friends_list p = request_list (friends_kind p)

unfoldable pub request_nicknames :
    Proto NicknameList → Option Bytes → List (Delivery SteamMessage) → Result (List Nickname)
unfolding request_list
request_nicknames p = request_list (nicknames_kind p)

unfoldable pub request_friends_groups_list :
    Proto GroupsList → Option Bytes → List (Delivery SteamMessage) → Result (List FriendsGroup)
unfolding request_list
request_friends_groups_list p = request_list (groups_kind p)
