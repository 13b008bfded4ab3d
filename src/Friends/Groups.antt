-- ===== src/Friends/Groups.antt =====
-- src/friends.rs: `add_friends_to_group` and `remove_friends_from_group`.
--
-- The two loops have one shape, which is written once here: a request for every friend in turn, up
-- to the first that is rejected.
pub mod Members
use steamroids.Prelude.{ℕ, String, List, [], ◌∷◌, Option, some, Bool, true}
use steamroids.Prelude.Int.{ℤ, pos}
use steamroids.Error.{Text, num, Result, ok, err}
use steamroids.Wire.{Proto}
use steamroids.Session.Remote.{Remote, Sent}
use steamroids.Friends.Messages.{FriendProtos, AmResponse}
use steamroids.Friends.Actions.{am_request}

abbrev pub emsg_am_client_add_friend_to_group : ℕ
emsg_am_client_add_friend_to_group = 5566

abbrev pub emsg_am_client_remove_friend_from_group : ℕ
emsg_am_client_remove_friend_from_group = 5568

-- `CMsgClientAddFriendToGroup` and `CMsgClientRemoveFriendFromGroup`.
pub record MemberMsg : Type 0 where
  pub groupid : Option ℤ
  pub steamiduser : Option ℕ

abbrev pub member_msg : ℤ → ℕ → MemberMsg
member_msg group_id sid = record { groupid = some group_id; steamiduser = some sid }

abbrev pub member_error : String → ℤ → ℕ → ℕ → Text
member_error template group_id sid code = record {
  template = template;
  parts = num (pos sid) ∷ num group_id ∷ num (pos code) ∷ [];
}

unfoldable pub change_members :
    Remote
    → FriendProtos
    → Proto MemberMsg
    → ℕ
    → String
    → ℤ
    → List ℕ
    → List Sent
    → Result (Unit {0}) × List Sent
unfolding am_request
change_members env p q emsg template group_id [] sent = (ok tt, sent)
change_members env p q emsg template group_id (sid ∷ steam_ids) sent =
    let (r, sent') =
      am_request env p q emsg (member_msg group_id sid) (member_error template group_id sid) sent in
    let rest = change_members env p q emsg template group_id steam_ids sent' in
    elim r [ ok u ↦ rest | err e ↦ (err e, sent') ]

unfoldable pub add_friends_to_group :
    Remote → FriendProtos → Proto MemberMsg → ℤ → List ℕ → List Sent → Result (Unit {0}) × List Sent
unfolding change_members
add_friends_to_group env p q =
    change_members env p q emsg_am_client_add_friend_to_group
      "add friend {sid} to group {group_id}: eresult {code}"

unfoldable pub remove_friends_from_group :
    Remote → FriendProtos → Proto MemberMsg → ℤ → List ℕ → List Sent → Result (Unit {0}) × List Sent
unfolding change_members
remove_friends_from_group env p q =
    change_members env p q emsg_am_client_remove_friend_from_group
      "remove friend {sid} from group {group_id}: eresult {code}"
