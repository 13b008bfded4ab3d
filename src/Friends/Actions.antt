-- ===== src/Friends/Actions.antt =====
-- src/friends.rs: the operations that send one request or notification.
use steamroids.Prelude.{
  ℕ, ◌&&◌, not, true, false, List, [], Option, some, none, ◌==◌, if◌then◌else◌,
}
use mathlib.Core.Option.{get_or}
use steamroids.Prelude.Int.{ℤ, pos, is_code}
use steamroids.Error.{Error, Text, Result, ok, err, remote, msg, msg1, msg_int, ◌>>=◌}
use steamroids.Error.Eresult
use steamroids.Wire.{Bytes, Proto}
use steamroids.Session.Remote.{Remote, Sent, ask, tell}
use steamroids.Friends.Messages.{AddFriendResponse, FriendProtos}
use steamroids.Friends.{AddedFriend, NewFriendsGroup, text, typing, raw}

abbrev pub emsg_client_remove_friend : ℕ
emsg_client_remove_friend = 714

abbrev pub emsg_client_add_friend : ℕ
emsg_client_add_friend = 791

abbrev pub emsg_client_friend_msg : ℕ
emsg_client_friend_msg = 718

abbrev pub emsg_client_hide_friend : ℕ
emsg_client_hide_friend = 5552

abbrev pub emsg_am_client_set_player_nickname : ℕ
emsg_am_client_set_player_nickname = 5588

abbrev pub emsg_am_client_create_friends_group : ℕ
emsg_am_client_create_friends_group = 5560

abbrev pub emsg_am_client_delete_friends_group : ℕ
emsg_am_client_delete_friends_group = 5562

abbrev pub emsg_am_client_manage_friends_group : ℕ
emsg_am_client_manage_friends_group = 5564

-- A rejection with a code behind a text.
abbrev pub code_or_fail : Option ℕ → ℕ
code_or_fail code = get_or code Eresult.fail

-- The check of an unsigned code; `why` makes the error's text of it.
unfoldable pub accepted : (ℕ → Text) → Option ℕ → Result (Unit {0})
accepted why eresult =
    let code = code_or_fail eresult in if code == Eresult.ok then ok tt else err (remote (why code))

-- `filter(|&id| id != 0).ok_or_else(…)`.
nonzero_or : Error → Option ℕ → Result ℕ
nonzero_or e none = err e
nonzero_or e (some id) = if id == 0 then err e else ok id

unfoldable pub added : AddFriendResponse → Result AddedFriend
unfolding nonzero_or
added response =
    let code = get_or response.eresult (pos Eresult.fail) in
    let friend : ℕ → AddedFriend = λ id. record {
      steam_id = id;
      persona_name = get_or response.persona_name_added [];
      eresult = code;
    } in
    if not (is_code code Eresult.ok) && not (is_code code Eresult.duplicate_request)
    then err (remote (msg_int "add friend: eresult {code}" code))
    else (nonzero_or (remote (msg_int "add friend: eresult {code}, no steam id" code))
          response.steam_id_added
        >>= λ id. ok (friend id))

unfoldable pub add_friend : Remote → FriendProtos → ℕ → List Sent → Result AddedFriend × List Sent
unfolding ask added
add_friend env p steam_id sent =
    let (response, sent') =
      ask env p.add_friend p.add_friend_response false emsg_client_add_friend
        (record { steamid_to_add = some steam_id }) sent in
    (response >>= added, sent')

unfoldable pub remove_friend : Remote → FriendProtos → ℕ → List Sent → Result (Unit {0}) × List Sent
unfolding tell
remove_friend env p steam_id =
    tell env p.remove_friend emsg_client_remove_friend (record { friendid = some steam_id })

unfoldable pub hide_friend : Remote → FriendProtos → ℕ → List Sent → Result (Unit {0}) × List Sent
unfolding tell
hide_friend env p steam_id =
    tell env p.hide_friend emsg_client_hide_friend
      (record { friendid = some steam_id; hide = some true })

unfoldable pub unhide_friend : Remote → FriendProtos → ℕ → List Sent → Result (Unit {0}) × List Sent
unfolding tell
unhide_friend env p steam_id =
    tell env p.hide_friend emsg_client_hide_friend
      (record { friendid = some steam_id; hide = some false })

unfoldable pub send_message :
    Remote → FriendProtos → ℕ → Bytes → List Sent → Result (Unit {0}) × List Sent
unfolding tell raw
send_message env p steam_id line =
    tell env p.friend_msg emsg_client_friend_msg
      (record { steamid = some steam_id; chat_entry_type = some (raw text); message = some line })

unfoldable pub send_typing : Remote → FriendProtos → ℕ → List Sent → Result (Unit {0}) × List Sent
unfolding tell raw
send_typing env p steam_id =
    tell env p.friend_msg emsg_client_friend_msg
      (record { steamid = some steam_id; chat_entry_type = some (raw typing); message = none })

-- A request to the AM whose response carries nothing but a code.
unfoldable pub am_request :
    {Q : Type 0}
    → Remote
    → FriendProtos
    → Proto Q
    → ℕ
    → Q
    → (ℕ → Text)
    → List Sent
    → Result (Unit {0}) × List Sent
unfolding ask accepted
am_request env p q emsg req why sent =
    let (response, sent') = ask env q p.am_response true emsg req sent in
    (response >>= λ r. accepted why r.eresult, sent')

unfoldable pub set_nickname :
    Remote → FriendProtos → ℕ → Bytes → List Sent → Result (Unit {0}) × List Sent
unfolding am_request
set_nickname env p steam_id nickname =
    am_request env p p.set_nickname emsg_am_client_set_player_nickname
      (record { steamid = some steam_id; nickname = some nickname })
      (msg1 "set nickname: eresult {code}")

unfoldable pub clear_nickname :
    Remote → FriendProtos → ℕ → List Sent → Result (Unit {0}) × List Sent
unfolding am_request
clear_nickname env p steam_id =
    am_request env p p.set_nickname emsg_am_client_set_player_nickname
      (record { steamid = some steam_id; nickname = some [] })
      (msg1 "clear nickname: eresult {code}")

group_id_or : Option ℤ → Result ℤ
group_id_or none = err (remote (msg "create friends group: OK without a groupid"))
group_id_or (some id) = ok id

unfoldable pub create_friends_group :
    Remote → FriendProtos → Bytes → List ℕ → List Sent → Result NewFriendsGroup × List Sent
unfolding ask accepted group_id_or
create_friends_group env p name members sent =
    let (response, sent') =
      ask env p.create_group p.create_group_response true emsg_am_client_create_friends_group
        (record { steamid = none; groupname = some name; steamid_friends = members }) sent in
    let group : ℤ → Result NewFriendsGroup = λ id. ok (record { group_id = id; name = name }) in
    (
      response >>= λ r. accepted (msg1 "create friends group: eresult {code}") r.eresult >>= λ u.
          group_id_or r.groupid >>= group,
      sent',
    )

unfoldable pub delete_friends_group :
    Remote → FriendProtos → ℤ → List Sent → Result (Unit {0}) × List Sent
unfolding am_request
delete_friends_group env p group_id =
    am_request env p p.delete_group emsg_am_client_delete_friends_group
      (record { steamid = none; groupid = some group_id })
      (msg1 "delete friends group: eresult {code}")

unfoldable pub rename_friends_group :
    Remote → FriendProtos → ℤ → Bytes → List Sent → Result (Unit {0}) × List Sent
unfolding am_request
rename_friends_group env p group_id new_name =
    am_request env p p.manage_group emsg_am_client_manage_friends_group
      (record {
        groupid = some group_id;
        groupname = some new_name;
        steamid_friends_added = [];
        steamid_friends_removed = [];
      })
      (msg1 "rename friends group: eresult {code}")
