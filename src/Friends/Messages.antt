-- ===== src/Friends/Messages.antt =====
-- The generated messages of src/friends.rs, with the fields that the code sets or reads, and their
-- serialisers.
use steamroids.Prelude.{ℕ, Bool, List, Option}
use steamroids.Prelude.Int.{ℤ}
use steamroids.Wire.{Bytes, Proto}

pub record AddFriendMsg : Type 0 where
  pub steamid_to_add : Option ℕ

pub record AddFriendResponse : Type 0 where
  pub eresult : Option ℤ
  pub steam_id_added : Option ℕ
  pub persona_name_added : Option Bytes

pub record RemoveFriendMsg : Type 0 where
  pub friendid : Option ℕ

pub record HideFriendMsg : Type 0 where
  pub friendid : Option ℕ
  pub hide : Option Bool

pub record FriendMsg : Type 0 where
  pub steamid : Option ℕ
  pub chat_entry_type : Option ℤ
  pub message : Option Bytes

pub record SetNicknameMsg : Type 0 where
  pub steamid : Option ℕ
  pub nickname : Option Bytes

pub record CreateGroupMsg : Type 0 where
  pub steamid : Option ℕ
  pub groupname : Option Bytes
  pub steamid_friends : List ℕ

pub record CreateGroupResponse : Type 0 where
  pub eresult : Option ℕ
  pub groupid : Option ℤ

pub record DeleteGroupMsg : Type 0 where
  pub steamid : Option ℕ
  pub groupid : Option ℤ

pub record ManageGroupMsg : Type 0 where
  pub groupid : Option ℤ
  pub groupname : Option Bytes
  pub steamid_friends_added : List ℕ
  pub steamid_friends_removed : List ℕ

-- The responses of the AM, of which only the unsigned code is read.
pub record AmResponse : Type 0 where
  pub eresult : Option ℕ

-- The serialisers of these messages.
pub record FriendProtos : Type 0 where
  pub add_friend : Proto AddFriendMsg
  pub add_friend_response : Proto AddFriendResponse
  pub remove_friend : Proto RemoveFriendMsg
  pub hide_friend : Proto HideFriendMsg
  pub friend_msg : Proto FriendMsg
  pub set_nickname : Proto SetNicknameMsg
  pub create_group : Proto CreateGroupMsg
  pub create_group_response : Proto CreateGroupResponse
  pub delete_group : Proto DeleteGroupMsg
  pub manage_group : Proto ManageGroupMsg
  pub am_response : Proto AmResponse
