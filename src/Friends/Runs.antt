-- ===== src/Friends/Runs.antt =====
-- The requests of the friends module at concrete inputs.
use steamroids.Prelude.{
  ℕ, zero, suc, ◌++◌, ◌↔◌, inl, inr, ◌≡◌, refl, true, List, [], ◌∷◌, Option, some, none, map, take,
  length, arith,
}
use steamroids.Prelude.Int.{pos}
use steamroids.Error.{ok, err, remote, num}
use mathlib.Core.Option.{get_or}
use steamroids.Wire.{Bytes, Proto, LoggedOffMsg, default_header}
use steamroids.Wire.Samples.{header_proto, multi_proto}
use steamroids.Codec.{SteamMessage, encode_raw, to_le_bytes, from_le_bytes, try_decode}
use steamroids.Wait.{Delivery, event, gap}
use steamroids.Session.Handle.{answered, dispatch_request, decoded_reply, received_reply, checked}
use steamroids.Session.Remote.{Remote, ask}
use steamroids.Session.Connection.{message, binary, read_message}
use steamroids.Session.Driver.{cached, dispatch, target_of, find, check_reply_eresult, is_snapshot}
use steamroids.Session.Driver.Connected.{Services, Driver, Event, arrival, reading, connected, step}
use steamroids.Session.Driver.Routing.{first_broadcast}
use steamroids.Friends.{
  Friend, friend, FriendsList, ProtoFriend, friends_from, filter_map, is_full_friends,
  relationship_from_raw,
}
use steamroids.Friends.Lists.{friends_kind, request_list}
use steamroids.Friends.Lists.Full.{IsDelta, IsFullList, FirstFull, request_list-FirstFull}
use steamroids.Friends.Lists.Snapshot.{broadcasts, request_list-connected}
use steamroids.Friends.Messages.{FriendProtos, AmResponse}
use steamroids.Friends.Actions.{am_request, accepted}
use steamroids.Friends.Groups.{
  MemberMsg, change_members, add_friends_to_group, remove_friends_from_group,
  emsg_am_client_add_friend_to_group, emsg_am_client_remove_friend_from_group,
}
use steamroids.Friends.Groups.Members.{Stops, change_members-Stops}

-- A full list starts with 0 and a delta with 1; then come the ids of friends.
abbrev entry : ℕ → ProtoFriend
entry id = record { ulfriendid = some id; efriendrelationship = some 3 }

abbrev read_list : Bytes → Option FriendsList
read_list [] = none
read_list (zero ∷ ids) = some (record { bincremental = none; friends = map entry ids })
read_list (suc n ∷ ids) = some (record { bincremental = some true; friends = map entry ids })

abbrev list_proto : Proto FriendsList
list_proto = record { encode = λ list. []; decode = read_list }

abbrev list_message : Bytes → SteamMessage
list_message body = record { emsg = 767; header = default_header; body = body }

abbrev found : List Friend
found = record { steam_id = 7; relationship = friend } ∷ []

-- Another message, a gap, a delta, then the full list.
abbrev deliveries : List (Delivery SteamMessage)
deliveries =
    event (record { emsg = 766; header = default_header; body = [] })
    ∷ gap
    ∷ event (list_message (1 ∷ 9 ∷ []))
    ∷ event (list_message (0 ∷ 7 ∷ []))
    ∷ []

seven-IsFullList : IsFullList (friends_kind list_proto) (0 ∷ 7 ∷ []) found
unfolding is_full_friends friends_from filter_map relationship_from_raw
seven-IsFullList = (record { bincremental = none; friends = entry 7 ∷ [] }, refl, refl, refl)

nine-IsDelta : IsDelta (friends_kind list_proto) (1 ∷ 9 ∷ [])
unfolding is_full_friends
nine-IsDelta = (record { bincremental = some true; friends = entry 9 ∷ [] }, refl, refl)

deliveries-FirstFull : FirstFull (friends_kind list_proto) deliveries found
deliveries-FirstFull = (
  take 3 deliveries,
  list_message (0 ∷ 7 ∷ []),
  [],
  refl,
  (inl (λ e. absurd (omega arith)), (tt, (inr nine-IsDelta, tt))),
  refl,
  seven-IsFullList,
)

request_list-FirstFull_example :
    (request_list (friends_kind list_proto) (some (1 ∷ 9 ∷ [])) deliveries ≡ ok found)
    ↔ FirstFull (friends_kind list_proto) deliveries found
request_list-FirstFull_example =
    request_list-FirstFull (friends_kind list_proto) (some (1 ∷ 9 ∷ [])) deliveries found
      nine-IsDelta

took_full : request_list (friends_kind list_proto) (some (1 ∷ 9 ∷ [])) deliveries ≡ ok found
took_full =
    (request_list-FirstFull (friends_kind list_proto) (some (1 ∷ 9 ∷ [])) deliveries found
        nine-IsDelta).1
      deliveries-FirstFull

-- The driver that hears a delta, and then a full list.
abbrev logged_off_proto : Proto LoggedOffMsg
logged_off_proto = record { encode = λ m. []; decode = λ bytes. none }

abbrev services : Services
services = record {
  codecs = record {
    header_proto = header_proto;
    multi_proto = multi_proto;
    inflate = λ bytes limit. some (take limit bytes);
  };
  logged_off_proto = logged_off_proto;
}

abbrev driver : Driver
driver = record {
  steam_id = 7;
  session_id = pos 3;
  heartbeat = 9;
  next_jobid = 1;
  routes = record { pending = []; snapshots = [] };
  reader = record { unread = []; inbox = []; last_frame = 0 };
}

abbrev heard : Bytes → List Event
heard body =
    arrival (message (binary (encode_raw header_proto 767 default_header body))) 2 ∷ reading ∷ []

first_heard :
    first_broadcast 767 (
      (connected services driver []).outs
      ++ (connected services (connected services driver []).driver (heard (0 ∷ 7 ∷ []))).outs)
    ≡ some (0 ∷ 7 ∷ [])
unfolding connected try_decode from_le_bytes encode_raw to_le_bytes step read_message dispatch
    target_of find first_broadcast
first_heard = refl

request_list-connected_example :
    request_list
      (friends_kind list_proto)
      (cached 767 (connected services driver []).driver.routes.snapshots)
      (broadcasts
        (connected services (connected services driver []).driver (heard (0 ∷ 7 ∷ []))).outs)
    ≡ ok found
unfolding cached is_snapshot
request_list-connected_example =
    request_list-connected (friends_kind list_proto) services driver [] (heard (0 ∷ 7 ∷ []))
      (0 ∷ 7 ∷ []) found refl refl first_heard seven-IsFullList

-- The other side grants what it is asked twice and then says that it failed.
abbrev code_after : ℕ → ℕ
code_after n = elim n [
  | zero ↦ 2
  | suc m ↦ elim m [ zero ↦ 1 | suc k ↦ elim k [ zero ↦ 1 | suc j ↦ 2 ] ]
]

abbrev remote_side : Remote
remote_side = record {
  queued = λ sent. true;
  replies = λ sent.
      answered
        (ok (record { emsg = 1; header = default_header; body = code_after (length sent) ∷ [] }));
  acks = λ sent. some (ok tt);
}

abbrev silent : {M : Type 0} → Proto M
silent = record { encode = λ m. []; decode = λ bytes. none }

abbrev read_code : Bytes → Option AmResponse
read_code [] = none
read_code (code ∷ rest) = some (record { eresult = some code })

abbrev friend_protos : FriendProtos
friend_protos = record {
  add_friend = silent;
  add_friend_response = silent;
  remove_friend = silent;
  hide_friend = silent;
  friend_msg = silent;
  set_nickname = silent;
  create_group = silent;
  create_group_response = silent;
  delete_group = silent;
  manage_group = silent;
  am_response = record { encode = λ m. []; decode = read_code };
}

abbrev member_proto : Proto MemberMsg
member_proto = record { encode = λ m. get_or m.steamiduser 0 ∷ []; decode = λ bytes. none }

stops_at_third :
    add_friends_to_group remote_side friend_protos member_proto (pos 5) (11 ∷ 12 ∷ 13 ∷ 14 ∷ []) []
    ≡ (
      err (
          remote (record {
            template = "add friend {sid} to group {group_id}: eresult {code}";
            parts = num (pos 13) ∷ num (pos 5) ∷ num (pos 2) ∷ [];
          })),
      (5566, 13 ∷ []) ∷ (5566, 12 ∷ []) ∷ (5566, 11 ∷ []) ∷ [],
    )
unfolding add_friends_to_group change_members am_request ask accepted dispatch_request decoded_reply
    received_reply checked check_reply_eresult
stops_at_third = refl

change_members-Stops_example :
    Stops remote_side friend_protos member_proto emsg_am_client_add_friend_to_group
      (pos 5)
      (11 ∷ 12 ∷ 13 ∷ 14 ∷ [])
      []
      (add_friends_to_group remote_side friend_protos member_proto
        (pos 5)
        (11 ∷ 12 ∷ 13 ∷ 14 ∷ [])
        [])
    × Stops remote_side friend_protos member_proto emsg_am_client_remove_friend_from_group
        (pos 5)
        (11 ∷ 12 ∷ 13 ∷ 14 ∷ [])
        []
        (remove_friends_from_group remote_side friend_protos member_proto
          (pos 5)
          (11 ∷ 12 ∷ 13 ∷ 14 ∷ [])
          [])
change_members-Stops_example =
    change_members-Stops remote_side friend_protos member_proto (pos 5) (11 ∷ 12 ∷ 13 ∷ 14 ∷ []) []
