-- ===== src/Cs2/Runs.antt =====
-- A request for a CS2 profile at concrete inputs.
use steamroids.Prelude.{ℕ, ◌≡◌, ◌↔◌, refl, true, List, [], ◌∷◌, some, none}
use steamroids.Prelude.Int.{pos}
use steamroids.Error.{ok}
use steamroids.Wire.{Bytes, Proto}
use steamroids.Session.Handle.{notify_result, expired}
use steamroids.Session.Remote.{Remote, tell}
use steamroids.Wait.{Delivery, event, gap}
use steamroids.Gc.{GcProtos, default_gc_header}
use steamroids.Gc.Envelope.{GcMessage}
use steamroids.Gc.Coordinator.{GameCoordinator, send_gc}
use steamroids.Cs2.{
  AccountProfile, Cs2Protos, request_player_profile, profile_of, account_id_from_steam_id,
}
use steamroids.Cs2.Profile.{IsFirstProfile, request_player_profile-IsFirstProfile}

low_bits : account_id_from_steam_id 76_561_198_000_000_000 ≡ 39_734_272
unfolding account_id_from_steam_id
low_bits = refl

abbrev silent : {M : Type 0} → Proto M
silent = record { encode = λ m. []; decode = λ bytes. none }

abbrev gc_protos : GcProtos
gc_protos = record {
  client = silent;
  header = silent;
  hello = silent;
  games = silent;
  connection_status = silent;
}

abbrev coordinator : GameCoordinator
coordinator = record { app = record { appid = 730; hello_version = 2000; protos = gc_protos } }

abbrev entry : ℕ → AccountProfile
entry id = record {
  account_id = some id;
  ranking = none;
  medals = none;
  player_level = some (pos 40);
  player_cur_xp = none;
}

-- A body is the list of the accounts.
abbrev entries : Bytes → List AccountProfile
entries [] = []
entries (id ∷ ids) = entry id ∷ entries ids

abbrev protos : Cs2Protos
protos = record {
  profile_request = silent;
  players_profile = record {
    encode = λ m. [];
    decode = λ bytes. some (record { account_profiles = entries bytes });
  };
}

abbrev remote_side : Remote
remote_side = record {
  queued = λ sent. true;
  replies = λ sent. expired;
  acks = λ sent. some (ok tt);
}

abbrev reply : Bytes → GcMessage
reply ids = record { appid = 730; msgtype = 9128; header = default_gc_header; body = ids }

-- The profile of another player, and then that of two.
abbrev deliveries : List (Delivery GcMessage)
deliveries = event (reply (5 ∷ [])) ∷ gap ∷ event (reply (6 ∷ 7 ∷ [])) ∷ []

request_player_profile-IsFirstProfile_example :
    ((request_player_profile remote_side protos coordinator
        (record { ready_now = true; changes = []; deliveries = deliveries })
        7
        []).0
      ≡ ok (profile_of 7 (entry 7)))
    ↔ IsFirstProfile remote_side protos coordinator 7 [] deliveries (profile_of 7 (entry 7))
unfolding send_gc tell notify_result
request_player_profile-IsFirstProfile_example =
    (request_player_profile-IsFirstProfile remote_side protos coordinator 7 [] [] deliveries
      (profile_of 7 (entry 7)) refl refl).0
