-- ===== src/Session/Driver/Runs.antt =====
-- A concrete driver and its episodes, and the theorems of the driver at concrete inputs.
use steamroids.Prelude.{
  arith, ◌≡◌, ◌+◌, ◌^◌, refl, List, [], ◌∷◌, ◌++◌, Option, some, none, take, length, min, get_elem?,
}
use steamroids.Prelude.Int.{ℤ, pos, negsuc}
use steamroids.Error.{ok, err, web_socket, msg}
use steamroids.Error.Eresult
use steamroids.Wire.{Bytes, Proto, LoggedOffMsg, default_header}
use steamroids.Wire.Samples.{header_proto, multi_proto}
use steamroids.Codec.{SteamMessage, encode_raw, to_le_bytes, from_le_bytes, try_decode}
use steamroids.Session.Connection.{Reader, message, binary, read_message}
use steamroids.Session.Driver.{
  disconnected, classify_logoff, cached, dispatch, target_of, insert, find, remove, displaced,
  fail_all_pending, is_snapshot, cache, reply, frame,
}
use steamroids.Session.Driver.Accounts.{held, settled}
use steamroids.Session.Driver.Connected.{
  Services, request, logoff, Driver, Event, command, arrival, reading, heartbeat_due, connected,
  step, run_connected, accept_request,
}
use steamroids.Session.Driver.Balance.{asked_all, handled, accounted, connected-balance}
use steamroids.Session.Driver.Reconnect.{Connection, Attempt, reconnect, max_backoff}
use steamroids.Session.Driver.Run.{Episode, run, drain}
use steamroids.Session.Driver.Answered.Whole.{asked_run, run-settles}
use steamroids.Session.Driver.Reports.{published, Up}
use steamroids.Session.Driver.Reports.Whole.{run-Up}
use steamroids.Session.Driver.Routing.{
  IsTransient, or_else, first_broadcast, classify_logoff-disconnected,
}
use steamroids.Session.Driver.Routing.Snapshot.{connected-cached}
use steamroids.Session.Driver.Jobs.{IsIssued, connected-IsIssued}
use steamroids.Session.Driver.Jobs.Reply.{drain-accept_request}
use steamroids.Session.Driver.Backoff.{reconnect-backoff}
use mathlib.Core.Logic.{◌↔◌}
use mathlib.Core.Option.{some-injective}

abbrev logged_off_proto : Proto LoggedOffMsg
logged_off_proto = record { encode = write; decode = read }
  where
    write : LoggedOffMsg → Bytes
    write m = elim m.eresult [ none ↦ [] | some (pos n) ↦ n ∷ [] | some (negsuc n) ↦ n ∷ 0 ∷ [] ]

    read : Bytes → Option LoggedOffMsg
    read [] = some (record { eresult = none })
    read (n ∷ []) = some (record { eresult = some (pos n) })
    read (n ∷ rest) = some (record { eresult = some (negsuc n) })

abbrev services : Services
services = record {
  codecs = record {
    header_proto = header_proto;
    multi_proto = multi_proto;
    inflate = λ bytes limit. some (take limit bytes);
  };
  logged_off_proto = logged_off_proto;
}

abbrev reader : Reader
reader = record { unread = []; inbox = []; last_frame = 0 }

abbrev driver : Driver
driver = record {
  steam_id = 76_561_198_000_000_000;
  session_id = pos 3;
  heartbeat = 9;
  next_jobid = 1;
  routes = record { pending = []; snapshots = [] };
  reader = reader;
}

abbrev connection : Connection
connection = record {
  steam_id = 76_561_198_000_000_000;
  session_id = pos 4;
  heartbeat = 9;
  reader = reader;
}

-- The reply to job 1, and the licence list, whose type is cached.
abbrev reply_frame : Bytes
reply_frame = encode_raw header_proto 147 (record default_header { jobid_target = some 1 }) (5 ∷ [])

abbrev licenses_frame : Bytes
licenses_frame = encode_raw header_proto 767 default_header (6 ∷ [])

-- Callers 7 and 8 ask; the first reply comes, then the licence list, and the socket fails.
abbrev busy : List Event
busy =
    command (some (request 146 (1 ∷ []) 30 7)) (ok tt)
    ∷ arrival (message (binary reply_frame)) 2
    ∷ reading
    ∷ command (some (request 146 (2 ∷ []) 30 8)) (ok tt)
    ∷ arrival (message (binary licenses_frame)) 3
    ∷ reading
    ∷ heartbeat_due (err (web_socket (msg "broken pipe"))) (ok tt)
    ∷ []

-- A request during the backoff; the first connect fails, the second succeeds.
abbrev missed : Attempt
missed = record {
  sleeping = some (request 146 [] 30 9) ∷ [];
  connecting = [];
  outcome = err (web_socket (msg "connection refused"));
}

abbrev regained : Attempt
regained = record { sleeping = []; connecting = []; outcome = ok connection }

abbrev episodes : List Episode
episodes =
    record { now = 0; events = busy; attempts = missed ∷ regained ∷ [] }
    ∷ record { now = 9; events = command (some (logoff 9)) (ok tt) ∷ []; attempts = [] }
    ∷ []

busy_pending : length (connected services driver busy).driver.routes.pending ≡ 1
unfolding connected try_decode from_le_bytes encode_raw to_le_bytes step read_message dispatch
    target_of insert find remove
busy_pending = refl

connected-balance_example :
    accounted 8 (connected services driver busy)
    ≡ asked_all 8 (handled services driver busy) + held 8 driver.routes.pending
connected-balance_example = connected-balance services 8 driver busy

returned : (run services driver episodes).result ≡ some (ok (msg "session closed"))
unfolding run reconnect connected run_connected try_decode from_le_bytes encode_raw to_le_bytes step
    read_message
returned = refl

run-settles_example :
    ((run services driver episodes).driver.routes.pending ≡ [])
    × (settled 8 (run services driver episodes).outs
        ≡ asked_run 8 services driver episodes + held 8 driver.routes.pending)
run-settles_example = run-settles 8 services driver episodes (ok (msg "session closed")) returned

reply_once : settled 8 (run services driver episodes).outs ≡ 1
unfolding run reconnect connected run_connected settled try_decode from_le_bytes encode_raw
    to_le_bytes step read_message displaced dispatch target_of find insert remove fail_all_pending
reply_once = refl

run-Up_example :
    Up services driver episodes
      (run services driver episodes).result
      (published (run services driver episodes).outs)
run-Up_example = run-Up services driver episodes

abbrev moved : SteamMessage
moved = record { emsg = 757; header = default_header; body = Eresult.no_connection ∷ [] }

classify_logoff-disconnected_example : (classify_logoff logged_off_proto moved ≡ disconnected) ↔ (
    (code : ℤ) × (logged_off_proto.decode moved.body ≡ some (record { eresult = some code }))
    × IsTransient code)
classify_logoff-disconnected_example = classify_logoff-disconnected logged_off_proto moved

connected-cached_example :
    cached 767 (connected services driver busy).driver.routes.snapshots
    ≡ or_else
        (cached 767 driver.routes.snapshots)
        (first_broadcast 767 (connected services driver busy).outs)
unfolding is_snapshot
connected-cached_example = connected-cached 767 refl services driver busy

licenses_cached :
    cached 767 (connected services driver busy).driver.routes.snapshots ≡ some (6 ∷ [])
unfolding connected cached try_decode from_le_bytes encode_raw to_le_bytes step read_message
    dispatch target_of cache is_snapshot find insert
licenses_cached = refl

second_wait : get_elem? (reconnect (missed ∷ regained ∷ [])).waits 1 ≡ some 2
unfolding reconnect
second_wait = refl

reconnect-backoff_example : 2 ≡ min (2 ^ 1) max_backoff
reconnect-backoff_example = reconnect-backoff (missed ∷ regained ∷ []) 1 2 second_wait

driver-IsIssued : IsIssued driver
driver-IsIssued = (omega arith, tt)

connected-IsIssued_example : IsIssued (connected services driver busy).driver
connected-IsIssued_example = connected-IsIssued services driver busy (omega arith) driver-IsIssued

abbrev answer : SteamMessage
answer = record {
  emsg = 147;
  header = record default_header { jobid_target = some 1 };
  body = 5 ∷ [];
}

-- A message for another job, and a push.
abbrev strangers : List SteamMessage
strangers =
    record answer { header = record default_header { jobid_target = some 9 } }
    ∷ record answer { header = default_header }
    ∷ []

drain-accept_request_example :
    ((accept_request driver 146 (8 ∷ []) 30 7 (ok tt)).outs ≡ frame 146 (some 1) (8 ∷ []) ∷ [])
    × (drain
          (accept_request driver 146 (8 ∷ []) 30 7 (ok tt)).driver.routes
          (strangers ++ (answer ∷ []))
        ≡ (
          (drain driver.routes strangers).0,
          (drain driver.routes strangers).1 ++ (reply 7 (ok answer) ∷ []),
        ))
drain-accept_request_example =
    drain-accept_request driver 146 (8 ∷ []) 30 7 strangers answer driver-IsIssued (omega arith)
      ((λ h. absurd (omega (arith, some-injective 9 1 h))), ((λ h. cc h), tt)) refl
