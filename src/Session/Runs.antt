-- ===== src/Session/Runs.antt =====
-- A logon and a search for a server, and their theorems at concrete inputs.
use steamroids.Prelude.{true, ℕ, ◌+◌, zero, suc, ◌≡◌, refl, ◌↔◌, [], ◌∷◌, Option, some, none, take}
use steamroids.Prelude.Int.{pos}
use steamroids.Error.{Result, ok, err, web_socket, msg}
use steamroids.Error.Eresult
use steamroids.Wire.{Bytes, default_header}
use steamroids.Wire.Samples.{header_proto, multi_proto}
use steamroids.Codec.{SteamMessage, encode_raw, to_le_bytes, from_le_bytes, unframe, try_decode}
use steamroids.Session.Connection.{Reader, message, binary, ping, unpack_frame, frame_in, touched}
use steamroids.Session.Connection.Logon.{
  LogonProtos, LogonResponse, Ids, LoggedOn, CmConnection, fresh_ids, decided, logon, logon_loop,
  verdict, on_response,
}
use steamroids.Session.Connection.Loop.{LogsOn, logon-LogsOn}
use steamroids.Session.Driver.Reconnect.{is_fatal}
use steamroids.Session.Establish.{Established, establish, establish_resilient}
use steamroids.Session.Handle.{answered, dispatch_request, Obtains, dispatch_request-Obtains}
use steamroids.Session.Establish.Resilient.{IsLast, establish_resilient-IsLast}

decode_response : Bytes → Option LogonResponse
decode_response (code ∷ beat ∷ []) =
    some (record { eresult = some (pos code); heartbeat_seconds = some (pos beat) })
decode_response other = none

abbrev protos : LogonProtos
protos = record {
  codecs = record {
    header_proto = header_proto;
    multi_proto = multi_proto;
    inflate = λ bytes limit. some (take limit bytes);
  };
  logon = record { encode = λ m. []; decode = λ bytes. none };
  response = record { encode = λ m. []; decode = decode_response };
  logged_off = record { encode = λ m. []; decode = λ bytes. some (record { eresult = none }) };
}

-- A ping, a server list, and the response, which assigns a SteamID.
abbrev waiting_room : Reader
waiting_room = record {
  unread =
      (message ping, 1)
      ∷ (message (binary (encode_raw header_proto 778 default_header [])), 2)
      ∷ (
        message (
            binary (
              encode_raw header_proto 751 (record default_header { steamid = some 77 })
                (1 ∷ 0 ∷ []))),
        3,
      )
      ∷ [];
  inbox = [];
  last_frame = 0;
}

abbrev opening : CmConnection
opening = record { ids = fresh_ids; reader = waiting_room }

abbrev ids : Ids
ids = record { steam_id = 77; session_id = pos 0 }

abbrev details : LoggedOn
details = record { steam_id = 77; session_id = pos 0; heartbeat_interval = 1 }

logon-LogsOn_example :
    (logon protos opening (ok tt)
      ≡ decided (record { unread = []; inbox = []; last_frame = 3 }) (ok (ids, details)))
    ↔ LogsOn protos fresh_ids waiting_room
        (record { unread = []; inbox = []; last_frame = 3 })
        ids
        details
logon-LogsOn_example =
    logon-LogsOn protos opening (record { unread = []; inbox = []; last_frame = 3 }) ids details

logged_on_at_once :
    logon protos opening (ok tt)
    ≡ decided (record { unread = []; inbox = []; last_frame = 3 }) (ok (ids, details))
unfolding logon logon_loop unpack_frame verdict on_response decode_response try_decode unframe
    encode_raw to_le_bytes from_le_bytes frame_in touched
logged_on_at_once = refl

abbrev found : Established
found = (record { ids = ids; reader = waiting_room }, details)

-- Server 0 is slow, server 1 refuses the connection, server 2 answers.
abbrev attempt : ℕ → Option (Result Established)
attempt zero = none
attempt (suc zero) = some (err (web_socket (msg "connection refused")))
attempt n = some (ok found)

server_two : establish (ok (0 ∷ 1 ∷ 2 ∷ 3 ∷ [])) attempt ≡ ok found
unfolding establish is_fatal
server_two = refl

-- The first connect fails, the second succeeds.
abbrev connects : ℕ → Result Established
connects (suc zero) = err (web_socket (msg "connection refused"))
connects n = ok found

establish_resilient-IsLast_example :
    (k : ℕ) × IsLast connects k
    × ((establish_resilient connects).1 ≡ connects (k + 1))
    × ((establish_resilient connects).0 ≡ take k (1 ∷ 2 ∷ 4 ∷ []))
establish_resilient-IsLast_example = establish_resilient-IsLast connects

one_wait : establish_resilient connects ≡ (1 ∷ [], ok found)
unfolding establish_resilient is_fatal
one_wait = refl

abbrev reply_message : SteamMessage
reply_message = record {
  emsg = 147;
  header = record default_header { eresult = some (pos Eresult.ok) };
  body = 1 ∷ 9 ∷ [];
}

abbrev reply_body : LogonResponse
reply_body = record { eresult = some (pos 1); heartbeat_seconds = some (pos 9) }

dispatch_request-Obtains_example :
    (dispatch_request protos.response true (answered (ok reply_message)) true ≡ ok reply_body)
    ↔ Obtains protos.response true (answered (ok reply_message)) true reply_body
dispatch_request-Obtains_example =
    dispatch_request-Obtains protos.response true reply_body true (answered (ok reply_message))
