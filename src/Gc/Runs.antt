-- ===== src/Gc/Runs.antt =====
-- A concrete Game Coordinator, and its theorems at concrete inputs.
use steamroids.Prelude.{
  true, ◌==◌, ◌↔◌, ℕ, ◌+◌, ◌*◌, ◌≤◌, ◌≡◌, refl, false, List, [], ◌∷◌, Option, some, none, length,
  arith,
}
use steamroids.Prelude.Int.{pos}
use steamroids.Error.{ok}
use steamroids.Wire.{Bytes, Proto, RoundTrips, default_header}
use steamroids.Wire.Samples.{
  flag_of, value_of, read, write_bytes, read_bytes, read_lem, read_bytes_lem,
}
use steamroids.Codec.{encode_raw, to_le_bytes, from_le_bytes, unframe}
use steamroids.Session.State.{connecting, logged_on}
use steamroids.Gc.{GcClient, GcHeader, GcProtos, default_gc_header}
use steamroids.Gc.Envelope.{GcMessage, wrap, unwrap, unwrap-wrap}
use steamroids.Gc.Pump.{
  App, Input, state_changed, hello_tick, received, released, pump, initial_pump, react, on_tick,
  on_state, launch, on_gc_message, send_hello, on_received, gc_part, addressed, has_gc_session,
}
use steamroids.Wait.{Delivery, event, gap}
use steamroids.Gc.Requests.{FirstReply, request_matching, request_matching-FirstReply}
use steamroids.Gc.Pump.Budget.{hellos, resets, announcements, pump-hellos}
use steamroids.Gc.Pump.Relay.{relays, Addressed, pump-Addressed}
use steamroids.Gc.Pump.Readiness.{shown, pump-shown}

decode_client : Bytes → Option GcClient
decode_client (a ∷ b ∷ c ∷ d ∷ rest) =
    some (record { appid = read a b; msgtype = read c d; payload = read_bytes rest })
decode_client other = none

abbrev client_proto : Proto GcClient
client_proto = record {
  encode = λ m.
      flag_of m.appid
      ∷ value_of m.appid
      ∷ flag_of m.msgtype
      ∷ value_of m.msgtype
      ∷ write_bytes m.payload;
  decode = decode_client;
}

client_proto-RoundTrips : RoundTrips client_proto
unfolding decode_client
client_proto-RoundTrips m = rw (read_lem m.appid, read_lem m.msgtype, read_bytes_lem m.payload)

decode_gc_header : Bytes → Option GcHeader
decode_gc_header (a ∷ b ∷ []) = some (record { job_id_target = read a b })
decode_gc_header other = none

abbrev gc_header_proto : Proto GcHeader
gc_header_proto = record {
  encode = λ h. flag_of h.job_id_target ∷ value_of h.job_id_target ∷ [];
  decode = decode_gc_header;
}

gc_header_proto-RoundTrips : RoundTrips gc_header_proto
unfolding decode_gc_header
gc_header_proto-RoundTrips h = rw (read_lem h.job_id_target)

abbrev protos : GcProtos
protos = record {
  client = client_proto;
  header = gc_header_proto;
  hello = record { encode = λ m. value_of m.version ∷ []; decode = λ bytes. none };
  games = record { encode = λ m. length m.games_played ∷ []; decode = λ bytes. none };
  connection_status = record {
    encode = λ m. [];
    decode = λ bytes. some (record { status = some (pos (length bytes)) });
  };
}

unwrap-wrap_example :
    unwrap protos (record {
      emsg = 5453;
      header = default_header;
      body =
          client_proto.encode
            (wrap protos 730 9128 (record { job_id_target = some 99 }) (1 ∷ 2 ∷ []));
    })
    ≡ ok (
        some (record {
          appid = 730;
          msgtype = 9128;
          header = record { job_id_target = some 99 };
          body = 1 ∷ 2 ∷ [];
        }))
unwrap-wrap_example =
    unwrap-wrap protos client_proto-RoundTrips gc_header_proto-RoundTrips 5453 default_header 730
      9128 (record { job_id_target = some 99 }) (1 ∷ 2 ∷ []) (omega arith)

abbrev app : App
app = record { appid = 730; hello_version = 2000; protos = protos }

-- A message of the app's coordinator as it comes over the session.
abbrev from_gc : ℕ → Bytes → Input
from_gc msgtype body = received (
    some (record {
      emsg = 5453;
      header = default_header;
      body = client_proto.encode (wrap protos 730 msgtype default_gc_header body);
    }))

-- Two retries, the welcome, a tick that is ignored; the session drops and comes back; one more
-- retry; the coordinator reports that it has no session.
abbrev life : List Input
life =
    hello_tick
    ∷ hello_tick
    ∷ from_gc 4004 []
    ∷ hello_tick
    ∷ state_changed (some connecting) (ok tt)
    ∷ state_changed (some (logged_on 7)) (ok tt)
    ∷ hello_tick
    ∷ from_gc 4009 (1 ∷ [])
    ∷ released
    ∷ hello_tick
    ∷ []

pump-hellos_example :
    hellos (pump app initial_pump life).effects
    ≤ 20
      + 20 * resets (pump app initial_pump life).effects
      + announcements (pump app initial_pump life).effects
pump-hellos_example = pump-hellos app life

four_hellos : hellos (pump app initial_pump life).effects ≡ 4
unfolding hellos pump react on_tick on_state launch on_gc_message send_hello on_received gc_part
    unwrap wrap decode_client decode_gc_header unframe has_gc_session from_le_bytes to_le_bytes
    encode_raw
four_hellos = refl

three_resets : resets (pump app initial_pump life).effects ≡ 3
unfolding resets pump react on_tick on_state launch on_gc_message send_hello on_received gc_part
    unwrap wrap decode_client decode_gc_header unframe has_gc_session from_le_bytes to_le_bytes
    encode_raw
three_resets = refl

pump-Addressed_example : Addressed app life (relays (pump app initial_pump life).effects)
pump-Addressed_example = pump-Addressed app initial_pump life

two_relayed : length (relays (pump app initial_pump life).effects) ≡ 2
unfolding relays pump react on_tick on_state launch on_gc_message send_hello on_received gc_part
    addressed unwrap wrap decode_client decode_gc_header unframe has_gc_session from_le_bytes
    to_le_bytes encode_raw
two_relayed = refl

pump-shown_example :
    (pump app initial_pump life).pump.ready ≡ shown false (pump app initial_pump life).effects
pump-shown_example = pump-shown app initial_pump life

-- A reply of another type, one that is not accepted, and the one that is.
abbrev gc_reply : ℕ → ℕ → GcMessage
gc_reply msgtype version = record {
  appid = 730;
  msgtype = msgtype;
  header = default_gc_header;
  body = version ∷ [];
}

abbrev version_proto : Proto ℕ
version_proto = record { encode = λ n. n ∷ []; decode = decode_version }
  where
    decode_version : Bytes → Option ℕ
    decode_version (n ∷ []) = some n
    decode_version other = none

abbrev deliveries : List (Delivery GcMessage)
deliveries = event (gc_reply 9127 5) ∷ gap ∷ event (gc_reply 9128 4) ∷ event (gc_reply 9128 5) ∷ []

request_matching-FirstReply_example :
    (request_matching version_proto 9128 (λ n. n == 5) true [] (ok tt) deliveries ≡ ok 5)
    ↔ FirstReply version_proto 9128 (λ n. n == 5) deliveries 5
request_matching-FirstReply_example =
    request_matching-FirstReply version_proto 9128 (λ n. n == 5) [] deliveries 5

found_five : request_matching version_proto 9128 (λ n. n == 5) true [] (ok tt) deliveries ≡ ok 5
unfolding request_matching
found_five = refl
