-- ===== src/Gc/Envelope.antt =====
-- src/gc/envelope.rs: GC messages inside the relay message of the CM.
use steamroids.Prelude.{
  ℕ, ◌-◌, ◌^◌, ◌%◌, ◌<◌, ◌≡◌, bit_or, not, ◌&&◌, [], Option, some, none, length, ◌==◌,
  if◌then◌else◌,
}
use mathlib.Core.Option.{get_or}
use steamroids.Error.{Result, ok, codec, msg, ◌>>=◌}
use steamroids.Wire.{Bytes, RoundTrips, Header}
use steamroids.Codec.{SteamMessage, FrameParts, proto_mask, encode_raw, unframe, decode_or}
use steamroids.Codec.RoundTrip.{unframe-encode_raw}
use steamroids.Gc.{GcClient, GcHeader, GcProtos}

abbrev pub emsg_client_to_gc : ℕ
emsg_client_to_gc = 5452

abbrev pub emsg_client_from_gc : ℕ
emsg_client_from_gc = 5453

pub record GcMessage : Type 0 where
  pub appid : ℕ
  pub msgtype : ℕ
  pub header : GcHeader
  pub body : Bytes

-- 0 and `u64::MAX` stand for no job.
unfoldable pub jobid_target : GcMessage → Option ℕ
jobid_target m = elim m.header.job_id_target [
  | none ↦ none
  | some j ↦ if not (j == 0) && not (j == 2 ^ 64 - 1) then some j else none
]

unfoldable pub wrap : GcProtos → ℕ → ℕ → GcHeader → Bytes → GcClient
wrap p appid msgtype header body = record {
  appid = some appid;
  msgtype = some (bit_or msgtype proto_mask);
  payload = some (encode_raw p.header msgtype header body);
}

gc_message_of : GcProtos → ℕ → Option FrameParts → Result (Option GcMessage)
gc_message_of p appid none = ok none
gc_message_of p appid (some parts) = do
  header ← decode_or (codec (msg "decode GC header: {e}")) (p.header.decode parts.header)
  ok (some (record { appid = appid; msgtype = parts.msg_type; header = header; body = parts.body }))

unfoldable pub unwrap : GcProtos → SteamMessage → Result (Option GcMessage)
unfolding gc_message_of
unwrap p m = do
  client ← decode_or (codec (msg "decode CMsgGCClient: {e}")) (p.client.decode m.body)
  parts ← unframe (get_or client.payload [])
  gc_message_of p (get_or client.appid 0) parts

-- For serialisers that read back what they wrote, and a header whose encoding is shorter than
-- 2 ^ 32 bytes: a message of any type whose body is the encoding of a wrapped GC message unwraps to
-- the app, the low 31 bits of the GC message type, the header and the body that were wrapped.
pub unwrap-wrap :
    (p : GcProtos)
    → RoundTrips p.client
    → RoundTrips p.header
    → (emsg : ℕ) (outer : Header) (appid msgtype : ℕ) (header : GcHeader) (body : Bytes)
    → length (p.header.encode header) < 2 ^ 32
    → unwrap p (record {
      emsg = emsg;
      header = outer;
      body = p.client.encode (wrap p appid msgtype header body);
    })
      ≡ ok (
          some (record { appid = appid; msgtype = msgtype % 2 ^ 31; header = header; body = body }))
unfolding unwrap wrap
unwrap-wrap p client_trips header_trips emsg outer appid msgtype header body h = rw (
  client_trips (wrap p appid msgtype header body),
  unframe-encode_raw p.header msgtype header body h,
  header_trips header,
)
