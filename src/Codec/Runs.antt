-- ===== src/Codec/Runs.antt =====
-- Concrete frames, and the theorems of the codec at concrete inputs.
use steamroids.Prelude.{ℕ, ◌≡◌, refl, ◌+◌, [], ◌∷◌, ◌++◌, some, none, take, arith, ◌^◌, ◌<◌}
use steamroids.Error.{ok, err}
use steamroids.Wire.{Bytes, Header, default_header}
use steamroids.Wire.Samples.{header_proto, header_proto-RoundTrips}
use steamroids.Codec.{
  FrameParts, encode_raw, unframe, try_decode, decode, put_prefix, to_le_bytes, from_le_bytes,
}
use steamroids.Codec.RoundTrip.{try_decode-encode_raw}
use steamroids.Codec.Truncation.{short_frame, unframe-take, unframe-canonical}

abbrev logon_header : Header
logon_header = record default_header { steamid = some 76_561_198_000_000_000 }

-- k_EMsgClientLogon with the flag already set.
abbrev logon_type : ℕ
logon_type = 5514 + 2 ^ 31

abbrev logon_frame : Bytes
logon_frame = encode_raw header_proto logon_type logon_header (7 ∷ 8 ∷ [])

logon_prefix : take 8 logon_frame ≡ 0x8a ∷ 0x15 ∷ 0 ∷ 0x80 ∷ 11 ∷ 0 ∷ 0 ∷ 0 ∷ []
unfolding encode_raw to_le_bytes
logon_prefix = refl

-- A legacy message is skipped by `try_decode`.
legacy : try_decode header_proto (0x1e ∷ 3 ∷ 0 ∷ 0 ∷ 0 ∷ 0 ∷ 0 ∷ 0 ∷ []) ≡ ok none
unfolding try_decode from_le_bytes
legacy = refl

decode_short : decode header_proto (0 ∷ 0 ∷ 0 ∷ 0 ∷ []) ≡ err short_frame
unfolding decode try_decode
decode_short = refl

try_decode-encode_raw_example :
    try_decode header_proto logon_frame
    ≡ ok (some (record { emsg = 5514; header = logon_header; body = 7 ∷ 8 ∷ [] }))
try_decode-encode_raw_example =
    try_decode-encode_raw header_proto header_proto-RoundTrips logon_type logon_header (7 ∷ 8 ∷ [])
      (omega arith)

unframe-take_example :
    unframe (take 20 logon_frame)
    ≡ ok (
        some (record { msg_type = 5514; header = header_proto.encode logon_header; body = 7 ∷ [] }))
unframe-take_example =
    unframe-take header_proto logon_type logon_header (7 ∷ 8 ∷ []) 20 (omega arith)

abbrev small_frame : Bytes
small_frame = 0x8a ∷ 0x15 ∷ 0 ∷ 0x80 ∷ 1 ∷ 0 ∷ 0 ∷ 0 ∷ 9 ∷ 7 ∷ []

abbrev small_parts : FrameParts
small_parts = record { msg_type = 5514; header = 9 ∷ []; body = 7 ∷ [] }

small_frame_parts : unframe small_frame ≡ ok (some small_parts)
unfolding unframe from_le_bytes
small_frame_parts = refl

unframe-canonical_example : (small_frame ≡ put_prefix [] 5514 1 ++ (9 ∷ 7 ∷ [])) × (5514 < 2 ^ 31)
unframe-canonical_example =
    unframe-canonical small_frame small_parts (omega arith) small_frame_parts
