-- ===== src/Codec.antt =====
-- src/codec.rs: the frame of one Steam message, `msg_type | header length | header | body`.
--
-- A byte is a number below 256, a `u32` a number below 2 ^ 32; `as usize` of a `u32` is the number
-- itself (a 64-bit target). Slicing at an index that the guards have checked is `take` and `drop`.
pub mod Words
pub mod RoundTrip
pub mod Truncation
mod Runs
use steamroids.Prelude.{
  ℕ, zero, suc, ◌+◌, ◌-◌, ◌*◌, ◌/◌, ◌%◌, ◌^◌, bit_and, bit_or, Bool, List, [], ◌∷◌, ◌++◌, Option,
  none, some, length, take, drop, ltb, ◌==◌, if◌then◌else◌,
}
use steamroids.Error.{Error, Result, ok, err, codec, msg, msg1, msg2, ◌>>=◌}
use steamroids.Wire.{Bytes, Proto, Header}

abbrev pub proto_mask : ℕ
proto_mask = 0x8000_0000

-- `!PROTO_MASK` on a `u32`.
abbrev pub emsg_mask : ℕ
emsg_mask = 2 ^ 32 - 1 - proto_mask

abbrev pub prefix_len : ℕ
prefix_len = 8

pub record SteamMessage : Type 0 where
  pub emsg : ℕ
  pub header : Header
  pub body : Bytes

unfoldable pub to_le_bytes : ℕ → Bytes
to_le_bytes x = x % 256 ∷ x / 2 ^ 8 % 256 ∷ x / 2 ^ 16 % 256 ∷ x / 2 ^ 24 % 256 ∷ []

unfoldable pub from_le_bytes : Bytes → ℕ
from_le_bytes [] = 0
from_le_bytes (b ∷ bs) = b + 256 * from_le_bytes bs

unfoldable pub put_prefix : Bytes → ℕ → ℕ → Bytes
put_prefix out msg_type header_len =
    (out ++ to_le_bytes (bit_or (bit_and msg_type emsg_mask) proto_mask))
    ++ to_le_bytes (header_len % 2 ^ 32)

-- `msg.encode(out)`, which appends.
unfoldable pub encode_into : {M : Type 0} → Proto M → Bytes → M → Bytes
encode_into p out m = out ++ p.encode m

unfoldable pub encode_raw : {H : Type 0} → Proto H → ℕ → H → Bytes → Bytes
unfolding encode_into put_prefix
encode_raw p emsg header body =
    let header_len = length (p.encode header) in
    encode_into p (put_prefix [] emsg header_len) header ++ body

unfoldable pub encode : {M : Type 0} → Proto Header → Proto M → ℕ → Header → M → Bytes
unfolding encode_into put_prefix
encode p q emsg header body =
    let header_len = length (p.encode header) in
    encode_into q (encode_into p (put_prefix [] emsg header_len) header) body

pub record FrameParts : Type 0 where
  pub msg_type : ℕ
  pub header : Bytes
  pub body : Bytes

unfoldable pub unframe : Bytes → Result (Option FrameParts)
unframe bytes =
    let raw_msg = from_le_bytes (take 4 bytes) in
    let header_len = from_le_bytes (take 4 (drop 4 bytes)) in
    let rest = drop prefix_len bytes in
    if ltb (length bytes) prefix_len
    then err (codec (msg "frame shorter than 8-byte prefix"))
    else if bit_and raw_msg proto_mask == 0
    then ok none
    else if ltb (length rest) header_len
    then err (
        codec
          (msg2 "header length {header_len} exceeds {} remaining bytes" header_len (length rest)))
    else ok (
        some (record {
          msg_type = bit_and raw_msg emsg_mask;
          header = take header_len rest;
          body = drop header_len rest;
        }))

-- `.map_err(|e| Error::Codec(…))` on a decoded message.
abbrev pub decode_or {ℓ} : {A : Type ℓ} → Error → Option A → Result A
decode_or e none = err e
decode_or e (some a) = ok a

message_of : Proto Header → Option FrameParts → Result (Option SteamMessage)
message_of p none = ok none
message_of p (some parts) = do
  header ← decode_or (codec (msg "decode header: {e}")) (p.decode parts.header)
  ok (some (record { emsg = parts.msg_type; header = header; body = parts.body }))

unfoldable pub try_decode : Proto Header → Bytes → Result (Option SteamMessage)
unfolding message_of unframe
try_decode p bytes = do parts ← unframe bytes; message_of p parts

-- `.ok_or_else(…)` with the raw type word of the frame in the message.
require_protobuf : Bytes → Option SteamMessage → Result SteamMessage
require_protobuf bytes none = err (
    codec (
      msg1 "non-protobuf message (raw type {raw_msg:#010x}) not supported"
        (from_le_bytes (take 4 bytes))))
require_protobuf bytes (some m) = ok m

unfoldable pub decode : Proto Header → Bytes → Result SteamMessage
unfolding require_protobuf
decode p bytes = do m ← try_decode p bytes; require_protobuf bytes m
