-- ===== src/Codec/RoundTrip.antt =====
-- Decoding a frame that the encoders wrote.
use steamroids.Prelude.{
  ℕ, ◌+◌, ◌%◌, ◌^◌, ◌≤◌, ◌<◌, ◌≡◌, refl, [], ◌++◌, append_assoc, some, length, take, drop, ltb,
  if◌then◌else◌, length-append, take-length-append, drop-length-append, arith,
}
use native.Mathlib.Nat.{mod-eq_of_lt}
use steamroids.Error.{Error, ok, err, codec, msg2}
use steamroids.Wire.{Bytes, Proto, RoundTrips, Header}
use steamroids.Codec.Words.{from_le_bytes-to_le_bytes, strip_flag, test_flag, type_word}
use steamroids.Codec.{
  FrameParts, to_le_bytes, put_prefix, encode_raw, encode, unframe, try_decode, decode,
}

-- What `unframe` answers on the written prefix of a message type `t` and a header length `l`.
abbrev pub parts_of : ℕ → ℕ → Bytes → FrameParts
parts_of t l rest = record { msg_type = t % 2 ^ 31; header = take l rest; body = drop l rest }

abbrev pub overrun : ℕ → Bytes → Error
overrun l rest =
    codec (msg2 "header length {header_len} exceeds {} remaining bytes" l (length rest))

pub unframe-words :
    (w l : ℕ) (rest : Bytes)
    → 2 ^ 31 ≤ w
    → w < 2 ^ 32
    → l < 2 ^ 32
    → unframe (to_le_bytes w ++ (to_le_bytes l ++ rest))
      ≡ (if ltb (length rest) l then err (overrun l rest) else ok (some (parts_of w l rest)))
unfolding unframe to_le_bytes
unframe-words w l rest lo hi h = ground (
  arith,
  from_le_bytes-to_le_bytes w hi,
  from_le_bytes-to_le_bytes l h,
  test_flag w,
  strip_flag w,
)

-- The type word keeps the low 31 bits of the message type, under the protobuf flag.
abbrev pub flagged : ℕ → ℕ
flagged t = t % 2 ^ 31 + 2 ^ 31

pub put_prefix-words :
    (t l : ℕ) → l < 2 ^ 32 → put_prefix [] t l ≡ to_le_bytes (flagged t) ++ to_le_bytes l
unfolding put_prefix
put_prefix-words t l h = rw (type_word t, mod-eq_of_lt h)

parts_of-flagged : (t l : ℕ) (rest : Bytes) → parts_of (flagged t) l rest ≡ parts_of t l rest
parts_of-flagged t l rest = ground arith

pub unframe-put_prefix :
    (t l : ℕ) (rest : Bytes)
    → l < 2 ^ 32
    → unframe (put_prefix [] t l ++ rest)
      ≡ (if ltb (length rest) l then err (overrun l rest) else ok (some (parts_of t l rest)))
unframe-put_prefix t l rest h =
    rw (put_prefix-words t l h, append_assoc, ← parts_of-flagged t l rest)
      (unframe-words (flagged t) l rest (omega arith) (omega arith) h)

-- A frame is its prefix, its header and its body.
abbrev pub frame_of : {H : Type 0} → Proto H → ℕ → H → Bytes → Bytes
frame_of p t header body = put_prefix [] t (length (p.encode header)) ++ (p.encode header ++ body)

pub encode_raw-frame :
    {H : Type 0} (p : Proto H) (t : ℕ) (header : H) (body : Bytes)
    → encode_raw p t header body ≡ frame_of p t header body
unfolding encode_raw
encode_raw-frame p t header body =
    append_assoc (put_prefix [] t (length (p.encode header))) (p.encode header) body

pub encode-encode_raw :
    {M : Type 0} (p : Proto Header) (q : Proto M) (t : ℕ) (header : Header) (body : M)
    → encode p q t header body ≡ encode_raw p t header (q.encode body)
unfolding encode encode_raw
encode-encode_raw p q t header body = refl

-- `unframe` splits a frame into the type word without the flag, the header and the body, for any
-- header type whose encoding is shorter than 2 ^ 32 bytes.
pub unframe-encode_raw :
    {H : Type 0} (p : Proto H) (t : ℕ) (header : H) (body : Bytes)
    → length (p.encode header) < 2 ^ 32
    → unframe (encode_raw p t header body)
      ≡ ok (some (record { msg_type = t % 2 ^ 31; header = p.encode header; body = body }))
unframe-encode_raw p t header body h =
    let enc = p.encode header in
    rw (encode_raw-frame p t header body, unframe-put_prefix t (length enc) (enc ++ body) h)
      (ground
        (arith, length-append enc body, take-length-append enc body, drop-length-append enc body))

module _ (p : Proto Header) (trips : RoundTrips p) (t : ℕ) (header : Header) where
  -- For a serialiser that reads back what it wrote, and a header whose encoding is shorter than
  -- 2 ^ 32 bytes, `try_decode` recovers the low 31 bits of the message type, the header and the
  -- body from a frame of `encode_raw`.
  pub try_decode-encode_raw :
      (body : Bytes)
      → length (p.encode header) < 2 ^ 32
      → try_decode p (encode_raw p t header body)
        ≡ ok (some (record { emsg = t % 2 ^ 31; header = header; body = body }))
  unfolding try_decode
  try_decode-encode_raw body h = rw (unframe-encode_raw p t header body h, trips header)

  -- For a serialiser that reads back what it wrote, and a header whose encoding is shorter than
  -- 2 ^ 32 bytes, `decode` recovers from a frame that `encode` built of a message the low 31 bits of
  -- the message type, the header, and the message's encoding as the body.
  pub decode-encode :
      {M : Type 0} (q : Proto M) (m : M)
      → length (p.encode header) < 2 ^ 32
      → decode p (encode p q t header m)
        ≡ ok (record { emsg = t % 2 ^ 31; header = header; body = q.encode m })
  unfolding decode
  decode-encode q m h = rw (encode-encode_raw p q t header m, try_decode-encode_raw (q.encode m) h)
