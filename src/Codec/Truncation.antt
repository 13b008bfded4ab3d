-- ===== src/Codec/Truncation.antt =====
-- What `unframe` makes of a frame that is cut short, and which byte strings it accepts.
use steamroids.Prelude.{
  ℕ, ◌+◌, ◌-◌, ◌%◌, ◌^◌, ◌≤◌, ◌<◌, ◌≡◌, refl, inl, inr, [], ◌∷◌, ◌++◌, some, none, length, take,
  ltb, if◌then◌else◌, All, length-append, take-append_le, take-append_ge, take-append-drop,
  take-length-append, drop-length-append, length-take, false, sym, subst, append_assoc, Bool-cases,
  arith,
}
use native.Mathlib.Decide.{dec_lt}
use steamroids.Error.{Error, ok, err, codec, msg}
use steamroids.Wire.{Bytes, Proto}
use steamroids.Codec.Words.{from_le_bytes-to_le_bytes, test_flag}
use steamroids.Codec.{FrameParts, to_le_bytes, from_le_bytes, put_prefix, encode_raw, unframe}
use steamroids.Codec.RoundTrip.{
  overrun, parts_of, flagged, put_prefix-words, unframe-words, encode_raw-frame, unframe-put_prefix,
}

abbrev pub short_frame : Error
short_frame = codec (msg "frame shorter than 8-byte prefix")

unframe-short : (bytes : Bytes) → length bytes < 8 → unframe bytes ≡ err short_frame
unfolding unframe
unframe-short bytes h = ground arith

length-put_prefix : (t l : ℕ) → length (put_prefix [] t l) ≡ 8
unfolding put_prefix to_le_bytes
length-put_prefix t l = refl

take-put_prefix :
    (t l n : ℕ) (rest : Bytes)
    → 8 ≤ n
    → take n (put_prefix [] t l ++ rest) ≡ put_prefix [] t l ++ take (n - 8) rest
unfolding put_prefix to_le_bytes
take-put_prefix t l n rest h = take-append_ge n (put_prefix [] t l) rest h

-- A cut at or behind the end of the prefix.
unframe-cut :
    (t m : ℕ) (enc body : Bytes)
    → length enc < 2 ^ 32
    → unframe (put_prefix [] t (length enc) ++ take m (enc ++ body)) ≡ (
        if ltb m (length enc)
        then err (overrun (length enc) (take m enc))
        else ok (
            some
              (record { msg_type = t % 2 ^ 31; header = enc; body = take (m - length enc) body })))
unframe-cut t m enc body h = elim (Bool-cases (ltb m (length enc))) [
  | inl inside ↦
      rw
        (
          inside,
          take-append_le m enc body (ground arith),
          unframe-put_prefix t (length enc) (take m enc) h,
        )
        (ground (arith, length-take m enc))
  | inr behind ↦
      rw
        (
          behind,
          take-append_ge m enc body (ground arith),
          unframe-put_prefix t (length enc) (enc ++ take (m - length enc) body) h,
        )
        (ground (
          arith,
          length-append enc (take (m - length enc) body),
          take-length-append enc (take (m - length enc) body),
          drop-length-append enc (take (m - length enc) body),
        ))
]

-- The first `n` bytes of a written frame, for a header whose encoding is shorter than 2 ^ 32
-- bytes: less than the prefix is refused as too short, a cut inside the header is refused as an
-- overrun, and a cut behind it loses only the end of the body.
pub unframe-take :
    {H : Type 0} (p : Proto H) (t : ℕ) (header : H) (body : Bytes) (n : ℕ)
    → length (p.encode header) < 2 ^ 32
    → let enc = p.encode header in
      unframe (take n (encode_raw p t header body)) ≡ (
        if ltb n 8
        then err short_frame
        else if ltb n (8 + length enc)
        then err (overrun (length enc) (take (n - 8) enc))
        else ok (
            some (record {
              msg_type = t % 2 ^ 31;
              header = enc;
              body = take (n - 8 - length enc) body;
            })))
unframe-take p t header body n h = elim (Bool-cases (ltb n 8)) [
  | inl short ↦
      rw short (unframe-short _ (ground (arith, length-take n (encode_raw p t header body))))
  | inr enough ↦
      rw
        (
          enough,
          encode_raw-frame p t header body,
          take-put_prefix t (length (p.encode header)) n (p.encode header ++ body) (ground arith),
          unframe-cut t (n - 8) (p.encode header) body h,
        )
        (ground arith)
]

abbrev pub IsByte : ℕ → Type 0
IsByte b = b < 256

to_le_bytes-from_le_bytes :
    (a b c d : ℕ)
    → a < 256
    → b < 256
    → c < 256
    → d < 256
    → to_le_bytes (from_le_bytes (a ∷ b ∷ c ∷ d ∷ [])) ≡ a ∷ b ∷ c ∷ d ∷ []
unfolding to_le_bytes from_le_bytes
to_le_bytes-from_le_bytes a b c d ha hb hc hd = ground arith

from_le_bytes-lt :
    (a b c d : ℕ)
    → a < 256
    → b < 256
    → c < 256
    → d < 256
    → from_le_bytes (a ∷ b ∷ c ∷ d ∷ []) < 2 ^ 32
unfolding from_le_bytes
from_le_bytes-lt a b c d ha hb hc hd = omega arith

abbrev IsFrame : Bytes → FrameParts → Type 0
IsFrame bytes parts =
    (bytes ≡ put_prefix [] parts.msg_type (length parts.header) ++ (parts.header ++ parts.body))
    × (parts.msg_type < 2 ^ 31)

unflagged :
    (w l : ℕ) (rest : Bytes)
    → w < 2 ^ 31
    → unframe (to_le_bytes w ++ (to_le_bytes l ++ rest)) ≡ ok none
unfolding unframe to_le_bytes
unflagged w l rest h = ground (arith, from_le_bytes-to_le_bytes w (omega arith), test_flag w)

parts_of-IsFrame :
    (w l : ℕ) (rest : Bytes)
    → 2 ^ 31 ≤ w
    → w < 2 ^ 32
    → l < 2 ^ 32
    → l ≤ length rest
    → IsFrame (to_le_bytes w ++ (to_le_bytes l ++ rest)) (parts_of w l rest)
parts_of-IsFrame w l rest lo hi h fits = (
  rw
      (
        same_length,
        put_prefix-words (w % 2 ^ 31) l h,
        same_word,
        take-append-drop l rest,
        append_assoc,
      )
      refl,
  omega arith,
)
  where
    same_length : length (take l rest) ≡ l
    same_length = omega (arith, length-take l rest)

    same_word : flagged (w % 2 ^ 31) ≡ w
    same_word = omega arith

words-IsFrame :
    (w l : ℕ) (rest : Bytes) (parts : FrameParts)
    → w < 2 ^ 32
    → l < 2 ^ 32
    → unframe (to_le_bytes w ++ (to_le_bytes l ++ rest)) ≡ ok (some parts)
    → IsFrame (to_le_bytes w ++ (to_le_bytes l ++ rest)) parts
words-IsFrame w l rest parts hi h e = elim (dec_lt w (2 ^ 31)) [
  | yes low ↦ cc (unflagged w l rest low)
  | no high ↦
      let answer = unframe-words w l rest (omega arith) hi h in
      elim (Bool-cases (ltb (length rest) l)) [
        | inl over ↦ cc (answer, over)
        | inr fits ↦
            subst (IsFrame (to_le_bytes w ++ (to_le_bytes l ++ rest))) (accepted fits answer)
              (parts_of-IsFrame w l rest (omega arith) hi h (ground arith))
      ]
]
  where
    accepted :
        ltb (length rest) l ≡ false
        → unframe (to_le_bytes w ++ (to_le_bytes l ++ rest))
          ≡ (if ltb (length rest) l then err (overrun l rest) else ok (some (parts_of w l rest)))
        → parts_of w l rest ≡ parts
    accepted fits answer = ground (arith, fits, answer, e)

-- A byte string that `unframe` accepts as a protobuf frame is the frame that `put_prefix` starts
-- with the type and the header length it reports, followed by the header and the body it reports;
-- that type has no flag.
pub unframe-canonical :
    (bytes : Bytes) (parts : FrameParts)
    → All IsByte bytes
    → unframe bytes ≡ ok (some parts)
    → (bytes ≡ put_prefix [] parts.msg_type (length parts.header) ++ (parts.header ++ parts.body))
      × (parts.msg_type < 2 ^ 31)
unframe-canonical (a ∷ b ∷ c ∷ d ∷ e ∷ f ∷ g ∷ i ∷ rest) parts
      (ha, (hb, (hc, (hd, (he, (hf, (hg, (hi, h)))))))) eq =
    let first = to_le_bytes-from_le_bytes a b c d ha hb hc hd in
    let second = to_le_bytes-from_le_bytes e f g i he hf hg hi in
    let w = from_le_bytes (a ∷ b ∷ c ∷ d ∷ []) in
    let l = from_le_bytes (e ∷ f ∷ g ∷ i ∷ []) in
    let whole : to_le_bytes w ++ (to_le_bytes l ++ rest) ≡ a ∷ b ∷ c ∷ d ∷ e ∷ f ∷ g ∷ i ∷ rest =
      rw (first, second) in
    subst (λ bs. IsFrame bs parts) whole
      (words-IsFrame w l rest parts (from_le_bytes-lt a b c d ha hb hc hd)
        (from_le_bytes-lt e f g i he hf hg hi)
        (subst (λ bs. unframe bs ≡ ok (some parts)) (sym whole) eq))
unframe-canonical bytes parts h eq = cc (unframe-short bytes (omega arith))
