-- ===== src/Multi.antt =====
-- src/session/connection.rs, `decode_multi` and `gunzip`: splitting a `Multi` batch into its
-- messages, nested batches flattened.
--
-- The inflater (`flate2`) is a parameter: `inflate data limit` is what
-- `GzDecoder::new(data).take(limit).read_to_end` appends to its buffer, or `none` on its error.
-- `depth` counts up to a bound in the source; here the number of levels left counts down to 0.
pub mod Split
pub mod Caps
pub mod Depth
mod Runs
use steamroids.Prelude.{
  ℕ, zero, suc, ◌+◌, ◌-◌, ◌*◌, ◌≤◌, ◌<◌, ◌≡◌, Bool, List, [], ◌∷◌, ◌++◌, Option, some, none, length,
  take, drop, length-drop, ltb, ◌==◌, if◌then◌else◌, arith,
}
use steamroids.Prelude.Order.{Shorter, Acc-Shorter}
use steamroids.Error.{Error, Result, ok, err, codec, msg, msg1, msg2, ◌>>=◌}
use steamroids.Wire.{Bytes, Proto, Header, MultiMsg}
use steamroids.Codec.{SteamMessage, from_le_bytes, try_decode, decode_or}
use mathlib.Core.Option.{get_or}
use mathlib.Core.Logic.{dite}
use mathlib.Core.WellFounded.{Acc}
use native.Mathlib.Decide.{dec_le}

abbrev pub emsg_multi : ℕ
emsg_multi = 1

abbrev pub max_multi_unzipped : ℕ
max_multi_unzipped = 8 * 1024 * 1024

abbrev pub max_multi_depth : ℕ
max_multi_depth = 4

-- What the repository does not implement: the serialisers and the inflater.
pub record Codecs : Type 0 where
  pub header_proto : Proto Header
  pub multi_proto : Proto MultiMsg
  pub inflate : Bytes → ℕ → Option Bytes

-- `expected_len` sizes the buffer only.
pub gunzip : Codecs → Bytes → Result Bytes
gunzip c data_in = do
  buf ← decode_or (codec (msg "gunzip Multi: {e}")) (c.inflate data_in (max_multi_unzipped + 1))
  if ltb max_multi_unzipped (length buf)
      then err (codec (msg1 "Multi inflated past {MAX_MULTI_UNZIPPED} cap" max_multi_unzipped))
      else ok buf

-- The messages that one decoded sub-frame stands for.
pub sub_messages :
    (Bytes → Result (List SteamMessage)) → Option SteamMessage → Result (List SteamMessage)
sub_messages nested none = ok []
sub_messages nested (some sub) = if sub.emsg == emsg_multi then nested sub.body else ok (sub ∷ [])

shrinks : (len : ℕ) (cur : Bytes) → 4 ≤ length cur → length (drop len (drop 4 cur)) < length cur
shrinks len cur h = omega (arith, length-drop len (drop 4 cur), length-drop 4 cur)

-- The `while` loop: `cur` is what is left of the payload, `out` what was unpacked.
split_loop :
    Proto Header
    → (Bytes → Result (List SteamMessage))
    → List SteamMessage
    → (cur : Bytes) → Acc Shorter cur
    → Result (List SteamMessage)
unfolding sub_messages
split_loop p nested out cur (Acc.intro _ smaller) =
    dite (dec_le 4 (length cur))
      (λ h.
        let len = from_le_bytes (take 4 cur) in
        let tail = drop 4 cur in
        let next = λ (subs : List SteamMessage).
          split_loop p nested (out ++ subs) (drop len tail)
            (smaller (drop len tail) (shrinks len cur h)) in
        if ltb (length tail) len
        then err (codec (msg "truncated message inside Multi"))
        else (try_decode p (take len tail) >>= sub_messages nested >>= next))
      (λ _. ok out)

pub split : Proto Header → (Bytes → Result (List SteamMessage)) → Bytes → Result (List SteamMessage)
unfolding split_loop Acc-Shorter
split p nested payload = split_loop p nested [] payload (Acc-Shorter payload)

-- A non-zero `size_unzipped` says that the body is compressed.
pub payload_of : Codecs → MultiMsg → Result Bytes
unfolding gunzip
payload_of c multi =
    let raw = get_or multi.message_body [] in
    let size = get_or multi.size_unzipped 0 in
    if size == 0
    then ok raw
    else if ltb max_multi_unzipped size
    then err (
        codec
          (msg2 "Multi size_unzipped {size} over {MAX_MULTI_UNZIPPED} cap" size max_multi_unzipped))
    else gunzip c raw

pub decode_levels : Codecs → ℕ → Bytes → Result (List SteamMessage)
unfolding payload_of split
decode_levels c zero body =
    err (codec (msg1 "Multi nested deeper than {MAX_MULTI_DEPTH}" max_multi_depth))
decode_levels c (suc left) body = do
  multi ← decode_or (codec (msg "decode Multi: {e}")) (c.multi_proto.decode body)
  payload ← payload_of c multi
  split c.header_proto (decode_levels c left) payload

pub decode_multi : Codecs → Bytes → ℕ → Result (List SteamMessage)
unfolding decode_levels
decode_multi c body depth = decode_levels c (max_multi_depth + 1 - depth) body
