-- ===== src/Multi/Caps.antt =====
-- What any batch can make of `decode_multi`: how much it inflates to, and what it returns.
use mathlib.Core.WellFounded.{Acc}
use mathlib.Core.Logic.{dif_pos, dif_neg}
use mathlib.Core.Option.{get_or}
use native.Mathlib.Decide.{dec_le}
use native.Mathlib.Bridge.{le_prop}
use steamroids.Prelude.{
  ℕ, zero, suc, ◌+◌, ◌-◌, ◌≤◌, ◌≡◌, ◌≢◌, ◌⊎◌, inl, inr, List, [], ◌++◌, some, none, Option, length,
  take, drop, ltb, ◌==◌, All, All-append, Bool-cases, subst, arith,
}
use steamroids.Prelude.Order.{Shorter, Acc-Shorter}
use steamroids.Error.{Result, ok, err, codec, msg, ◌>>=◌}
use steamroids.Wire.{Bytes, Proto, Header, MultiMsg}
use steamroids.Codec.{SteamMessage, from_le_bytes, try_decode, decode_or}
use steamroids.Multi.{
  Codecs, emsg_multi, max_multi_unzipped, max_multi_depth, sub_messages, split_loop, split, shrinks,
  gunzip, payload_of, decode_levels, decode_multi,
}

-- Whatever the inflater does, a payload that is accepted is the message body as it came, which
-- says that it is not compressed, or it was announced and inflated within the cap.
pub payload_of-capped :
    (c : Codecs) (multi : MultiMsg) (payload : Bytes)
    → payload_of c multi ≡ ok payload
    → ((get_or multi.size_unzipped 0 ≡ 0) × (payload ≡ get_or multi.message_body []))
      ⊎ ((get_or multi.size_unzipped 0 ≤ max_multi_unzipped)
          × (length payload ≤ max_multi_unzipped))
unfolding payload_of gunzip
payload_of-capped c multi payload e = ground arith

abbrev pub IsPlain : SteamMessage → Type 0
IsPlain m = m.emsg ≢ emsg_multi

abbrev pub Plain : Result (List SteamMessage) → Type 0
Plain (ok ms) = All IsPlain ms
Plain (err e) = Unit {0}

module _ (p : Proto Header) (nested : Bytes → Result (List SteamMessage))
    (inner : (body : Bytes) → Plain (nested body)) where
  sub_messages-Plain : (m : Option SteamMessage) → Plain (sub_messages nested m)
  unfolding sub_messages
  sub_messages-Plain none = tt
  sub_messages-Plain (some sub) = elim (Bool-cases (sub.emsg == emsg_multi)) [
    | inl batch ↦ rw batch (inner sub.body)
    | inr plain ↦ rw plain (ground arith, tt)
  ]

  Plain-bind :
      (r : Result (List SteamMessage)) (loop : List SteamMessage → Result (List SteamMessage))
      → Plain r
      → ((ms : List SteamMessage) → All IsPlain ms → Plain (loop ms))
      → Plain (r >>= loop)
  Plain-bind (ok ms) loop h step = step ms h
  Plain-bind (err e) loop h step = tt

  decoded-Plain :
      (r : Result (Option SteamMessage)) (loop : List SteamMessage → Result (List SteamMessage))
      → ((ms : List SteamMessage) → All IsPlain ms → Plain (loop ms))
      → Plain (r >>= sub_messages nested >>= loop)
  decoded-Plain (ok m) loop step =
      Plain-bind (sub_messages nested m) loop (sub_messages-Plain m) step
  decoded-Plain (err e) loop step = tt

  split_loop-Plain :
      (out : List SteamMessage) (cur : Bytes) (w : Acc Shorter cur)
      → All IsPlain out
      → Plain (split_loop p nested out cur w)
  unfolding split_loop
  split_loop-Plain out cur (Acc.intro _ smaller) h = elim (dec_le 4 (length cur)) [
    | yes long ↦
        rw (dif_pos (dec_le 4 (length cur)) le_prop long)
          (elim (Bool-cases (ltb (length (drop 4 cur)) (from_le_bytes (take 4 cur)))) [
            | inl cut ↦ rw cut tt
            | inr whole ↦
                let len = from_le_bytes (take 4 cur) in
                let next = drop len (drop 4 cur) in
                rw whole (
                  decoded-Plain (try_decode p (take len (drop 4 cur)))
                    (λ subs.
                      split_loop p nested (out ++ subs) next (smaller next (shrinks len cur long)))
                    (λ subs hs.
                      split_loop-Plain (out ++ subs) next (smaller next (shrinks len cur long))
                        (All-append IsPlain out subs h hs)))
          ])
    | no short ↦ rw (dif_neg (dec_le 4 (length cur)) short) h
  ]

decode_levels-Plain : (c : Codecs) (left : ℕ) (body : Bytes) → Plain (decode_levels c left body)
unfolding decode_levels split
decode_levels-Plain c zero body = tt
decode_levels-Plain c (suc left) body =
    elim (c.multi_proto.decode body)
      as (λ d. Plain (
        decode_or (codec (msg "decode Multi: {e}")) d >>= λ multi.
        payload_of c multi >>= split c.header_proto (decode_levels c left))) [
          | none ↦ tt
          | some multi ↦
              elim (payload_of c multi)
                as (λ r. Plain (r >>= split c.header_proto (decode_levels c left))) [
                  | ok payload ↦
                      split_loop-Plain c.header_proto (decode_levels c left)
                        (decode_levels-Plain c left) [] payload (Acc-Shorter payload) tt
                  | err e ↦ tt
                ]
        ]

-- Whatever a batch holds and at whatever depth, no message that `decode_multi` returns is itself
-- a batch.
pub decode_multi-IsPlain :
    (c : Codecs) (body : Bytes) (depth : ℕ) (msgs : List SteamMessage)
    → decode_multi c body depth ≡ ok msgs
    → All IsPlain msgs
unfolding decode_multi
decode_multi-IsPlain c body depth msgs e =
    subst Plain e (decode_levels-Plain c (max_multi_depth + 1 - depth) body)
