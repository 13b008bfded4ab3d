-- ===== src/Multi/Split.antt =====
-- The batch loop against the list of the frames that the batch holds.
use mathlib.Core.WellFounded.{Acc}
use mathlib.Core.Logic.{dif_pos, dif_neg}
use native.Mathlib.Decide.{dec_le}
use native.Mathlib.Bridge.{le_prop}
use steamroids.Prelude.{
  ◌^◌, ◌≤◌, ◌<◌, ◌≡◌, refl, ap, ◌∙◌, inl, inr, List, Option, [], ◌∷◌, ◌++◌, append_assoc,
  append-nil, length, length-append, take, drop, take-length-append, drop-length-append, ltb, All,
  arith, false,
}
use steamroids.Prelude.Order.{Shorter, Acc-Shorter}
use steamroids.Error.{Result, ok, err, ◌>>=◌, Result-cases}
use steamroids.Wire.{Bytes, Proto, Header}
use steamroids.Codec.{SteamMessage, to_le_bytes, from_le_bytes, try_decode}
use steamroids.Codec.Words.{from_le_bytes-to_le_bytes}
use steamroids.Multi.{sub_messages, split_loop, split, shrinks}

-- A batch: each frame behind its length.
abbrev pub batch : List Bytes → Bytes
batch [] = []
batch (f ∷ fs) = to_le_bytes (length f) ++ (f ++ batch fs)

abbrev pub FitsWord : Bytes → Type 0
FitsWord f = length f < 2 ^ 32

first_word :
    (f rest : Bytes)
    → FitsWord f
    → from_le_bytes (take 4 (to_le_bytes (length f) ++ (f ++ rest))) ≡ length f
unfolding to_le_bytes
first_word f rest h = from_le_bytes-to_le_bytes (length f) h

after_word : (f rest : Bytes) → drop 4 (to_le_bytes (length f) ++ (f ++ rest)) ≡ f ++ rest
unfolding to_le_bytes
after_word f rest = refl

long_enough : (f rest : Bytes) → 4 ≤ length (to_le_bytes (length f) ++ (f ++ rest))
unfolding to_le_bytes
long_enough f rest = omega arith

-- Appending to what is already out, round by round or at the end.
regroup :
    (out subs : List SteamMessage) (later : Result (List SteamMessage))
    → (later >>= λ rest. ok ((out ++ subs) ++ rest))
      ≡ (later >>= (λ rest. ok (subs ++ rest)) >>= λ rest. ok (out ++ rest))
regroup out subs (ok rest) = ap ok (append_assoc out subs rest)
regroup out subs (err e) = refl

module _ (p : Proto Header) (nested : Bytes → Result (List SteamMessage)) where
  -- What a list of frames stands for: each is decoded in turn, and the first failure is the result.
  unfoldable pub unpack : List Bytes → Result (List SteamMessage)
  unpack [] = ok []
  unpack (f ∷ fs) = do
    m ← try_decode p f
    subs ← sub_messages nested m
    rest ← unpack fs
    ok (subs ++ rest)

  stops :
      (out : List SteamMessage) (cur : Bytes) (w : Acc Shorter cur)
      → length cur < 4
      → split_loop p nested out cur w ≡ ok out
  unfolding split_loop
  stops out cur (Acc.intro _ smaller) h = dif_neg (dec_le 4 (length cur)) (omega arith) _ _

  -- One round, on a batch whose first frame is `f`.
  takes :
      (out : List SteamMessage) (cur f rest : Bytes) (w : Acc Shorter cur)
      → FitsWord f
      → cur ≡ to_le_bytes (length f) ++ (f ++ rest)
      → (next : Bytes) × (v : Acc Shorter next) × (next ≡ rest)
        × (split_loop p nested out cur w ≡ (
            try_decode p f >>= sub_messages nested >>= λ subs.
            split_loop p nested (out ++ subs) next v))
  unfolding split_loop
  takes out cur f rest (Acc.intro _ smaller) h e =
      let size : from_le_bytes (take 4 cur) ≡ length f = rw e (first_word f rest h) in
      let tail : drop 4 cur ≡ f ++ rest = rw e (after_word f rest) in
      let frame : take (from_le_bytes (take 4 cur)) (drop 4 cur) ≡ f =
        rw (size, tail) (take-length-append f rest) in
      let left : drop (from_le_bytes (take 4 cur)) (drop 4 cur) ≡ rest =
        rw (size, tail) (drop-length-append f rest) in
      let long : 4 ≤ length cur = rw e (long_enough f rest) in
      let fits : ltb (length (drop 4 cur)) (from_le_bytes (take 4 cur)) ≡ false =
        rw (size, tail) (ground (arith, length-append f rest)) in
      (
        drop (from_le_bytes (take 4 cur)) (drop 4 cur),
        smaller _ (shrinks (from_le_bytes (take 4 cur)) cur long),
        left,
        dif_pos (dec_le 4 (length cur)) le_prop long _ _ ∙ rw (fits, frame) refl,
      )

  round :
      (r : Result (Option SteamMessage)) (out : List SteamMessage)
      (later : Result (List SteamMessage)) (loop : List SteamMessage → Result (List SteamMessage))
      → ((subs : List SteamMessage) → loop subs ≡ (later >>= λ rest. ok ((out ++ subs) ++ rest)))
      → (r >>= sub_messages nested >>= loop) ≡ (
          r
          >>= (λ m. sub_messages nested m >>= λ subs. later >>= λ rest. ok (subs ++ rest))
          >>= λ rest. ok (out ++ rest))
  round (err e) out later loop ih = refl
  round (ok m) out later loop ih = elim (Result-cases (sub_messages nested m)) [
    | inl (subs, e) ↦ rw (e, ih subs) (regroup out subs later)
    | inr (x, e) ↦ rw e
  ]

  unpacks :
      (frames : List Bytes) (junk : Bytes) (out : List SteamMessage) (cur : Bytes)
      (w : Acc Shorter cur)
      → All FitsWord frames
      → length junk < 4
      → cur ≡ batch frames ++ junk
      → split_loop p nested out cur w ≡ (unpack frames >>= λ rest. ok (out ++ rest))
  unfolding unpack
  unpacks [] junk out cur w hs hj e = rw append-nil (stops out cur w (rw e hj))
  unpacks (f ∷ fs) junk out cur w (hf, hs) hj e =
      let split_off =
        append_assoc (to_le_bytes (length f)) (f ++ batch fs) junk
        ∙ ap (◌++◌ (to_le_bytes (length f))) (append_assoc f (batch fs) junk) in
      let (next, v, at, step) = takes out cur f (batch fs ++ junk) w hf (e ∙ split_off) in
      step
      ∙ round (try_decode p f) out (unpack fs) (λ subs. split_loop p nested (out ++ subs) next v)
          (λ subs. unpacks fs junk (out ++ subs) next v hs hj at)

  result_id : (r : Result (List SteamMessage)) → (r >>= λ rest. ok rest) ≡ r
  result_id (ok a) = refl
  result_id (err e) = refl

  -- On a batch of frames that each fit a length word, with less than four stray bytes at its end,
  -- the loop returns what the frames stand for, in order, or the first failure among them; the
  -- stray bytes are ignored.
  pub split-batch :
      (frames : List Bytes) (junk : Bytes)
      → All FitsWord frames
      → length junk < 4
      → split p nested (batch frames ++ junk) ≡ unpack frames
  unfolding split
  split-batch frames junk hs hj =
      unpacks frames junk [] (batch frames ++ junk) (Acc-Shorter _) hs hj refl
      ∙ result_id (unpack frames)
