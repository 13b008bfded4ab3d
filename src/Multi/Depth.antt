-- ===== src/Multi/Depth.antt =====
-- Nested batches: how deep they may go.
use steamroids.Prelude.{
  ℕ, zero, suc, ◌+◌, ◌-◌, ◌^◌, ◌<◌, ◌≡◌, refl, sym, ap, ◌∙◌, List, [], ◌∷◌, ◌++◌, append-nil, some,
  length, All, arith,
}
use steamroids.Error.{Result, ok, err, ◌>>=◌}
use steamroids.Wire.{Bytes, RoundTrips, Header}
use steamroids.Codec.{SteamMessage, encode_raw}
use steamroids.Codec.RoundTrip.{try_decode-encode_raw}
use steamroids.Multi.{
  Codecs, emsg_multi, max_multi_depth, payload_of, split, decode_levels, decode_multi, sub_messages,
}
use steamroids.Multi.Split.{batch, FitsWord, unpack, split-batch}

-- The encoding of a batch, not compressed.
abbrev pub batch_body : Codecs → List Bytes → Bytes
batch_body c frames =
    c.multi_proto.encode (record { size_unzipped = some 0; message_body = some (batch frames) })

-- A frame of type `Multi` around a body.
abbrev pub multi_frame : Codecs → Header → Bytes → Bytes
multi_frame c h body = encode_raw c.header_proto emsg_multi h body

-- `k` further layers round a batch.
abbrev pub nest : Codecs → Header → ℕ → Bytes → Bytes
nest c h zero body = body
nest c h (suc k) body = batch_body c (multi_frame c h (nest c h k body) ∷ [])

-- Every layer fits its length word.
abbrev pub NestFits : Codecs → Header → ℕ → Bytes → Type 0
NestFits c h zero body = Unit {0}
NestFits c h (suc k) body = NestFits c h k body × FitsWord (multi_frame c h (nest c h k body))

no_levels : (c : Codecs) (a b : Bytes) → decode_levels c 0 a ≡ decode_levels c 0 b
unfolding decode_levels
no_levels c a b = refl

module _ (c : Codecs) (header_trips : RoundTrips c.header_proto)
    (multi_trips : RoundTrips c.multi_proto) where
  -- With the serialisers' round trips, a batch of frames that each fit a length word unpacks to
  -- what the frames stand for, while the depth allows it.
  pub decode_levels-batch :
      (left : ℕ) (frames : List Bytes)
      → All FitsWord frames
      → decode_levels c (suc left) (batch_body c frames)
        ≡ unpack c.header_proto (decode_levels c left) frames
  unfolding decode_levels payload_of
  decode_levels-batch left frames hs =
      rw (multi_trips (record { size_unzipped = some 0; message_body = some (batch frames) })) (
        ap (split c.header_proto (decode_levels c left)) (sym (append-nil (batch frames)))
        ∙ split-batch c.header_proto (decode_levels c left) frames [] hs (omega arith))

  module _ (h : Header) (small : length (c.header_proto.encode h) < 2 ^ 32) where
    alone : (r : Result (List SteamMessage)) → (r >>= λ subs. ok (subs ++ [])) ≡ r
    alone (ok subs) = ap ok (append-nil subs)
    alone (err e) = refl

    layer :
        (left : ℕ) (body : Bytes)
        → unpack c.header_proto (decode_levels c left) (multi_frame c h body ∷ [])
          ≡ decode_levels c left body
    unfolding unpack sub_messages
    layer left body =
        rw (try_decode-encode_raw c.header_proto header_trips emsg_multi h body small)
          (alone (decode_levels c left body))

    levels-nest :
        (k left : ℕ) (body : Bytes)
        → NestFits c h k body
        → decode_levels c left (nest c h k body) ≡ decode_levels c (left - k) body
    levels-nest zero left body fits = ap (λ (n : ℕ). decode_levels c n body) (omega arith)
    levels-nest (suc k) zero body fits =
        no_levels c (nest c h (suc k) body) body
        ∙ ap (λ (n : ℕ). decode_levels c n body) (omega arith)
    levels-nest (suc k) (suc left) body (fits, fit) =
        decode_levels-batch left (multi_frame c h (nest c h k body) ∷ []) (fit, tt)
        ∙ layer left (nest c h k body)
        ∙ levels-nest k left body fits
        ∙ ap (λ (n : ℕ). decode_levels c n body) (omega arith)

    -- Each layer round a batch costs one level of depth: with `k` layers that fit their length
    -- words, a batch at some depth decodes as the batch itself `k` levels deeper.
    pub decode_multi-nest :
        (k depth : ℕ) (body : Bytes)
        → NestFits c h k body
        → decode_multi c (nest c h k body) depth ≡ decode_multi c body (depth + k)
    unfolding decode_multi
    decode_multi-nest k depth body fits =
        levels-nest k (max_multi_depth + 1 - depth) body fits
        ∙ ap (λ (n : ℕ). decode_levels c n body) (omega arith)
