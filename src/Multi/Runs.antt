-- ===== src/Multi/Runs.antt =====
-- Concrete batches, and the theorems of the batch decoder at concrete inputs.
use steamroids.Prelude.{◌≡◌, refl, [], ◌∷◌, ◌++◌, some, take, All, arith}
use native.Mathlib.Decide.{dec_le}
use steamroids.Error.{ok, err, codec, msg1}
use steamroids.Wire.{Bytes, MultiMsg, default_header}
use steamroids.Wire.Samples.{
  header_proto, multi_proto, header_proto-RoundTrips, multi_proto-RoundTrips,
}
use steamroids.Codec.{SteamMessage, encode_raw, try_decode, from_le_bytes, to_le_bytes}
use steamroids.Prelude.Order.{Acc-Shorter}
use steamroids.Multi.{Codecs, split_loop, payload_of, split, decode_levels, decode_multi}
use steamroids.Multi.Split.{batch, unpack, split-batch}
use steamroids.Multi.Depth.{batch_body, nest, decode_multi-nest}
use steamroids.Multi.Caps.{IsPlain, decode_multi-IsPlain}

-- An inflater that returns its input, as far as it may.
abbrev codecs : Codecs
codecs = record {
  header_proto = header_proto;
  multi_proto = multi_proto;
  inflate = λ bytes limit. some (take limit bytes);
}

abbrev heartbeat : Bytes
heartbeat = encode_raw header_proto 703 default_header (5 ∷ [])

abbrev heartbeat_message : SteamMessage
heartbeat_message = record { emsg = 703; header = default_header; body = 5 ∷ [] }

abbrev one : Bytes
one = batch_body codecs (heartbeat ∷ [])

decode_one : decode_multi codecs one 0 ≡ ok (heartbeat_message ∷ [])
unfolding decode_multi split_loop dec_le Acc-Shorter try_decode from_le_bytes encode_raw to_le_bytes
decode_one = refl

too_deep :
    decode_multi codecs (nest codecs default_header 5 one) 0
    ≡ err (codec (msg1 "Multi nested deeper than {MAX_MULTI_DEPTH}" 4))
unfolding decode_multi split_loop dec_le Acc-Shorter try_decode from_le_bytes encode_raw to_le_bytes
too_deep = refl

split-batch_example :
    split header_proto (decode_levels codecs 4) (batch (heartbeat ∷ heartbeat ∷ []) ++ (1 ∷ []))
    ≡ unpack header_proto (decode_levels codecs 4) (heartbeat ∷ heartbeat ∷ [])
unfolding encode_raw to_le_bytes
split-batch_example =
    split-batch header_proto (decode_levels codecs 4) (heartbeat ∷ heartbeat ∷ []) (1 ∷ [])
      (omega arith) (omega arith)

decode_multi-nest_example :
    decode_multi codecs (nest codecs default_header 2 one) 1 ≡ decode_multi codecs one 3
unfolding encode_raw to_le_bytes
decode_multi-nest_example =
    decode_multi-nest codecs header_proto-RoundTrips multi_proto-RoundTrips default_header
      (omega arith) 2 1 one (omega arith)

abbrev zipped : MultiMsg
zipped = record { size_unzipped = some 2; message_body = some (8 ∷ 9 ∷ []) }

zipped_payload : payload_of codecs zipped ≡ ok (8 ∷ 9 ∷ [])
unfolding payload_of
zipped_payload = refl

decode_multi-IsPlain_example : All IsPlain (heartbeat_message ∷ [])
decode_multi-IsPlain_example = decode_multi-IsPlain codecs one 0 (heartbeat_message ∷ []) decode_one
