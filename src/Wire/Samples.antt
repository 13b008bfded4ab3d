-- ===== src/Wire/Samples.antt =====
-- A concrete serialiser for each message, which shows that `RoundTrips` can hold.
use steamroids.Prelude.{ℕ, zero, suc, ◌≡◌, refl, [], ◌∷◌, Option, some, none}
use steamroids.Prelude.Int.{ℤ, pos, negsuc}
use steamroids.Wire.{Bytes, Proto, RoundTrips, Header, MultiMsg}

abbrev pub flag_of : Option ℕ → ℕ
flag_of none = 0
flag_of (some n) = 1

abbrev pub value_of : Option ℕ → ℕ
value_of none = 0
value_of (some n) = n

abbrev pub read : ℕ → ℕ → Option ℕ
read zero n = none
read (suc f) n = some n

abbrev sign_of : Option ℤ → ℕ
sign_of none = 0
sign_of (some (pos n)) = 1
sign_of (some (negsuc n)) = 2

abbrev size_of : Option ℤ → ℕ
size_of none = 0
size_of (some (pos n)) = n
size_of (some (negsuc n)) = n

abbrev read_int : ℕ → ℕ → Option ℤ
read_int zero n = none
read_int (suc zero) n = some (pos n)
read_int (suc (suc f)) n = some (negsuc n)

abbrev pub write_bytes : Option Bytes → Bytes
write_bytes none = 0 ∷ []
write_bytes (some bs) = 1 ∷ bs

abbrev pub read_bytes : Bytes → Option Bytes
read_bytes [] = none
read_bytes (zero ∷ bs) = none
read_bytes (suc f ∷ bs) = some bs

pub read_lem : (o : Option ℕ) → read (flag_of o) (value_of o) ≡ o
read_lem none = refl
read_lem (some n) = refl

read_int_lem : (o : Option ℤ) → read_int (sign_of o) (size_of o) ≡ o
read_int_lem none = refl
read_int_lem (some (pos n)) = refl
read_int_lem (some (negsuc n)) = refl

pub read_bytes_lem : (o : Option Bytes) → read_bytes (write_bytes o) ≡ o
read_bytes_lem none = refl
read_bytes_lem (some bs) = refl

abbrev encode_header : Header → Bytes
encode_header h =
    flag_of h.steamid
    ∷ value_of h.steamid
    ∷ sign_of h.client_sessionid
    ∷ size_of h.client_sessionid
    ∷ flag_of h.jobid_source
    ∷ value_of h.jobid_source
    ∷ flag_of h.jobid_target
    ∷ value_of h.jobid_target
    ∷ sign_of h.eresult
    ∷ size_of h.eresult
    ∷ write_bytes h.error_message

abbrev decode_header : Bytes → Option Header
decode_header (a ∷ b ∷ c ∷ d ∷ e ∷ f ∷ g ∷ h ∷ i ∷ j ∷ rest) = some (record {
  steamid = read a b;
  client_sessionid = read_int c d;
  jobid_source = read e f;
  jobid_target = read g h;
  eresult = read_int i j;
  error_message = read_bytes rest;
})
decode_header other = none

abbrev pub header_proto : Proto Header
header_proto = record { encode = encode_header; decode = decode_header }

pub header_proto-RoundTrips : RoundTrips header_proto
header_proto-RoundTrips h = rw (
  read_lem h.steamid,
  read_int_lem h.client_sessionid,
  read_lem h.jobid_source,
  read_lem h.jobid_target,
  read_int_lem h.eresult,
  read_bytes_lem h.error_message,
)

abbrev pub multi_proto : Proto MultiMsg
multi_proto = record {
  encode = λ m. flag_of m.size_unzipped ∷ value_of m.size_unzipped ∷ write_bytes m.message_body;
  decode = decode_multi_msg;
}
  where
    decode_multi_msg : Bytes → Option MultiMsg
    decode_multi_msg (a ∷ b ∷ rest) =
        some (record { size_unzipped = read a b; message_body = read_bytes rest })
    decode_multi_msg other = none

pub multi_proto-RoundTrips : RoundTrips multi_proto
multi_proto-RoundTrips m = rw (read_lem m.size_unzipped, read_bytes_lem m.message_body)
