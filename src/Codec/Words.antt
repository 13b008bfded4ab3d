-- ===== src/Codec/Words.antt =====
-- The two words in front of a frame.
use steamroids.Prelude.{ℕ, ◌+◌, ◌*◌, ◌/◌, ◌%◌, ◌^◌, ◌<◌, ◌≡◌, bit_and, bit_or, arith}
use steamroids.Prelude.Bits.{bit_and-ones, bit_and-single, bit_or-above}
use steamroids.Codec.{to_le_bytes, from_le_bytes, proto_mask, emsg_mask}

pub from_le_bytes-to_le_bytes : (x : ℕ) → x < 2 ^ 32 → from_le_bytes (to_le_bytes x) ≡ x
unfolding from_le_bytes to_le_bytes
from_le_bytes-to_le_bytes x h = omega arith

pub strip_flag : (x : ℕ) → bit_and x emsg_mask ≡ x % 2 ^ 31
strip_flag x = bit_and-ones 31 x

pub set_flag : (x : ℕ) → x < 2 ^ 31 → bit_or x proto_mask ≡ x + 2 ^ 31
set_flag x h = bit_or-above 31 x h

pub test_flag : (x : ℕ) → bit_and x proto_mask ≡ x / 2 ^ 31 % 2 * 2 ^ 31
test_flag x = bit_and-single 31 x

-- The type word that `put_prefix` writes.
pub type_word : (x : ℕ) → bit_or (bit_and x emsg_mask) proto_mask ≡ x % 2 ^ 31 + 2 ^ 31
type_word x =
    omega (arith, strip_flag x, set_flag (bit_and x emsg_mask) (omega (arith, strip_flag x)))
