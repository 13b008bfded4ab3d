-- ===== src/Wire.antt =====
-- The protobuf layer (`prost` and the generated types of src/proto.rs) as the code uses it.
--
-- A text is the list of its UTF-8 bytes. The serialiser is not code of this repository: `Proto H` is a parameter. The messages are the
-- generated structs, with the fields that the source reads or writes.
pub mod Samples
use steamroids.Prelude.{ℕ, ◌≡◌, List, [], ◌∷◌, ◌++◌, Option, some, none, String}
use steamroids.Prelude.Int.{ℤ}

abbrev pub Bytes : Type 0
Bytes = List ℕ

-- `prost::Message`: `encode_to_vec` (also `encode` onto a buffer and `encoded_len`) and `decode`.
pub record Proto (H : Type 0) : Type 0 where
  pub encode : H → Bytes
  pub decode : Bytes → Option H

-- What a serialiser promises: a message is read back from its own encoding.
abbrev pub RoundTrips : {H : Type 0} → Proto H → Type 0
RoundTrips {H} p = (h : H) → p.decode (p.encode h) ≡ some h

-- `CMsgProtoBufHeader` of protos/steam/steammessages_base.proto.
pub record Header : Type 0 where
  pub steamid : Option ℕ
  pub client_sessionid : Option ℤ
  pub jobid_source : Option ℕ
  pub jobid_target : Option ℕ
  pub eresult : Option ℤ
  pub error_message : Option Bytes

-- `CMsgProtoBufHeader::default()`.
abbrev pub default_header : Header
default_header = record {
  steamid = none;
  client_sessionid = none;
  jobid_source = none;
  jobid_target = none;
  eresult = none;
  error_message = none;
}

-- `CMsgMulti` of protos/steam/steammessages_base.proto.
pub record MultiMsg : Type 0 where
  pub size_unzipped : Option ℕ
  pub message_body : Option Bytes

-- `CMsgClientLoggedOff` of protos/steam/steammessages_clientserver_login.proto.
pub record LoggedOffMsg : Type 0 where
  pub eresult : Option ℤ
