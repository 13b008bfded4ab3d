-- ===== src/Gc.antt =====
-- src/gc: the Game Coordinator of an app, reached through the session.
--
-- The generated messages carry the fields that the code reads or writes; their serialisers are
-- parameters.
pub mod Envelope
pub mod Pump
pub mod Requests
pub mod Coordinator
mod Runs
use steamroids.Prelude.{ℕ, List, Option, none}
use steamroids.Prelude.Int.{ℤ}
use steamroids.Wire.{Bytes, Proto}

-- `CMsgGCClient` of the relay.
pub record GcClient : Type 0 where
  pub appid : Option ℕ
  pub msgtype : Option ℕ
  pub payload : Option Bytes

-- `CMsgProtoBufHeader` of the Game Coordinator.
pub record GcHeader : Type 0 where
  pub job_id_target : Option ℕ

abbrev pub default_gc_header : GcHeader
default_gc_header = record { job_id_target = none }

pub record ClientHello : Type 0 where
  pub version : Option ℕ
  pub client_session_need : Option ℕ
  pub client_launcher : Option ℕ
  pub steam_launcher : Option ℕ

-- `CMsgClientGamesPlayed`: the game ids of its entries.
pub record GamesPlayed : Type 0 where
  pub games_played : List (Option ℕ)

pub record ConnectionStatus : Type 0 where
  pub status : Option ℤ

pub record GcProtos : Type 0 where
  pub client : Proto GcClient
  pub header : Proto GcHeader
  pub hello : Proto ClientHello
  pub games : Proto GamesPlayed
  pub connection_status : Proto ConnectionStatus
