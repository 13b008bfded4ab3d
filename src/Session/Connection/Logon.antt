-- ===== src/Session/Connection/Logon.antt =====
-- src/session/connection.rs: `send` and `logon`, which waits for the answer of the CM.
--
-- The generated messages carry the fields that the code sets or reads. The loop of `logon` calls
-- `recv` until a message decides; here it runs over the inbox and the unread arrivals, as
-- `read_loop` does.
use steamroids.Prelude.{
  ℕ, String, max, Bool, true, List, [], ◌∷◌, Option, some, none, ◌==◌, ◌||◌, if◌then◌else◌,
}
use mathlib.Core.Option.{get_or}
use steamroids.Prelude.Int.{ℤ, pos, negsuc, is_code}
use steamroids.Error.{
  Error, Text, Result, ok, err, codec, auth_rejected, logon_retryable, msg, msg_int, ◌>>=◌,
}
use steamroids.Error.Eresult
use steamroids.Wire.{Bytes, Proto, Header, default_header, LoggedOffMsg}
use steamroids.Codec.{SteamMessage, encode, decode_or}
use steamroids.Multi.{Codecs}
use steamroids.Session.Connection.{Incoming, Reader, frame_in, touched, unpack_frame}

abbrev pub emsg_client_logon : ℕ
emsg_client_logon = 5514

abbrev pub emsg_client_logon_response : ℕ
emsg_client_logon_response = 751

abbrev pub logged_off_type : ℕ
logged_off_type = 757

abbrev pub default_heartbeat_secs : ℤ
default_heartbeat_secs = pos 9

abbrev pub logon_header_steamid : ℕ
logon_header_steamid = 0x0110_0001_0000_0000

-- `CMsgClientLogon`.
pub record LogonMsg : Type 0 where
  pub protocol_version : Option ℕ
  pub client_package_version : Option ℕ
  pub client_language : Option String
  pub client_os_type : Option ℕ
  pub should_remember_password : Option Bool
  pub account_name : Option Bytes
  pub access_token : Option Bytes
  pub supports_rate_limit_response : Option Bool

-- `CMsgClientLogonResponse`.
pub record LogonResponse : Type 0 where
  pub eresult : Option ℤ
  pub heartbeat_seconds : Option ℤ

pub record LogonProtos : Type 0 where
  pub codecs : Codecs
  pub logon : Proto LogonMsg
  pub response : Proto LogonResponse
  pub logged_off : Proto LoggedOffMsg

pub record LoggedOn : Type 0 where
  pub steam_id : ℕ
  pub session_id : ℤ
  pub heartbeat_interval : ℕ

-- The state of a connection before its socket, the ids of the header.
pub record Ids : Type 0 where
  pub steam_id : ℕ
  pub session_id : ℤ

-- The ids of a connection that `connect` opened.
abbrev pub fresh_ids : Ids
fresh_ids = record { steam_id = logon_header_steamid; session_id = pos 0 }

pub record CmConnection : Type 0 where
  pub ids : Ids
  pub reader : Reader

-- The frame that `send` writes.
unfoldable pub sent_frame : {M : Type 0} → Proto Header → Proto M → Ids → ℕ → M → Bytes
sent_frame p q ids emsg body =
    let header = record default_header {
      steamid = some ids.steam_id;
      client_sessionid = some ids.session_id;
    } in
    encode p q emsg header body

abbrev pub logon_msg : Bytes → Bytes → LogonMsg
logon_msg account_name refresh_token = record {
  protocol_version = some 65580;
  client_package_version = some 1771;
  client_language = some "english";
  client_os_type = some 16;
  should_remember_password = some true;
  account_name = some account_name;
  access_token = some refresh_token;
  supports_rate_limit_response = some true;
}

unfoldable pub logon_eresult_retryable : ℤ → Bool
logon_eresult_retryable code =
    is_code code Eresult.no_connection
    || (is_code code Eresult.busy
        || (is_code code Eresult.timeout
            || (is_code code Eresult.service_unavailable
                || (is_code code Eresult.try_another_cm
                    || is_code code Eresult.rate_limit_exceeded))))

unfoldable pub logon_rejection : ℤ → Text → Error
unfolding logon_eresult_retryable
logon_rejection eresult reason =
    if logon_eresult_retryable eresult then logon_retryable reason else auth_rejected reason

-- `unwrap_or(DEFAULT_HEARTBEAT_SECS).max(1)` as a number of seconds.
unfoldable pub seconds : ℤ → ℕ
seconds (pos n) = max n 1
seconds (negsuc n) = 1

-- What the header of the response assigns.
abbrev pub assigned : Ids → Header → Ids
assigned ids h = record {
  steam_id = get_or h.steamid ids.steam_id;
  session_id = get_or h.client_sessionid ids.session_id;
}

unfoldable pub accept : Ids → LogonResponse → LoggedOn
unfolding seconds
accept ids resp = record {
  steam_id = ids.steam_id;
  session_id = ids.session_id;
  heartbeat_interval = seconds (get_or resp.heartbeat_seconds default_heartbeat_secs);
}

-- The ids and the details, or why the CM refused.
unfoldable pub on_response : LogonProtos → Ids → SteamMessage → Result (Ids × LoggedOn)
unfolding accept logon_rejection
on_response p ids m = do
  resp ← decode_or (codec (msg "decode logon response: {e}")) (p.response.decode m.body)
  let eresult = get_or resp.eresult (pos Eresult.fail) in
      if is_code eresult Eresult.ok
      then (ok (assigned ids m.header, accept (assigned ids m.header) resp))
      else err (logon_rejection eresult (msg_int "CM logon eresult {eresult}" eresult))

code_of : Option LoggedOffMsg → ℤ
code_of none = pos Eresult.fail
code_of (some m) = get_or m.eresult (pos Eresult.fail)

unfoldable pub on_logged_off : LogonProtos → SteamMessage → Error
unfolding code_of logon_rejection
on_logged_off p m =
    let eresult = code_of (p.logged_off.decode m.body) in
    logon_rejection eresult (msg_int "CM logged us off during logon (eresult {eresult})" eresult)

-- What a message decides, if anything.
unfoldable pub verdict : LogonProtos → Ids → SteamMessage → Option (Result (Ids × LoggedOn))
verdict p ids m =
    if m.emsg == emsg_client_logon_response
    then some (on_response p ids m)
    else if m.emsg == logged_off_type
    then some (err (on_logged_off p m))
    else none

-- The logon is decided, with the reader behind it, or still waits for its answer.
pub data Logon : Type 0 where
  decided : Reader → Result (Ids × LoggedOn) → Logon
  unanswered : Reader → Logon

unfoldable pub logon_loop : LogonProtos → Ids → List (Incoming × ℕ) → List SteamMessage → ℕ → Logon
logon_loop p ids unread (m ∷ inbox) last = elim (verdict p ids m) [
  | some v ↦ decided (record { unread = unread; inbox = inbox; last_frame = last }) v
  | none ↦ logon_loop p ids unread inbox last
]
logon_loop p ids [] [] last = unanswered (record { unread = []; inbox = []; last_frame = last })
logon_loop p ids ((i, at) ∷ unread) [] last =
    let now = touched i at last in
    let stop =
      λ (e : Error). decided (record { unread = unread; inbox = []; last_frame = now }) (err e) in
    elim (frame_in i) [
      | none ↦ logon_loop p ids unread [] now
      | some (err e) ↦ stop e
      | some (ok frame) ↦ elim (unpack_frame p.codecs frame) [
        | err e ↦ stop e
        | ok messages ↦ logon_loop p ids unread messages now
      ]
    ]

-- `logon`, with the result of its write.
unfoldable pub logon : LogonProtos → CmConnection → Result (Unit {0}) → Logon
logon p conn (err e) = decided conn.reader (err e)
logon p conn (ok u) =
    logon_loop p conn.ids conn.reader.unread conn.reader.inbox conn.reader.last_frame
