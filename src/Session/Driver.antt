-- ===== src/Session/Driver.antt =====
-- src/session/driver.rs: the background driver of a session.
--
-- A oneshot channel is the number of the caller behind it. Whatever leaves the driver is an entry
-- of an output list, in order: replies and acks, frames written, messages broadcast, states
-- published. A number of seconds stands for an instant or a duration. The pending table (a
-- `HashMap`) is an association list with one entry for each job id.
pub mod Routing
pub mod Accounts
pub mod Balance
pub mod Jobs
pub mod Answered
pub mod Reports
pub mod Backoff
pub mod Connected
pub mod Reconnect
pub mod Run
mod Runs
use steamroids.Prelude.{
  ℕ, zero, suc, ◌+◌, ◌-◌, ◌*◌, ◌^◌, max, Bool, true, false, not, ◌&&◌, ◌||◌, List, [], ◌∷◌, ◌++◌,
  Option, some, none, leb, ltb, ◌==◌, if◌then◌else◌,
}
use steamroids.Prelude.Int.{ℤ, pos, is_code}
use steamroids.Error.{
  Error, Text, num, str, Result, ok, err, web_socket, timeout, remote, msg, msg_int,
}
use steamroids.Error.Eresult
use steamroids.Wire.{Bytes, Proto, LoggedOffMsg, Header, default_header}
use steamroids.Codec.{SteamMessage}
use steamroids.Session.State.{SessionState}
use mathlib.Core.Option.{get_or}

abbrev pub post_login_snapshot_emsgs : List ℕ
post_login_snapshot_emsgs = 767 ∷ 5553 ∷ 5587 ∷ []

pub record Pending : Type 0 where
  pub reply : ℕ
  pub deadline : ℕ

abbrev pub Table : Type 0
Table = List (ℕ × Pending)

abbrev pub Snapshots : Type 0
Snapshots = List (ℕ × Bytes)

pub data Out : Type 0 where
  -- The result of a request, and the sender of a request that is dropped without one.
  reply : ℕ → Result SteamMessage → Out
  dropped : ℕ → Out
  -- The write result of a notification, and the answer to a logoff.
  ack : ℕ → Result (Unit {0}) → Out
  logoff_ack : ℕ → Out
  broadcast : SteamMessage → Out
  publish : SessionState → Out
  -- A frame handed to the socket: message type, job id, body; and a WebSocket ping.
  frame : ℕ → Option ℕ → Bytes → Out
  probe : Out

-- `HashMap::insert`: an old entry's sender goes out of scope.
unfoldable pub insert : ℕ → Pending → Table → Table
insert j e [] = (j, e) ∷ []
insert j e ((k, x) ∷ t) = if k == j then (j, e) ∷ t else (k, x) ∷ insert j e t

unfoldable pub displaced : ℕ → Table → List Out
displaced j [] = []
displaced j ((k, x) ∷ t) = if k == j then dropped x.reply ∷ [] else displaced j t

unfoldable pub find : ℕ → Table → Option Pending
find j [] = none
find j ((k, x) ∷ t) = if k == j then some x else find j t

unfoldable pub remove : ℕ → Table → Table
remove j [] = []
remove j ((k, x) ∷ t) = if k == j then t else (k, x) ∷ remove j t

unfoldable pub fail_all_pending : Table → Text → List Out
fail_all_pending [] reason = []
fail_all_pending ((k, x) ∷ t) reason =
    reply x.reply (err (web_socket reason)) ∷ fail_all_pending t reason

-- `sweep_pending` at the instant `now`, where `closed` tells which callers have gone away.
unfoldable pub swept : ℕ → (ℕ → Bool) → Table → Table
swept now closed [] = []
swept now closed ((k, x) ∷ t) =
    let rest = swept now closed t in
    if closed x.reply || leb x.deadline now then rest else (k, x) ∷ rest

unfoldable pub sweep_outs : ℕ → (ℕ → Bool) → Table → List Out
sweep_outs now closed [] = []
sweep_outs now closed ((k, x) ∷ t) =
    let rest = sweep_outs now closed t in
    if closed x.reply
    then dropped x.reply ∷ rest
    else if leb x.deadline now
    then reply x.reply (err (timeout "steam request")) ∷ rest
    else rest

abbrev pub idle_probe_misses : ℕ
idle_probe_misses = 6

abbrev pub min_idle_timeout : ℕ
min_idle_timeout = 60

unfoldable pub idle_timeout : ℕ → ℕ
idle_timeout heartbeat = max (heartbeat * idle_probe_misses) min_idle_timeout

unfoldable pub read_idle_expired : ℕ → ℕ → ℕ → Bool
unfolding idle_timeout
read_idle_expired now last_frame heartbeat = leb (idle_timeout heartbeat) (now - last_frame)

pub data LoopExit : Type 0 where
  shutdown : LoopExit
  logged_off : Text → LoopExit
  disconnected : LoopExit

abbrev is_transient : ℤ → Bool
is_transient code =
    is_code code Eresult.no_connection
    || (is_code code Eresult.service_unavailable || is_code code Eresult.try_another_cm)

-- The code of a decoded `CMsgClientLoggedOff`, and what it means.
unfoldable pub classify_code : ℤ → LoopExit
classify_code code =
    if is_transient code
    then disconnected
    else logged_off (msg_int "logged off by Steam (eresult {other})" code)

classify_decoded : Option LoggedOffMsg → LoopExit
unfolding classify_code
classify_decoded none = logged_off (msg "logged off by Steam (undecodable body)")
classify_decoded (some decoded) = classify_code (get_or decoded.eresult (pos Eresult.fail))

unfoldable pub classify_logoff : Proto LoggedOffMsg → SteamMessage → LoopExit
unfolding classify_decoded
classify_logoff p m = classify_decoded (p.decode m.body)

-- A job id that names a job: not 0, and not the `u64::MAX` that stands for none.
unfoldable pub target_of : Option ℕ → Option ℕ
target_of none = none
target_of (some j) = if not (j == 0) && not (j == 2 ^ 64 - 1) then some j else none

unfoldable pub cached : ℕ → Snapshots → Option Bytes
cached e [] = none
cached e ((k, b) ∷ s) = if k == e then some b else cached e s

unfoldable pub is_snapshot : ℕ → List ℕ → Bool
is_snapshot e [] = false
is_snapshot e (x ∷ xs) = x == e || is_snapshot e xs

-- `entry(emsg).or_insert_with(…)`, for the cached message types only.
unfoldable pub cache : SteamMessage → Snapshots → Snapshots
cache m s =
    if is_snapshot m.emsg post_login_snapshot_emsgs
    then (elim (cached m.emsg s) [ some old ↦ s | none ↦ (m.emsg, m.body) ∷ s ])
    else s

-- What `dispatch` changes: the pending table and the snapshot cache.
pub record Routes : Type 0 where
  pub pending : Table
  pub snapshots : Snapshots

waiter : Option ℕ → Table → Option (ℕ × Pending)
waiter none t = none
waiter (some j) t = elim (find j t) [ none ↦ none | some e ↦ some (j, e) ]

unfoldable pub dispatch : Routes → SteamMessage → Routes × List Out
unfolding waiter
dispatch r m = elim (waiter (target_of m.header.jobid_target) r.pending) [
  | some (j, e) ↦ (record r { pending = remove j r.pending }, reply e.reply (ok m) ∷ [])
  | none ↦ (record r { snapshots = cache m r.snapshots }, broadcast m ∷ [])
]

-- What a caller of `request` makes of its reply.
text_of : Option Bytes → Bytes
text_of none = []
text_of (some t) = t

remote_error : ℕ → ℤ → Bytes → Error
remote_error emsg er [] =
    remote (record { template = "emsg {emsg}: eresult {er}"; parts = num (pos emsg) ∷ num er ∷ [] })
remote_error emsg er (c ∷ text) = remote (record {
  template = "emsg {emsg}: eresult {er}: {text}";
  parts = num (pos emsg) ∷ num er ∷ str (c ∷ text) ∷ [];
})

unfoldable pub check_reply_eresult : SteamMessage → Result (Unit {0})
unfolding text_of remote_error
check_reply_eresult m = elim m.header.eresult [
  | none ↦ ok tt
  | some er ↦
      if is_code er Eresult.ok
      then ok tt
      else err (remote_error m.emsg er (text_of m.header.error_message))
]
