-- ===== src/Session/Driver/Reconnect.antt =====
-- src/session/driver.rs, `reconnect`, `answer_while_down` and the outer loop `run`.
--
-- What the environment decides comes in a list of attempts: the commands that arrive during the
-- backoff sleep, those that arrive during the connect, and how the connect ends.
use steamroids.Prelude.{
  ℕ, ◌*◌, min, Bool, true, false, List, [], ◌∷◌, ◌++◌, Option, some, none, if◌then◌else◌,
}
use steamroids.Prelude.Int.{ℤ}
use steamroids.Error.{Error, Result, ok, err, web_socket, auth_rejected, msg}
use steamroids.Session.Connection.{Reader}
use steamroids.Session.Driver.{Out, reply, ack, logoff_ack}
use steamroids.Session.Driver.Connected.{Command, request, notify, logoff}

abbrev pub initial_backoff : ℕ
initial_backoff = 1

abbrev pub max_backoff : ℕ
max_backoff = 60

-- `(backoff * 2).min(MAX_BACKOFF)`.
abbrev pub grow : ℕ → ℕ
grow backoff = min (backoff * 2) max_backoff

-- Whether the driver must stop, and what the caller of the command is told.
unfoldable pub answer_while_down : Option Command → Bool × List Out
answer_while_down none = (true, [])
answer_while_down (some (logoff caller)) = (true, logoff_ack caller ∷ [])
answer_while_down (some (request emsg body deadline caller)) =
    (false, reply caller (err (web_socket (msg "session reconnecting"))) ∷ [])
answer_while_down (some (notify emsg body caller)) =
    (false, ack caller (err (web_socket (msg "session reconnecting"))) ∷ [])

-- The commands that race the sleep or the connect, up to one that stops the driver.
unfoldable pub answer_all : List (Option Command) → Bool × List Out
unfolding answer_while_down
answer_all [] = (false, [])
answer_all (c ∷ cs) =
    let (stop, outs) = answer_while_down c in
    let (later, more) = answer_all cs in if stop then (true, outs) else (later, outs ++ more)

-- A connection with its logon: what the driver takes over from it.
pub record Connection : Type 0 where
  pub steam_id : ℕ
  pub session_id : ℤ
  pub heartbeat : ℕ
  pub reader : Reader

pub record Attempt : Type 0 where
  pub sleeping : List (Option Command)
  pub connecting : List (Option Command)
  pub outcome : Result Connection

pub data Reconnected : Type 0 where
  stopped : Reconnected
  live : Connection → Reconnected
  rejected : Error → Reconnected
  -- The attempts at hand are used up.
  trying : Reconnected

-- The waits of the attempts that were made, what callers were told, and how it ended.
pub record Reconnection : Type 0 where
  pub waits : List ℕ
  pub outs : List Out
  pub end : Reconnected

-- A rejected token ends the loop; any other failure is one more attempt.
unfoldable pub is_fatal : Error → Bool
is_fatal (auth_rejected t) = true
is_fatal (web_socket t) = false
is_fatal other = false

unfoldable pub after_failure : Error → Reconnection → Reconnection
unfolding is_fatal
after_failure e rest =
    if is_fatal e then record { waits = []; outs = []; end = rejected e } else rest

unfoldable pub after_connect : Result Connection → Reconnection → Reconnection
unfolding after_failure
after_connect (ok c) rest = record { waits = []; outs = []; end = live c }
after_connect (err e) rest = after_failure e rest

unfoldable pub reconnect_from : ℕ → List Attempt → Reconnection
unfolding answer_all after_connect
reconnect_from backoff [] = record { waits = []; outs = []; end = trying }
reconnect_from backoff (a ∷ attempts) =
    let later = after_connect a.outcome (reconnect_from (grow backoff) attempts) in
    let (stop, told) = answer_all a.sleeping in
    let (stop', told') = answer_all a.connecting in
    if stop
    then record { waits = backoff ∷ []; outs = told; end = stopped }
    else if stop'
    then record { waits = backoff ∷ []; outs = told ++ told'; end = stopped }
    else record {
      waits = backoff ∷ later.waits;
      outs = told ++ (told' ++ later.outs);
      end = later.end;
    }

unfoldable pub reconnect : List Attempt → Reconnection
unfolding reconnect_from
reconnect attempts = reconnect_from initial_backoff attempts
