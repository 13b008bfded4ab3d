-- ===== src/Session/Driver/Connected.antt =====
-- src/session/driver.rs, `run_connected`: one connected episode, as a function of the events that
-- its `select!` meets.
--
-- An event carries what the environment decides: the result of each write, the time, the callers
-- that have gone away. When a timer fires is up to the sequence of events.
use steamroids.Prelude.{
  ℕ, ◌+◌, ◌-◌, ◌^◌, Bool, List, [], ◌∷◌, ◌++◌, Option, some, none, ◌==◌, if◌then◌else◌,
}
use steamroids.Prelude.Int.{ℤ}
use steamroids.Error.{Result, ok, err, web_socket, msg, is_err}
use steamroids.Wire.{Bytes, Proto, LoggedOffMsg}
use steamroids.Codec.{SteamMessage}
use steamroids.Multi.{Codecs}
use steamroids.Session.Connection.{Reader, Incoming, Polled, waiting, ready, read_message}
use steamroids.Session.Driver.{
  Pending, Out, Routes, LoopExit, shutdown, disconnected, reply, ack, logoff_ack, frame, probe,
  insert, displaced, swept, sweep_outs, read_idle_expired, classify_logoff, dispatch,
}

abbrev pub emsg_client_heartbeat : ℕ
emsg_client_heartbeat = 703

abbrev pub emsg_client_logoff : ℕ
emsg_client_logoff = 706

abbrev pub emsg_client_logged_off : ℕ
emsg_client_logged_off = 757

-- The serialisers and the inflater that the driver calls.
pub record Services : Type 0 where
  pub codecs : Codecs
  pub logged_off_proto : Proto LoggedOffMsg

pub data Command : Type 0 where
  -- Message type, body, deadline, caller.
  request : ℕ → Bytes → ℕ → ℕ → Command
  -- Message type, body, caller.
  notify : ℕ → Bytes → ℕ → Command
  logoff : ℕ → Command

pub record Driver : Type 0 where
  pub steam_id : ℕ
  pub session_id : ℤ
  pub heartbeat : ℕ
  pub next_jobid : ℕ
  pub routes : Routes
  pub reader : Reader

abbrev pub Written : Type 0
Written = Result (Unit {0})

pub data Event : Type 0 where
  -- A command (`none`: all handles are gone), and the result of the write it leads to.
  command : Option Command → Written → Event
  -- Something arrives on the socket; and the driver reads.
  arrival : Incoming → ℕ → Event
  reading : Event
  -- The heartbeat timer, with the results of the heartbeat and of the ping.
  heartbeat_due : Written → Written → Event
  -- The sweep timer, at a time, with the callers that are gone.
  sweep_due : ℕ → (ℕ → Bool) → Event

pub record Step : Type 0 where
  pub driver : Driver
  pub outs : List Out
  pub exit : Option LoopExit

abbrev pub stay : Driver → List Out → Step
stay d outs = record { driver = d; outs = outs; exit = none }

abbrev pub leave : Driver → List Out → LoopExit → Step
leave d outs why = record { driver = d; outs = outs; exit = some why }

-- `checked_add(1).unwrap_or(1)` on a `u64`.
unfoldable pub following : ℕ → ℕ
following jobid = if jobid == 2 ^ 64 - 1 then 1 else jobid + 1

unfoldable pub accept_request : Driver → ℕ → Bytes → ℕ → ℕ → Written → Step
unfolding following
accept_request d emsg body deadline caller sent =
    let jobid = d.next_jobid in
    let next = record d { next_jobid = following jobid } in
    let sending = frame emsg (some jobid) body in
    let entry : Pending = record { reply = caller; deadline = deadline } in
    elim sent [
      | err e ↦
          leave next (sending ∷ reply caller (err (web_socket (msg "session reconnecting"))) ∷ [])
            disconnected
      | ok u ↦
          stay
            (record next {
              routes = record (d.routes) { pending = insert jobid entry d.routes.pending };
            })
            (sending ∷ displaced jobid d.routes.pending)
    ]

unfoldable pub on_command : Driver → Option Command → Written → Step
unfolding accept_request
on_command d none sent = leave d [] shutdown
on_command d (some (notify emsg body caller)) sent =
    let outs = frame emsg none body ∷ ack caller sent ∷ [] in
    if is_err sent then leave d outs disconnected else stay d outs
on_command d (some (logoff caller)) sent =
    leave d (frame emsg_client_logoff none [] ∷ logoff_ack caller ∷ []) shutdown
on_command d (some (request emsg body deadline caller)) sent =
    accept_request d emsg body deadline caller sent

unfoldable pub on_message : Services → Driver → SteamMessage → Step
on_message s d m =
    let (routes, outs) = dispatch d.routes m in
    if m.emsg == emsg_client_logged_off
    then leave d [] (classify_logoff s.logged_off_proto m)
    else stay (record d { routes = routes }) outs

unfoldable pub on_polled : Services → Driver → Polled → Step
unfolding on_message
on_polled s d (waiting r) = stay (record d { reader = r }) []
on_polled s d (ready r (ok m)) = on_message s (record d { reader = r }) m
on_polled s d (ready r (err e)) = leave (record d { reader = r }) [] disconnected

unfoldable pub on_heartbeat : Driver → Written → Written → Step
on_heartbeat d beat ping =
    let sending = frame emsg_client_heartbeat none [] in
    if is_err beat
    then leave d (sending ∷ []) disconnected
    else if is_err ping
    then leave d (sending ∷ probe ∷ []) disconnected
    else stay d (sending ∷ probe ∷ [])

unfoldable pub on_sweep : Driver → ℕ → (ℕ → Bool) → Step
on_sweep d now closed =
    if read_idle_expired now d.reader.last_frame d.heartbeat
    then leave d [] disconnected
    else stay
        (record d { routes = record (d.routes) { pending = swept now closed d.routes.pending } })
        (sweep_outs now closed d.routes.pending)

unfoldable pub step : Services → Driver → Event → Step
unfolding on_command on_polled on_heartbeat on_sweep
step s d (command c sent) = on_command d c sent
step s d (arrival i at) =
    stay (record d { reader = record (d.reader) { unread = d.reader.unread ++ ((i, at) ∷ []) } }) []
step s d reading = on_polled s d (read_message s.codecs d.reader)
step s d (heartbeat_due beat ping) = on_heartbeat d beat ping
step s d (sweep_due now closed) = on_sweep d now closed

-- The episode: events until one of them ends it. With no event left it is still running.
unfoldable pub connected : Services → Driver → List Event → Step
connected s d [] = stay d []
connected s d (e ∷ es) =
    let first = step s d e in
    let rest = connected s first.driver es in
    elim first.exit [ some why ↦ first | none ↦ record rest { outs = first.outs ++ rest.outs } ]

-- `run_connected` starts by stamping the liveness clock.
unfoldable pub run_connected : Services → Driver → ℕ → List Event → Step
unfolding connected
run_connected s d now events =
    connected s (record d { reader = record (d.reader) { last_frame = now } }) events
