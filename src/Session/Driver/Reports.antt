-- ===== src/Session/Driver/Reports.antt =====
-- The states that the driver publishes over its life, as an observer of the watch channel sees
-- them.
pub mod Whole
use steamroids.Prelude.{
  ℕ, Bool, arith, ◌≡◌, refl, sym, ap, ◌∙◌, subst, List, [], ◌∷◌, ◌++◌, Option, some, none,
  Bool-cases, inl, inr, ◌==◌, Option-cases, append_assoc,
}
use steamroids.Prelude.Int.{ℤ}
use steamroids.Error.{Error, Text, Result, ok, err, msg, is_err}
use steamroids.Wire.{Bytes}
use steamroids.Codec.{SteamMessage}
use steamroids.Session.State.{SessionState, connecting, logged_on, logged_off, failed}
use steamroids.Session.Connection.{Polled, waiting, ready, read_message}
use steamroids.Session.Driver.{
  Out, Routes, Table, LoopExit, shutdown, disconnected, reply, dropped, ack, logoff_ack, broadcast,
  publish, frame, probe, fail_all_pending, dispatch, displaced, sweep_outs, read_idle_expired,
}
use steamroids.Session.Driver.Accounts.{dispatch-cases}
use steamroids.Session.Driver.Connected.{
  Services, Command, request, notify, logoff, Driver, Event, command, arrival, reading, Written,
  heartbeat_due, sweep_due, Step, emsg_client_logged_off, accept_request, on_command, on_message,
  on_polled, on_heartbeat, on_sweep, step, connected, run_connected,
}
use steamroids.Session.Driver.Reconnect.{
  Connection, Attempt, Reconnected, Reconnection, stopped, live, rejected, trying,
  answer_while_down, answer_all, after_connect, after_failure, is_fatal, grow, reconnect_from,
  reconnect,
}
use steamroids.Session.Driver.Run.{
  Episode, Outcome, drain, terminal, finish, adopt, disconnect, after_reconnect, after_loss,
  after_exit, run,
}

unfoldable pub published : List Out → List SessionState
published [] = []
published (publish s ∷ outs) = s ∷ published outs
published (o ∷ outs) = published outs

pub published-append : (xs ys : List Out) → published (xs ++ ys) ≡ published xs ++ published ys
unfolding published
published-append [] ys = refl
published-append (publish s ∷ xs) ys = ap (◌∷◌ s) (published-append xs ys)
published-append (reply d r ∷ xs) ys = published-append xs ys
published-append (dropped d ∷ xs) ys = published-append xs ys
published-append (ack d r ∷ xs) ys = published-append xs ys
published-append (logoff_ack d ∷ xs) ys = published-append xs ys
published-append (broadcast m ∷ xs) ys = published-append xs ys
published-append (frame e j b ∷ xs) ys = published-append xs ys
published-append (probe ∷ xs) ys = published-append xs ys

-- Outputs that publish nothing.
abbrev pub Silent : List Out → Type 0
Silent outs = published outs ≡ []

pub Silent-append : (xs ys : List Out) → Silent xs → Silent ys → Silent (xs ++ ys)
Silent-append xs ys h k = rw (published-append, h, k)

-- How the connected part of an episode ends, and the driver that is then left without a connection.
abbrev pub exit_of : Services → Driver → Episode → Option LoopExit
exit_of s d ep = (run_connected s d ep.now ep.events).exit

abbrev pub lost_by : Services → Driver → Episode → Driver
lost_by s d ep = (disconnect (run_connected s d ep.now ep.events).driver).0

mutual
  -- The reports of a driver that is up, over its episodes, and of one that is down, given how its
  -- reconnect ends; the option is what it returns.
  pub data Up (s : Services)
      : Driver → List Episode → Option (Result Text) → List SessionState → Type 0 where
    unstarted : (d : Driver) → Up s d [] none []
    running :
        (d : Driver) (ep : Episode) (eps : List Episode)
        → exit_of s d ep ≡ none
        → Up s d (ep ∷ eps) none []
    closes :
        (d : Driver) (ep : Episode) (eps : List Episode)
        → exit_of s d ep ≡ some shutdown
        → Up s d
            (ep ∷ eps)
            (some (ok (msg "session closed")))
            (logged_off (msg "session closed") ∷ [])
    is_logged_off :
        (d : Driver) (ep : Episode) (eps : List Episode) (reason : Text)
        → exit_of s d ep ≡ some (LoopExit.logged_off reason)
        → Up s d (ep ∷ eps) (some (ok reason)) (logged_off reason ∷ [])
    drops :
        (d : Driver) (ep : Episode) (eps : List Episode) (r : Option (Result Text))
        (ss : List SessionState)
        → exit_of s d ep ≡ some disconnected
        → Down s (lost_by s d ep) (reconnect ep.attempts).end eps r ss
        → Up s d (ep ∷ eps) r (connecting ∷ ss)

  pub data Down (s : Services)
      : Driver
        → Reconnected
        → List Episode
        → Option (Result Text)
        → List SessionState
        → Type 0 where
    retrying : (d : Driver) (eps : List Episode) → Down s d trying eps none []
    gives_up :
        (d : Driver) (eps : List Episode)
        → Down s d stopped eps
            (some (ok (msg "session closed")))
            (logged_off (msg "session closed") ∷ [])
    is_refused :
        (d : Driver) (eps : List Episode) (e : Error)
        → Down s d (rejected e) eps (some (err e)) (failed e ∷ [])
    recovers :
        (d : Driver) (eps : List Episode) (c : Connection) (r : Option (Result Text))
        (ss : List SessionState)
        → Up s (adopt d c) eps r ss
        → Down s d (live c) eps r (logged_on c.steam_id ∷ ss)

pub displaced-Silent : (j : ℕ) (t : Table) → Silent (displaced j t)
unfolding displaced published
displaced-Silent j [] = refl
displaced-Silent j ((k, x) ∷ t) = ground (arith, displaced-Silent j t)

pub fail_all_pending-Silent : (t : Table) (why : Text) → Silent (fail_all_pending t why)
unfolding fail_all_pending published
fail_all_pending-Silent [] why = refl
fail_all_pending-Silent ((k, x) ∷ t) why = fail_all_pending-Silent t why

pub sweep_outs-Silent : (now : ℕ) (closed : ℕ → Bool) (t : Table) → Silent (sweep_outs now closed t)
unfolding sweep_outs published
sweep_outs-Silent now closed [] = refl
sweep_outs-Silent now closed ((k, x) ∷ t) = ground (arith, sweep_outs-Silent now closed t)

dispatch-Silent : (r : Routes) (m : SteamMessage) → Silent (dispatch r m).1
unfolding published
dispatch-Silent r m = elim (dispatch-cases r m) [
  | inl (j, e, job, waits, out) ↦ rw out
  | inr (_, out) ↦ rw out
]

pub drain-Silent : (r : Routes) (ms : List SteamMessage) → Silent (drain r ms).1
unfolding drain published
drain-Silent r [] = refl
drain-Silent r (m ∷ ms) =
    Silent-append (dispatch r m).1 (drain (dispatch r m).0 ms).1 (dispatch-Silent r m)
      (drain-Silent (dispatch r m).0 ms)

accept-Silent :
    (d : Driver) (emsg : ℕ) (body : Bytes) (deadline caller : ℕ) (sent : Written)
    → Silent (accept_request d emsg body deadline caller sent).outs
unfolding accept_request published
accept-Silent d emsg body deadline caller (ok u) = displaced-Silent d.next_jobid d.routes.pending
accept-Silent d emsg body deadline caller (err e) = refl

command-Silent :
    (d : Driver) (m : Option Command) (sent : Written) → Silent (on_command d m sent).outs
unfolding on_command published
command-Silent d none sent = refl
command-Silent d (some (notify emsg body caller)) (ok u) = refl
command-Silent d (some (notify emsg body caller)) (err e) = refl
command-Silent d (some (logoff caller)) sent = refl
command-Silent d (some (request emsg body deadline caller)) sent =
    accept-Silent d emsg body deadline caller sent

message-Silent : (s : Services) (d : Driver) (m : SteamMessage) → Silent (on_message s d m).outs
unfolding on_message published
message-Silent s d m = elim (Bool-cases (m.emsg == emsg_client_logged_off)) [
  | inl off ↦ rw off
  | inr other ↦ rw other (dispatch-Silent d.routes m)
]

step-Silent : (s : Services) (d : Driver) (e : Event) → Silent (step s d e).outs
unfolding step published
step-Silent s d (command m sent) = command-Silent d m sent
step-Silent s d (arrival i at) = refl
step-Silent s d reading = polled (read_message s.codecs d.reader)
  where
    polled : (p : Polled) → Silent (on_polled s d p).outs
    polled (waiting r) = refl
    polled (ready r (ok m)) = message-Silent s (record d { reader = r }) m
    polled (ready r (err x)) = refl
step-Silent s d (heartbeat_due (ok u) (ok v)) = refl
step-Silent s d (heartbeat_due (ok u) (err x)) = refl
step-Silent s d (heartbeat_due (err x) ping) = refl
step-Silent s d (sweep_due now closed) =
    elim (Bool-cases (read_idle_expired now d.reader.last_frame d.heartbeat)) [
      | inl idle ↦ rw (idle, on_sweep)
      | inr alive ↦ rw (alive, on_sweep) (sweep_outs-Silent now closed d.routes.pending)
    ]

-- A connected episode publishes nothing by itself.
pub connected-Silent :
    (s : Services) (d : Driver) (es : List Event) → Silent (connected s d es).outs
unfolding connected published
connected-Silent s d [] = refl
connected-Silent s d (e ∷ es) = elim (Option-cases (step s d e).exit) [
  | inl on ↦
      rw (on, connected)
        (Silent-append (step s d e).outs (connected s (step s d e).driver es).outs
          (step-Silent s d e) (connected-Silent s (step s d e).driver es))
  | inr (why, off) ↦ rw (off, connected) (step-Silent s d e)
]
