-- ===== src/Session/Driver/Run.antt =====
-- src/session/driver.rs, `run`: connected episodes with reconnects in between, until the driver
-- stops.
use steamroids.Prelude.{ℕ, List, [], ◌∷◌, ◌++◌, Option, some, none}
use steamroids.Error.{Text, Result, ok, err, msg}
use steamroids.Codec.{SteamMessage}
use steamroids.Session.State.{SessionState, connecting, logged_on, logged_off, failed}
use steamroids.Session.Driver.{
  Out, Routes, LoopExit, shutdown, disconnected, publish, fail_all_pending, dispatch,
}
use steamroids.Session.Driver.{LoopExit}
use steamroids.Session.Driver.Connected.{Services, Driver, Event, Step, run_connected}
use steamroids.Session.Driver.Reconnect.{
  Connection, Attempt, Reconnected, stopped, live, rejected, trying, reconnect,
}

-- What the environment decides about one round: the time it starts, the events of the connected
-- episode, and the reconnect attempts behind it.
pub record Episode : Type 0 where
  pub now : ℕ
  pub events : List Event
  pub attempts : List Attempt

-- `result` is what the task returns, and `none` while it still runs.
pub record Outcome : Type 0 where
  pub driver : Driver
  pub outs : List Out
  pub result : Option (Result Text)

-- The messages that are left in the inbox of a lost connection.
unfoldable pub drain : Routes → List SteamMessage → Routes × List Out
drain r [] = (r, [])
drain r (m ∷ ms) =
    let (r', outs) = dispatch r m in let (r'', more) = drain r' ms in (r'', outs ++ more)

-- The terminal state that is published.
unfoldable pub terminal : Result Text → SessionState
terminal (ok reason) = logged_off reason
terminal (err e) = failed e

unfoldable pub without_pending : Driver → Driver
without_pending d = record d { routes = record (d.routes) { pending = [] } }

unfoldable pub finish : Driver → List Out → Result Text → Outcome
unfolding terminal without_pending
finish d outs result = record {
  driver = without_pending d;
  outs =
      outs
      ++ (fail_all_pending d.routes.pending (msg "session driver stopped")
          ++ (publish (terminal result) ∷ []));
  result = some result;
}

-- What `reconnect` takes over: the socket and what the logon assigned. The job counter is kept.
abbrev take_over : Driver → Connection → Driver
take_over d c = record d {
  steam_id = c.steam_id;
  session_id = c.session_id;
  heartbeat = c.heartbeat;
  reader = c.reader;
}

-- A reconnected driver, whose snapshots are forgotten.
unfoldable pub adopt : Driver → Connection → Driver
adopt d c = let d' = take_over d c in record d' { routes = record (d'.routes) { snapshots = [] } }

-- A lost connection: deliver the inbox, fail what is pending, and report the state.
unfoldable pub disconnect : Driver → Driver × List Out
unfolding drain without_pending
disconnect d =
    let (routes, outs) = drain d.routes d.reader.inbox in
    let lost = record d { routes = routes; reader = record (d.reader) { inbox = [] } } in
    (
      without_pending lost,
      outs
          ++ (fail_all_pending routes.pending (msg "session reconnecting")
              ++ (publish connecting ∷ [])),
    )

abbrev behind : List Out → Outcome → Outcome
behind outs o = record o { outs = outs ++ o.outs }

-- How the reconnect ended decides whether there is another round.
unfoldable pub after_reconnect : Driver → List Out → Reconnected → (Driver → Outcome) → Outcome
unfolding finish adopt
after_reconnect d outs stopped again = finish d outs (ok (msg "session closed"))
after_reconnect d outs (live c) again =
    let d' = adopt d c in behind (outs ++ (publish (logged_on d'.steam_id) ∷ [])) (again d')
after_reconnect d outs (rejected e) again = finish d outs (err e)
after_reconnect d outs trying again = record { driver = d; outs = outs; result = none }

unfoldable pub after_loss : Driver → List Out → List Attempt → (Driver → Outcome) → Outcome
unfolding disconnect after_reconnect
after_loss d outs attempts again =
    let (lost, told) = disconnect d in
    let r = reconnect attempts in after_reconnect lost (outs ++ (told ++ r.outs)) r.end again

unfoldable pub after_exit : Step → List Attempt → (Driver → Outcome) → Option LoopExit → Outcome
unfolding finish after_loss
after_exit st attempts again none = record { driver = st.driver; outs = st.outs; result = none }
after_exit st attempts again (some shutdown) = finish st.driver st.outs (ok (msg "session closed"))
after_exit st attempts again (some (LoopExit.logged_off reason)) =
    finish st.driver st.outs (ok reason)
after_exit st attempts again (some disconnected) = after_loss st.driver st.outs attempts again

unfoldable pub run : Services → Driver → List Episode → Outcome
unfolding after_exit
run s d [] = record { driver = d; outs = []; result = none }
run s d (ep ∷ eps) =
    let st = run_connected s d ep.now ep.events in
    after_exit st ep.attempts (λ d'. run s d' eps) st.exit
