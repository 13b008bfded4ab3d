-- ===== src/Session/Driver/Answered/Whole.antt =====
-- The accounts of the outer loop.
use steamroids.Prelude.{
  ℕ, ◌+◌, ◌≡◌, refl, ap, ◌⊎◌, inl, inr, List, [], ◌∷◌, ◌++◌, Option, some, none, arith,
}
use steamroids.Error.{Text, Result, ok, err, msg}
use steamroids.Session.State.{logged_on}
use steamroids.Session.Driver.{Out, LoopExit, shutdown, disconnected, publish}
use steamroids.Session.Driver.Accounts.{held, settled, settled-append}
use steamroids.Session.Driver.Connected.{Services, Driver, Event, Step, run_connected}
use steamroids.Session.Driver.Balance.{asked_all, handled, accounted, connected-balance}
use steamroids.Session.Driver.Reconnect.{
  Connection, Attempt, Reconnected, stopped, live, rejected, trying, reconnect, initial_backoff,
}
use steamroids.Session.Driver.Run.{
  Episode, Outcome, finish, adopt, disconnect, after_reconnect, after_exit, run,
}
use steamroids.Session.Driver.Answered.{
  asked_attempts, reconnect_from-balance, settled-disconnect, settled-finish, pending-disconnect,
  pending-finish,
}

-- The requests of the rounds that follow a reconnect, if one follows.
unfoldable pub asked_again : Driver → Reconnected → (Driver → ℕ) → ℕ
asked_again d stopped again = 0
asked_again d (live c) again = again (adopt d c)
asked_again d (rejected e) again = 0
asked_again d trying again = 0

unfoldable pub asked_after : ℕ → Step → List Attempt → (Driver → ℕ) → Option LoopExit → ℕ
unfolding asked_again
asked_after c st attempts again none = 0
asked_after c st attempts again (some shutdown) = 0
asked_after c st attempts again (some (LoopExit.logged_off reason)) = 0
asked_after c st attempts again (some disconnected) =
    asked_attempts c attempts + asked_again (disconnect st.driver).0 (reconnect attempts).end again

-- The driver with its liveness clock stamped.
abbrev pub stamped : Driver → ℕ → Driver
stamped d now = record d { reader = record (d.reader) { last_frame = now } }

-- How often caller `c` asks in the commands that the driver takes from its channel.
unfoldable pub asked_run : ℕ → Services → Driver → List Episode → ℕ
unfolding asked_after
asked_run c s d [] = 0
asked_run c s d (ep ∷ eps) =
    let st = run_connected s d ep.now ep.events in
    asked_all c (handled s (stamped d ep.now) ep.events)
    + asked_after c st ep.attempts (λ d'. asked_run c s d' eps) st.exit

abbrev Balanced : ℕ → Outcome → ℕ → Type 0
Balanced c o n = settled c o.outs + held c o.driver.routes.pending ≡ n

held-adopt :
    (c : ℕ) (d : Driver) (conn : Connection)
    → held c (adopt d conn).routes.pending ≡ held c d.routes.pending
unfolding adopt
held-adopt c d conn = refl

module _ (c : ℕ) (again : Driver → Outcome) (asks : Driver → ℕ)
    (ih : (d : Driver) → Balanced c (again d) (asks d + held c d.routes.pending)) where
  reconnect-balance :
      (d : Driver) (outs : List Out) (r : Reconnected)
      → Balanced c
          (after_reconnect d outs r again)
          (settled c outs + asked_again d r asks + held c d.routes.pending)
  unfolding after_reconnect asked_again settled
  reconnect-balance d outs stopped = omega (
    arith,
    settled-finish c d outs (ok (msg "session closed")),
    pending-finish c d outs (ok (msg "session closed")),
  )
  reconnect-balance d outs (rejected e) =
      omega (arith, settled-finish c d outs (err e), pending-finish c d outs (err e))
  reconnect-balance d outs trying = omega arith
  reconnect-balance d outs (live conn) =
      let news = publish (logged_on conn.steam_id) ∷ [] in
      rw (settled-append c (outs ++ news) (again (adopt d conn)).outs, settled-append c outs news)
        (omega (arith, ih (adopt d conn), held-adopt c d conn))

  exit-balance :
      (st : Step) (attempts : List Attempt) (why : Option LoopExit)
      → Balanced c
          (after_exit st attempts again why)
          (accounted c st + asked_after c st attempts asks why)
  unfolding after_exit asked_after settled reconnect held
  exit-balance st attempts none = omega arith
  exit-balance st attempts (some shutdown) = omega (
    arith,
    settled-finish c st.driver st.outs (ok (msg "session closed")),
    pending-finish c st.driver st.outs (ok (msg "session closed")),
  )
  exit-balance st attempts (some (LoopExit.logged_off reason)) = omega (
    arith,
    settled-finish c st.driver st.outs (ok reason),
    pending-finish c st.driver st.outs (ok reason),
  )
  exit-balance st attempts (some disconnected) =
      let (lost, told) = disconnect st.driver in
      let r = reconnect attempts in
      omega (
        arith,
        reconnect-balance lost (st.outs ++ (told ++ r.outs)) r.end,
        settled-append c st.outs (told ++ r.outs),
        settled-append c told r.outs,
        settled-disconnect c st.driver,
        pending-disconnect c st.driver,
        reconnect_from-balance c initial_backoff attempts,
      )

stamped-balance :
    (c : ℕ) (s : Services) (d : Driver) (now : ℕ) (es : List Event)
    → accounted c (run_connected s d now es)
      ≡ asked_all c (handled s (stamped d now) es) + held c d.routes.pending
unfolding run_connected
stamped-balance c s d now es = connected-balance s c (stamped d now) es

run-balance :
    (c : ℕ) (s : Services) (d : Driver) (eps : List Episode)
    → Balanced c (run s d eps) (asked_run c s d eps + held c d.routes.pending)
unfolding run asked_run settled
run-balance c s d [] = omega arith
run-balance c s d (ep ∷ eps) =
    let st = run_connected s d ep.now ep.events in
    omega (
      arith,
      exit-balance c (λ d'. run s d' eps) (λ d'. asked_run c s d' eps)
          (λ d'. run-balance c s d' eps) st ep.attempts st.exit,
      stamped-balance c s d ep.now ep.events,
    )

held-nil : (c : ℕ) → held c [] ≡ 0
unfolding held
held-nil c = refl

-- Still running, or with an empty pending table.
abbrev pub Ended : Outcome → Type 0
Ended o = (o.result ≡ none) ⊎ (o.driver.routes.pending ≡ [])

module _ (again : Driver → Outcome) (ih : (d : Driver) → Ended (again d)) where
  reconnect-Ended :
      (d : Driver) (outs : List Out) (r : Reconnected) → Ended (after_reconnect d outs r again)
  unfolding after_reconnect finish
  reconnect-Ended d outs stopped = inr refl
  reconnect-Ended d outs (live conn) = ih (adopt d conn)
  reconnect-Ended d outs (rejected e) = inr refl
  reconnect-Ended d outs trying = inl refl

  exit-Ended :
      (st : Step) (attempts : List Attempt) (why : Option LoopExit)
      → Ended (after_exit st attempts again why)
  unfolding after_exit finish
  exit-Ended st attempts none = inl refl
  exit-Ended st attempts (some shutdown) = inr refl
  exit-Ended st attempts (some (LoopExit.logged_off reason)) = inr refl
  exit-Ended st attempts (some disconnected) =
      reconnect-Ended (disconnect st.driver).0
        (st.outs ++ ((disconnect st.driver).1 ++ (reconnect attempts).outs))
        (reconnect attempts).end

run-Ended : (s : Services) (d : Driver) (eps : List Episode) → Ended (run s d eps)
unfolding run
run-Ended s d [] = inl refl
run-Ended s d (ep ∷ eps) =
    let st = run_connected s d ep.now ep.events in
    exit-Ended (λ d'. run s d' eps) (λ d'. run-Ended s d' eps) st ep.attempts st.exit

-- Once the driver has returned, for whatever reason, its pending table is empty, and every caller
-- has been settled exactly as often as it was held at the start or asked in a command that the
-- driver took from its channel, whether connected or between connections.
pub run-settles :
    (c : ℕ) (s : Services) (d : Driver) (eps : List Episode) (r : Result Text)
    → (run s d eps).result ≡ some r
    → ((run s d eps).driver.routes.pending ≡ [])
      × (settled c (run s d eps).outs ≡ asked_run c s d eps + held c d.routes.pending)
run-settles c s d eps r e = elim (run-Ended s d eps) [
  | inl running ↦ absurd (cc (e, running))
  | inr empty ↦ (empty, omega (arith, run-balance c s d eps, ap (held c) empty, held-nil c))
]
