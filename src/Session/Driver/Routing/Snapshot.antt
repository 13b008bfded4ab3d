-- ===== src/Session/Driver/Routing/Snapshot.antt =====
-- The snapshot cache over a connected episode.
use steamroids.Prelude.{
  ℕ, ◌≡◌, refl, sym, ap, ◌∙◌, Bool, List, [], ◌∷◌, Option, some, none, Bool-cases, inl, inr, ◌==◌,
  Option-cases, arith,
}
use steamroids.Error.{ok, err}
use steamroids.Wire.{Bytes}
use steamroids.Codec.{SteamMessage}
use steamroids.Session.Connection.{Polled, waiting, ready, read_message}
use steamroids.Session.Driver.{Table, Snapshots, displaced, sweep_outs, read_idle_expired, cached}
use steamroids.Session.Driver.Connected.{
  Services, Command, request, notify, logoff, Driver, Event, command, arrival, reading,
  heartbeat_due, sweep_due, Written, Step, emsg_client_logged_off, accept_request, on_command,
  on_message, on_polled, on_sweep, step, connected,
}
use steamroids.Session.Driver.Routing.{
  or_else, or_else_assoc, or_else-none, first_broadcast, first_broadcast-append, IsSnapshot,
  cached-dispatch,
}

displaced_quiet : (e j : ℕ) (t : Table) → first_broadcast e (displaced j t) ≡ none
unfolding displaced first_broadcast
displaced_quiet e j [] = refl
displaced_quiet e j ((k, x) ∷ t) = ground (arith, displaced_quiet e j t)

sweep_outs_quiet :
    (e now : ℕ) (closed : ℕ → Bool) (t : Table) → first_broadcast e (sweep_outs now closed t) ≡ none
unfolding sweep_outs first_broadcast
sweep_outs_quiet e now closed [] = refl
sweep_outs_quiet e now closed ((k, x) ∷ t) = ground (arith, sweep_outs_quiet e now closed t)

module _ (e : ℕ) (snap : IsSnapshot e) where
  -- What the cache holds is what it held, or else the first broadcast.
  abbrev Tracks : Snapshots → Step → Type 0
  Tracks s st =
      cached e st.driver.routes.snapshots ≡ or_else (cached e s) (first_broadcast e st.outs)

  same : (s : Snapshots) → cached e s ≡ or_else (cached e s) none
  same s = sym (or_else-none (cached e s))

  accept-Tracks :
      (d : Driver) (emsg : ℕ) (body : Bytes) (deadline caller : ℕ) (sent : Written)
      → Tracks d.routes.snapshots (accept_request d emsg body deadline caller sent)
  unfolding accept_request first_broadcast
  accept-Tracks d emsg body deadline caller (ok u) =
      rw (displaced_quiet e d.next_jobid d.routes.pending) (same d.routes.snapshots)
  accept-Tracks d emsg body deadline caller (err x) = same d.routes.snapshots

  command-Tracks :
      (d : Driver) (m : Option Command) (sent : Written)
      → Tracks d.routes.snapshots (on_command d m sent)
  unfolding on_command first_broadcast
  command-Tracks d none sent = same d.routes.snapshots
  command-Tracks d (some (notify emsg body caller)) (ok u) = same d.routes.snapshots
  command-Tracks d (some (notify emsg body caller)) (err x) = same d.routes.snapshots
  command-Tracks d (some (logoff caller)) sent = same d.routes.snapshots
  command-Tracks d (some (request emsg body deadline caller)) sent =
      accept-Tracks d emsg body deadline caller sent

  message-Tracks :
      (s : Services) (d : Driver) (m : SteamMessage) → Tracks d.routes.snapshots (on_message s d m)
  unfolding on_message first_broadcast
  message-Tracks s d m = elim (Bool-cases (m.emsg == emsg_client_logged_off)) [
    | inl off ↦ rw off (same d.routes.snapshots)
    | inr other ↦ rw other (cached-dispatch e d.routes m snap)
  ]

  step-Tracks : (s : Services) (d : Driver) (ev : Event) → Tracks d.routes.snapshots (step s d ev)
  unfolding step first_broadcast
  step-Tracks s d (command m sent) = command-Tracks d m sent
  step-Tracks s d (arrival i at) = same d.routes.snapshots
  step-Tracks s d reading = polled (read_message s.codecs d.reader)
    where
      polled : (p : Polled) → Tracks d.routes.snapshots (on_polled s d p)
      polled (waiting r) = same d.routes.snapshots
      polled (ready r (ok m)) = message-Tracks s (record d { reader = r }) m
      polled (ready r (err x)) = same d.routes.snapshots
  step-Tracks s d (heartbeat_due (ok u) (ok v)) = same d.routes.snapshots
  step-Tracks s d (heartbeat_due (ok u) (err x)) = same d.routes.snapshots
  step-Tracks s d (heartbeat_due (err x) ping) = same d.routes.snapshots
  step-Tracks s d (sweep_due now closed) =
      elim (Bool-cases (read_idle_expired now d.reader.last_frame d.heartbeat)) [
        | inl idle ↦ rw (idle, on_sweep) (same d.routes.snapshots)
        | inr alive ↦
            rw (alive, on_sweep, sweep_outs_quiet e now closed d.routes.pending)
              (same d.routes.snapshots)
      ]

  -- For a message type that is cached: after any connected episode the cache holds the body that
  -- it held before, and if there was none the body of the first message of that type which the
  -- episode broadcast.
  pub connected-cached :
      (s : Services) (d : Driver) (es : List Event)
      → cached e (connected s d es).driver.routes.snapshots
        ≡ or_else (cached e d.routes.snapshots) (first_broadcast e (connected s d es).outs)
  unfolding connected first_broadcast
  connected-cached s d [] = same d.routes.snapshots
  connected-cached s d (ev ∷ es) = elim (Option-cases (step s d ev).exit) [
    | inl on ↦
        let next = (step s d ev).driver in
        rw (on, connected, first_broadcast-append e (step s d ev).outs (connected s next es).outs)
          (connected-cached s next es
            ∙ ap (λ (o : Option Bytes). or_else o (first_broadcast e (connected s next es).outs))
                (step-Tracks s d ev)
            ∙ or_else_assoc (cached e d.routes.snapshots) (first_broadcast e (step s d ev).outs)
                (first_broadcast e (connected s next es).outs))
    | inr (why, off) ↦ rw (off, connected) (step-Tracks s d ev)
  ]
