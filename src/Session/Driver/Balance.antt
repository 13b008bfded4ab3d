-- ===== src/Session/Driver/Balance.antt =====
-- Every request of a connected episode is either settled or still held.
use steamroids.Prelude.{
  ℕ, ◌+◌, ◌≡◌, inl, inr, List, [], ◌∷◌, Option, some, none, ◌==◌, Bool-cases, Option-cases, arith,
}
use steamroids.Error.{ok, err}
use steamroids.Wire.{Bytes}
use steamroids.Codec.{SteamMessage}
use steamroids.Session.Connection.{Polled, waiting, ready, read_message}
use steamroids.Session.Driver.{read_idle_expired}
use steamroids.Session.Driver.Connected.{
  Services, Command, request, notify, logoff, Driver, Written, Event, command, arrival, reading,
  heartbeat_due, sweep_due, Step, accept_request, on_command, on_message, on_polled, on_sweep, step,
  connected, emsg_client_logged_off,
}
use steamroids.Session.Driver.Accounts.{
  one_if, held, settled, settled-append, held-insert, held-swept, held-dispatch,
}

-- 1 if the event is a request of caller `c`.
unfoldable pub asked : ℕ → Event → ℕ
asked c (command (some (request emsg body deadline caller)) sent) = one_if caller c
asked c (command (some (notify emsg body caller)) sent) = 0
asked c (command (some (logoff caller)) sent) = 0
asked c (command none sent) = 0
asked c (arrival i at) = 0
asked c reading = 0
asked c (heartbeat_due beat ping) = 0
asked c (sweep_due now closed) = 0

unfoldable pub asked_all : ℕ → List Event → ℕ
unfolding asked
asked_all c [] = 0
asked_all c (e ∷ es) = asked c e + asked_all c es

-- The callers that are settled or held after a step.
abbrev pub accounted : ℕ → Step → ℕ
accounted c st = settled c st.outs + held c st.driver.routes.pending

accept-balance :
    (c : ℕ) (d : Driver) (emsg : ℕ) (body : Bytes) (deadline caller : ℕ) (sent : Written)
    → accounted c (accept_request d emsg body deadline caller sent)
      ≡ one_if caller c + held c d.routes.pending
unfolding accept_request settled
accept-balance c d emsg body deadline caller (ok u) =
    held-insert c d.next_jobid (record { reply = caller; deadline = deadline }) d.routes.pending
accept-balance c d emsg body deadline caller (err e) = omega arith

command-balance :
    (c : ℕ) (d : Driver) (m : Option Command) (sent : Written)
    → accounted c (on_command d m sent) ≡ asked c (command m sent) + held c d.routes.pending
unfolding on_command settled asked
command-balance c d none sent = omega arith
command-balance c d (some (notify emsg body caller)) (ok u) = omega arith
command-balance c d (some (notify emsg body caller)) (err e) = omega arith
command-balance c d (some (logoff caller)) sent = omega arith
command-balance c d (some (request emsg body deadline caller)) sent =
    accept-balance c d emsg body deadline caller sent

message-balance :
    (s : Services) (c : ℕ) (d : Driver) (m : SteamMessage)
    → accounted c (on_message s d m) ≡ held c d.routes.pending
unfolding on_message settled
message-balance s c d m = elim (Bool-cases (m.emsg == emsg_client_logged_off)) [
  | inl off ↦ rw off (omega arith)
  | inr other ↦ rw other (held-dispatch c d.routes m)
]

-- A step settles callers and takes them on, and loses none.
pub step-balance :
    (s : Services) (c : ℕ) (d : Driver) (e : Event)
    → accounted c (step s d e) ≡ asked c e + held c d.routes.pending
unfolding step asked settled
step-balance s c d (command m sent) = command-balance c d m sent
step-balance s c d (arrival i at) = omega arith
step-balance s c d reading = polled (read_message s.codecs d.reader)
  where
    polled : (p : Polled) → accounted c (on_polled s d p) ≡ 0 + held c d.routes.pending
    polled (waiting r) = omega arith
    polled (ready r (ok m)) = omega (arith, message-balance s c (record d { reader = r }) m)
    polled (ready r (err x)) = omega arith
step-balance s c d (heartbeat_due (ok u) (ok v)) = omega arith
step-balance s c d (heartbeat_due (ok u) (err x)) = omega arith
step-balance s c d (heartbeat_due (err x) ping) = omega arith
step-balance s c d (sweep_due now closed) =
    elim (Bool-cases (read_idle_expired now d.reader.last_frame d.heartbeat)) [
      | inl idle ↦ rw (idle, on_sweep) (omega arith)
      | inr alive ↦ rw (alive, on_sweep) (omega (arith, held-swept c now closed d.routes.pending))
    ]

-- The events up to the one that ends the episode.
unfoldable pub handled : Services → Driver → List Event → List Event
handled s d [] = []
handled s d (e ∷ es) =
    let rest = handled s (step s d e).driver es in
    elim (step s d e).exit [ some why ↦ e ∷ [] | none ↦ e ∷ rest ]

-- In a connected episode every caller has been settled, or is held at the end, as often as it was
-- held at the start or asked by an event that the episode handled.
pub connected-balance :
    (s : Services) (c : ℕ) (d : Driver) (es : List Event)
    → accounted c (connected s d es) ≡ asked_all c (handled s d es) + held c d.routes.pending
unfolding connected handled asked_all settled
connected-balance s c d [] = omega arith
connected-balance s c d (e ∷ es) = elim (Option-cases (step s d e).exit) [
  | inl on ↦
      rw (on, connected, handled)
        (omega (
          arith,
          settled-append c (step s d e).outs (connected s (step s d e).driver es).outs,
          step-balance s c d e,
          connected-balance s c (step s d e).driver es,
        ))
  | inr (why, off) ↦ rw (off, connected, handled) (omega (arith, step-balance s c d e))
]
