-- ===== src/Gc/Pump/Budget.antt =====
-- How often the pump prompts the Game Coordinator.
use steamroids.Prelude.{
  ℕ, ◌+◌, ◌*◌, ◌≤◌, ◌≡◌, refl, true, false, List, [], ◌∷◌, ◌++◌, some, none, ◌==◌, if◌then◌else◌,
  ltb, ltb→lt, ◌&&◌, not, Bool-cases, Option-cases, inl, inr, arith,
}
use steamroids.Error.{ok, err}
use steamroids.Codec.{SteamMessage}
use steamroids.Session.State.{SessionState, is_ready}
use steamroids.Gc.Envelope.{GcMessage, emsg_client_to_gc}
use steamroids.Gc.Pump.{
  Effect, notified, set_ready, relayed, App, Sent, Pump, Turn, Input, released, state_changed,
  hello_tick, received, lagged, send_hello, launch, has_gc_session, on_state, on_tick,
  on_gc_message, on_received, gc_part, react, pump, initial_pump, max_hello_attempts,
  gc_client_welcome, gc_client_connection_status, emsg_client_games_played,
}

-- The hellos among the effects.
unfoldable pub hellos : List Effect → ℕ
hellos [] = 0
hellos (notified emsg body ∷ es) = (if emsg == emsg_client_to_gc then 1 else 0) + hellos es
hellos (set_ready b ∷ es) = hellos es
hellos (relayed m ∷ es) = hellos es

-- How often the pump reports that it is not ready.
unfoldable pub resets : List Effect → ℕ
resets [] = 0
resets (set_ready true ∷ es) = resets es
resets (set_ready false ∷ es) = 1 + resets es
resets (notified emsg body ∷ es) = resets es
resets (relayed m ∷ es) = resets es

-- How often it announces the app.
unfoldable pub announcements : List Effect → ℕ
announcements [] = 0
announcements (notified emsg body ∷ es) =
    (if emsg == emsg_client_games_played then 1 else 0) + announcements es
announcements (set_ready b ∷ es) = announcements es
announcements (relayed m ∷ es) = announcements es

announcements-append :
    (xs ys : List Effect) → announcements (xs ++ ys) ≡ announcements xs + announcements ys
unfolding announcements
announcements-append [] ys = omega arith
announcements-append (notified emsg body ∷ xs) ys = omega (arith, announcements-append xs ys)
announcements-append (set_ready b ∷ xs) ys = announcements-append xs ys
announcements-append (relayed m ∷ xs) ys = announcements-append xs ys

hellos-append : (xs ys : List Effect) → hellos (xs ++ ys) ≡ hellos xs + hellos ys
unfolding hellos
hellos-append [] ys = omega arith
hellos-append (notified emsg body ∷ xs) ys = omega (arith, hellos-append xs ys)
hellos-append (set_ready b ∷ xs) ys = hellos-append xs ys
hellos-append (relayed m ∷ xs) ys = hellos-append xs ys

resets-append : (xs ys : List Effect) → resets (xs ++ ys) ≡ resets xs + resets ys
unfolding resets
resets-append [] ys = omega arith
resets-append (set_ready true ∷ xs) ys = resets-append xs ys
resets-append (set_ready false ∷ xs) ys = omega (arith, resets-append xs ys)
resets-append (notified emsg body ∷ xs) ys = resets-append xs ys
resets-append (relayed m ∷ xs) ys = resets-append xs ys

-- What a turn from `p` spends is covered by the attempts it counts, the resets and the announcements.
abbrev Covered : Pump → Turn → Type 0
Covered p t =
    (t.pump.hello_attempts ≤ 20)
    × (hellos t.effects + p.hello_attempts
        ≤ t.pump.hello_attempts + 20 * resets t.effects + announcements t.effects)

launch-hellos :
    (a : App) (announced : Sent)
    → (hellos (launch a announced) ≤ announcements (launch a announced))
      × (resets (launch a announced) ≡ 0)
unfolding launch hellos resets announcements send_hello
launch-hellos a (ok u) = (omega arith, refl)
launch-hellos a (err e) = (omega arith, refl)

state-Covered :
    (a : App) (p : Pump) (s : SessionState) (announced : Sent)
    → p.hello_attempts ≤ 20
    → Covered p (on_state a s announced)
unfolding on_state hellos resets announcements
state-Covered a p s announced h = elim (Bool-cases (is_ready s)) [
  | inl up ↦
      rw up
        (omega arith, omega (arith, (launch-hellos a announced).0, (launch-hellos a announced).1))
  | inr down ↦ rw down (omega arith, omega arith)
]

tick-Covered : (a : App) (p : Pump) → p.hello_attempts ≤ 20 → Covered p (on_tick a p)
unfolding on_tick hellos resets announcements send_hello
tick-Covered a p h = elim (Bool-cases p.ready) [
  | inl up ↦ rw up (h, omega arith)
  | inr down ↦ elim (Bool-cases (ltb p.hello_attempts max_hello_attempts)) [
    | inl left ↦
        rw (down, left)
          (omega (arith, ltb→lt p.hello_attempts max_hello_attempts left), omega arith)
    | inr spent ↦ rw (down, spent) (h, omega arith)
  ]
]

gc-Covered :
    (a : App) (p : Pump) (m : GcMessage) → p.hello_attempts ≤ 20 → Covered p (on_gc_message a p m)
unfolding on_gc_message hellos resets announcements
gc-Covered a p m h = elim (Bool-cases (m.msgtype == gc_client_welcome)) [
  | inl welcome ↦ rw (welcome, on_gc_message) (h, omega arith)
  | inr other ↦
      elim (Bool-cases
        (m.msgtype == gc_client_connection_status && not (has_gc_session a m.body))) [
          | inl lost ↦ rw (other, lost, on_gc_message) (omega arith, omega arith)
          | inr kept ↦ rw (other, kept, on_gc_message) (h, omega arith)
        ]
]

received-Covered :
    (a : App) (p : Pump) (m : SteamMessage) → p.hello_attempts ≤ 20 → Covered p (on_received a p m)
unfolding on_received hellos resets announcements
received-Covered a p m h = elim (Option-cases (gc_part a m)) [
  | inl skipped ↦ rw (skipped, on_received) (h, omega arith)
  | inr (gc, found) ↦ rw (found, on_received) (gc-Covered a p gc h)
]

react-Covered : (a : App) (p : Pump) (i : Input) → p.hello_attempts ≤ 20 → Covered p (react a p i)
unfolding react hellos resets announcements
react-Covered a p released h = (h, omega arith)
react-Covered a p (state_changed none announced) h = (h, omega arith)
react-Covered a p (state_changed (some s) announced) h = state-Covered a p s announced h
react-Covered a p hello_tick h = tick-Covered a p h
react-Covered a p (received none) h = (h, omega arith)
react-Covered a p (received (some m)) h = received-Covered a p m h
react-Covered a p lagged h = (h, omega arith)

pump-Covered :
    (a : App) (p : Pump) (is : List Input) → p.hello_attempts ≤ 20 → Covered p (pump a p is)
unfolding pump hellos resets announcements
pump-Covered a p [] h = (h, omega arith)
pump-Covered a p (i ∷ is) h = elim (Bool-cases (react a p i).over) [
  | inl stop ↦ rw stop (react-Covered a p i h)
  | inr on ↦
      let (bound, here) = react-Covered a p i h in
      let next = (react a p i).pump in
      let (bound', later) = pump-Covered a next is bound in
      rw on (
        bound',
        omega (
          arith,
          here,
          later,
          hellos-append (react a p i).effects (pump a next is).effects,
          resets-append (react a p i).effects (pump a next is).effects,
          announcements-append (react a p i).effects (pump a next is).effects,
        ),
      )
]

-- However long it runs, the hellos that a pump sends are no more than 20, the retries of the start,
-- with 20 more for each time that it reports that it is not ready, and one for each time that it
-- announces the app.
pub pump-hellos :
    (a : App) (is : List Input)
    → hellos (pump a initial_pump is).effects
      ≤ 20
        + 20 * resets (pump a initial_pump is).effects
        + announcements (pump a initial_pump is).effects
pump-hellos a is = omega (
  arith,
  (pump-Covered a initial_pump is (omega arith)).0,
  (pump-Covered a initial_pump is (omega arith)).1,
)
