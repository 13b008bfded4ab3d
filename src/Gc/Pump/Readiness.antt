-- ===== src/Gc/Pump/Readiness.antt =====
-- The readiness that observers see.
use steamroids.Prelude.{
  ◌≡◌, refl, ap, ◌∙◌, Bool, List, [], ◌∷◌, ◌++◌, some, none, ltb, ◌&&◌, not, ◌==◌, Bool-cases,
  Option-cases, inl, inr,
}
use steamroids.Error.{ok, err}
use steamroids.Codec.{SteamMessage}
use steamroids.Session.State.{SessionState, is_ready}
use steamroids.Gc.Envelope.{GcMessage}
use steamroids.Gc.Pump.{
  Effect, notified, set_ready, relayed, App, Sent, Pump, Turn, Input, released, state_changed,
  hello_tick, received, lagged, send_hello, launch, has_gc_session, on_state, on_tick,
  on_gc_message, on_received, gc_part, react, pump, max_hello_attempts, gc_client_welcome,
  gc_client_connection_status,
}

-- What the watch channel holds behind the effects, if it held `b` before.
unfoldable pub shown : Bool → List Effect → Bool
shown b [] = b
shown b (set_ready c ∷ es) = shown c es
shown b (notified emsg body ∷ es) = shown b es
shown b (relayed m ∷ es) = shown b es

shown-append : (b : Bool) (xs ys : List Effect) → shown b (xs ++ ys) ≡ shown (shown b xs) ys
unfolding shown
shown-append b [] ys = refl
shown-append b (set_ready c ∷ xs) ys = shown-append c xs ys
shown-append b (notified emsg body ∷ xs) ys = shown-append b xs ys
shown-append b (relayed m ∷ xs) ys = shown-append b xs ys

abbrev Shows : Pump → Turn → Type 0
Shows p t = t.pump.ready ≡ shown p.ready t.effects

state-Shows :
    (a : App) (p : Pump) (s : SessionState) (announced : Sent) → Shows p (on_state a s announced)
unfolding on_state launch shown send_hello
state-Shows a p s (ok u) = elim (Bool-cases (is_ready s)) [
  | inl up ↦ rw up refl
  | inr down ↦ rw down refl
]
state-Shows a p s (err e) = elim (Bool-cases (is_ready s)) [
  | inl up ↦ rw up refl
  | inr down ↦ rw down refl
]

tick-Shows : (a : App) (p : Pump) → Shows p (on_tick a p)
unfolding on_tick shown send_hello
tick-Shows a p = elim (Bool-cases (not p.ready && ltb p.hello_attempts max_hello_attempts)) [
  | inl retry ↦ rw retry refl
  | inr quiet ↦ rw quiet refl
]

gc-Shows : (a : App) (p : Pump) (m : GcMessage) → Shows p (on_gc_message a p m)
unfolding on_gc_message shown
gc-Shows a p m = elim (Bool-cases (m.msgtype == gc_client_welcome)) [
  | inl welcome ↦ rw welcome refl
  | inr other ↦
      elim (Bool-cases
        (m.msgtype == gc_client_connection_status && not (has_gc_session a m.body))) [
          | inl lost ↦ rw (other, lost) refl
          | inr kept ↦ rw (other, kept) refl
        ]
]

received-Shows : (a : App) (p : Pump) (m : SteamMessage) → Shows p (on_received a p m)
unfolding on_received shown
received-Shows a p m = elim (Option-cases (gc_part a m)) [
  | inl skipped ↦ rw (skipped, on_received) refl
  | inr (gc, found) ↦ rw (found, on_received) (gc-Shows a p gc)
]

react-Shows : (a : App) (p : Pump) (i : Input) → Shows p (react a p i)
unfolding react shown
react-Shows a p released = refl
react-Shows a p (state_changed none announced) = refl
react-Shows a p (state_changed (some s) announced) = state-Shows a p s announced
react-Shows a p hello_tick = tick-Shows a p
react-Shows a p (received none) = refl
react-Shows a p (received (some m)) = received-Shows a p m
react-Shows a p lagged = refl

-- The pump's own flag, which decides whether it sends hellos, is at any time what the watch channel
-- shows: the last readiness that it sent, or the one it started with.
pub pump-shown :
    (a : App) (p : Pump) (is : List Input)
    → (pump a p is).pump.ready ≡ shown p.ready (pump a p is).effects
unfolding pump shown
pump-shown a p [] = refl
pump-shown a p (i ∷ is) = elim (Bool-cases (react a p i).over) [
  | inl stop ↦ rw stop (react-Shows a p i)
  | inr on ↦
      let next = (react a p i).pump in
      rw (on, shown-append p.ready (react a p i).effects (pump a next is).effects)
        (pump-shown a next is
          ∙ ap (λ (b : Bool). shown b (pump a next is).effects) (react-Shows a p i))
]
