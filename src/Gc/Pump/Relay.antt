-- ===== src/Gc/Pump/Relay.antt =====
-- What the subscribers of a coordinator receive.
use steamroids.Prelude.{
  ◌≢◌, ◌⊎◌, subst, arith, ◌≡◌, refl, sym, ap, ◌∙◌, Bool, true, false, List, [], ◌∷◌, ◌++◌, Option,
  some, none, ltb, ◌&&◌, not, ◌==◌, Bool-cases, Option-cases, inl, inr,
}
use steamroids.Error.{Error, ok, err, Result-cases}
use steamroids.Codec.{SteamMessage}
use steamroids.Session.State.{SessionState, is_ready}
use steamroids.Gc.Envelope.{GcMessage, emsg_client_from_gc, unwrap}
use steamroids.Gc.Pump.{
  Effect, notified, set_ready, relayed, App, Sent, Pump, Turn, Input, released, state_changed,
  hello_tick, received, lagged, send_hello, launch, has_gc_session, on_state, on_tick,
  on_gc_message, on_received, gc_part, addressed, react, pump, max_hello_attempts,
  gc_client_welcome, gc_client_connection_status,
}

-- The messages among the effects.
unfoldable pub relays : List Effect → List GcMessage
relays [] = []
relays (relayed m ∷ es) = m ∷ relays es
relays (set_ready b ∷ es) = relays es
relays (notified emsg body ∷ es) = relays es

relays-append : (xs ys : List Effect) → relays (xs ++ ys) ≡ relays xs ++ relays ys
unfolding relays
relays-append [] ys = refl
relays-append (relayed m ∷ xs) ys = ap (◌∷◌ m) (relays-append xs ys)
relays-append (set_ready b ∷ xs) ys = relays-append xs ys
relays-append (notified emsg body ∷ xs) ys = relays-append xs ys

-- Whether an input ends the pump.
unfoldable pub is_last : Input → Bool
is_last released = true
is_last (state_changed none announced) = true
is_last (state_changed (some s) announced) = false
is_last hello_tick = false
is_last (received none) = true
is_last (received (some m)) = false
is_last lagged = false

-- What an input that does not end the pump carries: the GC message of the app, or nothing.
pub data Carries (a : App) : Input → List GcMessage → Type 0 where
  own :
      (m : SteamMessage) (gc : GcMessage)
      → m.emsg ≡ emsg_client_from_gc
      → unwrap a.protos m ≡ ok (some gc)
      → gc.appid ≡ a.appid
      → Carries a (received (some m)) (gc ∷ [])
  other_type : (m : SteamMessage) → m.emsg ≢ emsg_client_from_gc → Carries a (received (some m)) []
  unreadable :
      (m : SteamMessage) (e : Error) → unwrap a.protos m ≡ err e → Carries a (received (some m)) []
  legacy : (m : SteamMessage) → unwrap a.protos m ≡ ok none → Carries a (received (some m)) []
  other_app :
      (m : SteamMessage) (gc : GcMessage)
      → unwrap a.protos m ≡ ok (some gc)
      → gc.appid ≢ a.appid
      → Carries a (received (some m)) []
  state : (s : SessionState) (announced : Sent) → Carries a (state_changed (some s) announced) []
  tick : Carries a hello_tick []
  missed : Carries a lagged []

-- The GC messages of the app among the inputs, in order, up to the input that ends the pump.
pub data Addressed (a : App) : List Input → List GcMessage → Type 0 where
  pending : Addressed a [] []
  ends : (i : Input) (is : List Input) → is_last i ≡ true → Addressed a (i ∷ is) []
  goes_on :
      (i : Input) (is : List Input) (here later : List GcMessage)
      → is_last i ≡ false
      → Carries a i here
      → Addressed a is later
      → Addressed a (i ∷ is) (here ++ later)

-- The part of a message that is handled is what it carries.
abbrev listed : Option GcMessage → List GcMessage
listed none = []
listed (some m) = m ∷ []

gc_part-Carries :
    (a : App) (m : SteamMessage) → Carries a (received (some m)) (listed (gc_part a m))
unfolding gc_part addressed
gc_part-Carries a m = elim (Bool-cases (m.emsg == emsg_client_from_gc)) [
  | inr other ↦ rw (other, gc_part) (other_type m (λ same. absurd (ground (arith, other, same))))
  | inl same ↦ elim (Result-cases (unwrap a.protos m)) [
    | inr (e, bad) ↦ rw (same, bad, gc_part, addressed) (unreadable m e bad)
    | inl (none, plain) ↦ rw (same, plain, gc_part, addressed) (legacy m plain)
    | inl (some gc, found) ↦ elim (Bool-cases (gc.appid == a.appid)) [
      | inl mine ↦
          rw (same, found, mine, gc_part, addressed)
            (own m gc (ground (arith, same)) found (ground (arith, mine)))
      | inr foreign ↦
          rw (same, found, foreign, gc_part, addressed)
            (other_app m gc found (λ e. absurd (ground (arith, foreign, e))))
    ]
  ]
]

-- What a turn relays: nothing when it ends the pump, else what its input carries.
abbrev Relays : App → Input → Turn → Type 0
Relays a i t =
    ((t.over ≡ true) × (is_last i ≡ true) × (relays t.effects ≡ []))
    ⊎ ((t.over ≡ false) × (is_last i ≡ false) × Carries a i (relays t.effects))

state-Relays :
    (a : App) (s : SessionState) (announced : Sent) → (relays (on_state a s announced).effects ≡ [])
unfolding on_state launch relays send_hello
state-Relays a s (ok u) = elim (Bool-cases (is_ready s)) [
  | inl up ↦ rw up refl
  | inr down ↦ rw down refl
]
state-Relays a s (err e) = elim (Bool-cases (is_ready s)) [
  | inl up ↦ rw up refl
  | inr down ↦ rw down refl
]

tick-Relays : (a : App) (p : Pump) → Relays a hello_tick (on_tick a p)
unfolding on_tick relays send_hello is_last
tick-Relays a p = elim (Bool-cases (not p.ready && ltb p.hello_attempts max_hello_attempts)) [
  | inl retry ↦ rw (retry, on_tick) (inr (refl, refl, tick))
  | inr quiet ↦ rw (quiet, on_tick) (inr (refl, refl, tick))
]

gc-Relays :
    (a : App) (p : Pump) (m : GcMessage)
    → (relays (on_gc_message a p m).effects ≡ m ∷ []) × ((on_gc_message a p m).over ≡ false)
unfolding on_gc_message relays
gc-Relays a p m = elim (Bool-cases (m.msgtype == gc_client_welcome)) [
  | inl welcome ↦ (rw welcome refl, rw welcome refl)
  | inr other ↦
      elim (Bool-cases
        (m.msgtype == gc_client_connection_status && not (has_gc_session a m.body))) [
          | inl lost ↦ (rw (other, lost) refl, rw (other, lost) refl)
          | inr kept ↦ (rw (other, kept) refl, rw (other, kept) refl)
        ]
]

received-Relays :
    (a : App) (p : Pump) (m : SteamMessage) → Relays a (received (some m)) (on_received a p m)
unfolding on_received relays is_last
received-Relays a p m = elim (Option-cases (gc_part a m)) [
  | inl skipped ↦
      rw (skipped, on_received)
        (inr (
          refl,
          refl,
          subst (λ ms. Carries a (received (some m)) ms) (ap listed skipped) (gc_part-Carries a m),
        ))
  | inr (gc, found) ↦
      let carried =
        subst (λ ms. Carries a (received (some m)) ms) (ap listed found ∙ sym (gc-Relays a p gc).0)
          (gc_part-Carries a m) in
      rw (found, on_received) (inr ((gc-Relays a p gc).1, refl, carried))
]

react-Relays : (a : App) (p : Pump) (i : Input) → Relays a i (react a p i)
unfolding react relays is_last
react-Relays a p released = inl (refl, refl, refl)
react-Relays a p (state_changed none announced) = inl (refl, refl, refl)
react-Relays a p (state_changed (some s) announced) = inr (
  unfold on_state in refl,
  refl,
  subst (λ ms. Carries a (state_changed (some s) announced) ms) (sym (state-Relays a s announced))
      (state s announced),
)
react-Relays a p hello_tick = tick-Relays a p
react-Relays a p (received none) = inl (refl, refl, refl)
react-Relays a p (received (some m)) = received-Relays a p m
react-Relays a p lagged = inr (refl, refl, missed)

-- Whatever the readiness, the subscribers get exactly the GC messages that come in before the pump
-- ends, in order: those which a message of the coordinator's type unwraps to and whose app is that
-- of the pump. Messages of other types, those that do not unwrap to a protobuf message, and those
-- of other apps are not passed on.
pub pump-Addressed :
    (a : App) (p : Pump) (is : List Input) → Addressed a is (relays (pump a p is).effects)
unfolding pump relays
pump-Addressed a p [] = pending
pump-Addressed a p (i ∷ is) =
    let next = (react a p i).pump in
    elim (react-Relays a p i) [
      | inl (stop, last, quiet) ↦
          rw (stop, pump) (subst (λ ms. Addressed a (i ∷ is) ms) (sym quiet) (ends i is last))
      | inr (on, more, carried) ↦
          rw (on, pump)
            (subst (λ ms. Addressed a (i ∷ is) ms)
              (sym (relays-append (react a p i).effects (pump a next is).effects))
              (goes_on i is (relays (react a p i).effects) (relays (pump a next is).effects) more
                carried (pump-Addressed a next is)))
    ]
