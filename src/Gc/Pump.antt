-- ===== src/Gc/Pump.antt =====
-- src/gc/coordinator.rs: the background pump of a Game Coordinator, which relays its messages,
-- tracks whether it is ready, and prompts it with hellos.
--
-- The pump is a function of the list of inputs that its `select!` meets. The results of its writes
-- come with the inputs; the time of the hello timer is not modelled, so a tick may come at any point.
pub mod Budget
pub mod Relay
pub mod Readiness
use steamroids.Prelude.{
  ℕ, ◌+◌, ◌&&◌, not, Bool, true, false, List, [], ◌∷◌, ◌++◌, Option, some, none, ltb, ◌==◌,
  if◌then◌else◌,
}
use steamroids.Prelude.Int.{ℤ, pos, is_code}
use steamroids.Error.{Result, ok, err, is_err}
use steamroids.Wire.{Bytes}
use steamroids.Codec.{SteamMessage}
use steamroids.Session.State.{SessionState, is_ready}
use steamroids.Gc.{GcProtos, ClientHello, GamesPlayed, default_gc_header, ConnectionStatus}
use steamroids.Gc.Envelope.{GcMessage, emsg_client_to_gc, emsg_client_from_gc, wrap, unwrap}

abbrev pub emsg_client_games_played : ℕ
emsg_client_games_played = 742

abbrev pub max_hello_attempts : ℕ
max_hello_attempts = 20

abbrev pub gc_client_welcome : ℕ
gc_client_welcome = 4004

abbrev pub gc_client_hello : ℕ
gc_client_hello = 4006

abbrev pub gc_client_connection_status : ℕ
gc_client_connection_status = 4009

pub data Effect : Type 0 where
  -- `session.notify` with a message type and a body.
  notified : ℕ → Bytes → Effect
  -- The watch channel of the readiness, and the broadcast of GC messages.
  set_ready : Bool → Effect
  relayed : GcMessage → Effect

abbrev pub Sent : Type 0
Sent = Result (Unit {0})

-- What the pump is made for: the app, the version of its hello, and the serialisers.
pub record App : Type 0 where
  pub appid : ℕ
  pub hello_version : ℕ
  pub protos : GcProtos

unfoldable pub hello_body : App → ClientHello
hello_body a = record {
  version = some a.hello_version;
  client_session_need = some 0;
  client_launcher = some 0;
  steam_launcher = some 0;
}

unfoldable pub send_hello : App → Effect
unfolding hello_body
send_hello a =
    let hello =
      wrap a.protos a.appid gc_client_hello default_gc_header
        (a.protos.hello.encode (hello_body a)) in
    notified emsg_client_to_gc (a.protos.client.encode hello)

-- A failed announcement spares the hello.
unfoldable pub launch : App → Sent → List Effect
launch a announced =
    let games : GamesPlayed = record { games_played = some a.appid ∷ [] } in
    let announcement = notified emsg_client_games_played (a.protos.games.encode games) in
    if is_err announced then announcement ∷ [] else announcement ∷ send_hello a ∷ []

-- An absent status says that there is a session; a body that does not decode, that there is none.
status_says : Option ConnectionStatus → Bool
status_says none = false
status_says (some s) = elim s.status [ none ↦ true | some code ↦ is_code code 0 ]

unfoldable pub has_gc_session : App → Bytes → Bool
unfolding status_says
has_gc_session a body = status_says (a.protos.connection_status.decode body)

pub record Pump : Type 0 where
  pub ready : Bool
  pub hello_attempts : ℕ

abbrev pub initial_pump : Pump
initial_pump = record { ready = false; hello_attempts = 0 }

pub data Input : Type 0 where
  -- The last coordinator is dropped.
  released : Input
  -- The session publishes a state (`none`: it is gone), and the result of the announcement.
  state_changed : Option SessionState → Sent → Input
  hello_tick : Input
  -- A message of the session (`none`: its channel is closed), and a gap in its stream.
  received : Option SteamMessage → Input
  lagged : Input

pub record Turn : Type 0 where
  pub pump : Pump
  pub effects : List Effect
  pub over : Bool

abbrev pub turn : Pump → List Effect → Turn
turn p effects = record { pump = p; effects = effects; over = false }

abbrev pub over : Pump → Turn
over p = record { pump = p; effects = []; over = true }

unfoldable pub on_state : App → SessionState → Sent → Turn
on_state a s announced =
    turn initial_pump (set_ready false ∷ (if is_ready s then launch a announced else []))

unfoldable pub on_tick : App → Pump → Turn
on_tick a p =
    if not p.ready && ltb p.hello_attempts max_hello_attempts
    then turn (record p { hello_attempts = p.hello_attempts + 1 }) (send_hello a ∷ [])
    else turn p []

-- A GC message of the app.
unfoldable pub on_gc_message : App → Pump → GcMessage → Turn
on_gc_message a p m =
    if m.msgtype == gc_client_welcome
    then turn (record p { ready = true }) (set_ready true ∷ relayed m ∷ [])
    else if m.msgtype == gc_client_connection_status && not (has_gc_session a m.body)
    then turn initial_pump (set_ready false ∷ relayed m ∷ [])
    else turn p (relayed m ∷ [])

-- The GC message of the app that a message of the session carries, if any.
unfoldable pub addressed : App → Result (Option GcMessage) → Option GcMessage
addressed a (err e) = none
addressed a (ok none) = none
addressed a (ok (some m)) = if m.appid == a.appid then some m else none

unfoldable pub gc_part : App → SteamMessage → Option GcMessage
unfolding addressed
gc_part a m = if m.emsg == emsg_client_from_gc then addressed a (unwrap a.protos m) else none

unfoldable pub on_received : App → Pump → SteamMessage → Turn
on_received a p m = elim (gc_part a m) [ none ↦ turn p [] | some gc ↦ on_gc_message a p gc ]

unfoldable pub react : App → Pump → Input → Turn
react a p released = over p
react a p (state_changed none announced) = over p
react a p (state_changed (some s) announced) = on_state a s announced
react a p hello_tick = on_tick a p
react a p (received none) = over p
react a p (received (some m)) = on_received a p m
react a p lagged = turn p []

unfoldable pub pump : App → Pump → List Input → Turn
pump a p [] = turn p []
pump a p (i ∷ is) =
    let first = react a p i in
    let rest = pump a first.pump is in
    if first.over then first else record rest { effects = first.effects ++ rest.effects }
