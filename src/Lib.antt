-- ===== src/Lib.antt =====
-- steamroids: a client library for the Steam network, and its verification.
--
-- The program keeps a session with a Steam connection manager (CM) over a WebSocket. A frame of the
-- socket holds one message (src/codec.rs); a message of type `Multi` is a batch of frames, which is
-- unpacked where the socket is read (src/session/connection.rs). A background driver
-- (src/session/driver.rs) owns the socket: it takes commands from the handles of the session, writes
-- frames, hands replies to the callers that wait for them, broadcasts everything else, caches the
-- snapshots that Steam pushes after a logon, and reconnects when the connection is lost. What it is
-- doing shows in the state that it publishes (src/session/state.rs). Over a session, a pump keeps
-- contact with the Game Coordinator of an app, whose messages travel inside those of the session
-- (src/gc). Over a session the client asks for friends and changes them (src/friends.rs), and asks for
-- the profiles of players (src/persona.rs, src/cs2.rs). The refresh token that a logon needs comes
-- from a sign-in over the WebAPI, by password or from a token store (src/auth). Independent of the
-- sessions, a pool hands out proxies and tracks which are dead (src/pool.rs).
--
-- The modules and what they model:
--   Prelude    numbers, lists, tests, bits and texts that the others share; no code of the program
--   Error      src/error.rs: the errors, as values with the template of their text, and EResult codes
--   Wire       the generated messages, with the fields that the code uses, and the serialiser
--   Wait       the loop over a broadcast subscription that the client modules share in shape
--   Codec      src/codec.rs: `encode`, `encode_raw`, `unframe`, `try_decode`, `decode`
--   Multi      src/session/connection.rs: `decode_multi`, `gunzip`
--   Pool       src/pool.rs: `ProxyPool` with all its operations
--   Proxy      src/transport/proxy.rs and src/transport/mod.rs: proxy configurations, and Parse
--              (`ProxyConfig::parse` with the port and the percent escapes)
--   Session    src/session: State (state.rs), Connection (connection.rs: `read_frame`,
--              `read_message`, `logon`), Establish (connection.rs: `establish`; driver.rs:
--              `establish_resilient`, `spawn_session`), Handle (driver.rs: `SessionHandle`) and
--              Driver (driver.rs: `dispatch`, `sweep_pending`, `run_connected`, `reconnect`, `run` and
--              their helpers), and Remote, the handle as the client modules use it
--   Gc         src/gc: Envelope (envelope.rs: `wrap`, `unwrap`), Pump (coordinator.rs: `pump`),
--              Requests (coordinator.rs: the waits of `wait_ready` and `request_matching`) and
--              Coordinator (coordinator.rs: the methods of `GameCoordinator` over a session)
--   Friends    src/friends.rs: Lists (`request_friends_list`, `request_nicknames`,
--              `request_friends_groups_list`), Messages (the bodies it writes), Actions (the single
--              requests and notifications) and Groups (`add_friends_to_group`,
--              `remove_friends_from_group`)
--   Auth       src/auth: credentials.rs, Jwt (jwt.rs), Totp (totp.rs), Password (rsa_pw.rs), WebApi
--              (webapi.rs: `call`, `map_non_ok_eresult`), SignIn (signin.rs) with Begin (the steps of
--              the password flow), Poll (`poll_for_token`) and Flow (`execute`, `execute_with_store`)
--   Cs2        src/cs2.rs: `attach`, `request_player_profile`
--   Persona    src/persona.rs: Summary (`request_player_summary`), Info (`request_profile_info`) and
--              Web (`resolve_vanity_url`, `fetch_avatar`); the file itself has the URLs
--   Discovery  src/session/discovery.rs: `discover_cm_servers`
-- In each, the file with the definitions carries the name of the part, its child modules carry
-- proofs and are named for what they prove, and Runs holds concrete runs.
--
-- State and effects. `self` of the driver is the record `Driver`, and an operation returns the new
-- record with the list of what it emits, in order. A channel is the number of the caller behind it.
-- What the environment decides (commands, arrivals, timers, the results of writes and of connects,
-- the time) is an argument: a connected episode is a function of a list of events, one for each turn
-- of the `select!` loop, a reconnect one of a list of attempts, the life of the driver one of a list
-- of episodes, and that of the pump one of a list of inputs. A list that ends leaves the loop running,
-- so the theorems speak of every finite run and of every interleaving of the events.
--
-- Bounds. A `u32` is a number below 2 ^ 32, and where the source truncates or saturates the model does
-- too; `usize` has 64 bits. `poll_for_token` has fuel for 120 polls and gives `none` when that is used
-- up: the budget of the source is 120 seconds, and between two polls it sleeps for at least one. No
-- other definition runs out of fuel: the loop of `decode_multi` recurses on the payload, which shrinks
-- by at least four bytes each time, and nesting on the number of levels left, which starts at the
-- bound of the source. `decimal` prints with 20 digits of fuel, more than a `u64` needs.
--
-- Parameters. The protobuf serialisers (`Proto`, with `RoundTrips` for what they promise) and the gzip
-- inflater (`Codecs.inflate`) are third-party code; Wire.Samples has concrete serialisers. So are the
-- HTTP client, the URL parser, Base64, JSON, HMAC and RSA, which are fields of the records that Auth
-- takes; the token store is the caller's. What Steam answers may depend on all that was sent so far.
--
-- Not modelled: sockets, TLS and HTTP, the handshakes with a proxy, logging, the capacities of the
-- channels, and the time that the wait for a coordinator takes from the budget of a request.
pub mod Prelude
pub mod Error
pub mod Wire
pub mod Wait
pub mod Codec
pub mod Multi
pub mod Proxy
pub mod Pool
pub mod Session
pub mod Gc
pub mod Friends
pub mod Auth
pub mod Cs2
pub mod Persona
pub mod Discovery
