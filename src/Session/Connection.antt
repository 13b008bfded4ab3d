-- ===== src/Session/Connection.antt =====
-- src/session/connection.rs: reading messages off a CM socket, and the logon.
--
-- The socket is the list of what has arrived on it and was not read yet, each with the time of its
-- arrival; a read that finds nothing to return is still waiting. The loop of `read_frame`, which
-- skips control frames, and that of `read_message` are one recursion over this list.
pub mod Logon
pub mod Loop
pub mod Response
use steamroids.Prelude.{ℕ, List, [], ◌∷◌, Option, some, none, ◌==◌, if◌then◌else◌}
use steamroids.Error.{Error, Text, Result, ok, err, web_socket, msg, ◌>>=◌}
use steamroids.Wire.{Bytes}
use steamroids.Codec.{SteamMessage, try_decode}
use steamroids.Multi.{Codecs, emsg_multi, decode_multi}

pub data WsMessage : Type 0 where
  binary : Bytes → WsMessage
  text close ping pong raw_frame : WsMessage

-- What the stream yields: a message, a transport error, or its end.
pub data Incoming : Type 0 where
  message : WsMessage → Incoming
  broken : Text → Incoming
  ended : Incoming

-- What one read of the stream means to `read_frame`; `none` is a control frame, which is skipped.
unfoldable pub frame_in : Incoming → Option (Result Bytes)
frame_in (message (binary bytes)) = some (ok bytes)
frame_in (message close) = some (err (web_socket (msg "server closed the connection")))
frame_in (message text) = some (err (web_socket (msg "unexpected text frame from CM")))
frame_in (message ping) = none
frame_in (message pong) = none
frame_in (message raw_frame) = none
frame_in (broken e) = some (err (web_socket e))
frame_in ended = some (err (web_socket (msg "connection closed")))

-- The end of the stream and an error are no frames: they leave the liveness clock alone.
unfoldable pub touched : Incoming → ℕ → ℕ → ℕ
touched (message m) at last = at
touched (broken e) at last = last
touched ended at last = last

-- What one decoded frame adds to the inbox: a batch all its messages, a legacy frame nothing.
unfoldable pub opened : Codecs → Option SteamMessage → Result (List SteamMessage)
opened c none = ok []
opened c (some m) = if m.emsg == emsg_multi then decode_multi c m.body 0 else ok (m ∷ [])

unfoldable pub unpack_frame : Codecs → Bytes → Result (List SteamMessage)
unfolding opened
unpack_frame c frame = do decoded ← try_decode c.header_proto frame; opened c decoded

-- The read half of a socket with its inbox and its liveness clock.
pub record Reader : Type 0 where
  pub unread : List (Incoming × ℕ)
  pub inbox : List SteamMessage
  pub last_frame : ℕ

pub data Polled : Type 0 where
  waiting : Reader → Polled
  ready : Reader → Result SteamMessage → Polled

unfoldable pub read_loop : Codecs → List (Incoming × ℕ) → List SteamMessage → ℕ → Polled
unfolding frame_in touched unpack_frame
read_loop c unread (m ∷ inbox) last =
    ready (record { unread = unread; inbox = inbox; last_frame = last }) (ok m)
read_loop c [] [] last = waiting (record { unread = []; inbox = []; last_frame = last })
read_loop c ((i, at) ∷ unread) [] last =
    let now = touched i at last in
    let stop =
      λ (e : Error). ready (record { unread = unread; inbox = []; last_frame = now }) (err e) in
    elim (frame_in i) [
      | none ↦ read_loop c unread [] now
      | some (err e) ↦ stop e
      | some (ok frame) ↦ elim (unpack_frame c frame) [
        | err e ↦ stop e
        | ok messages ↦ read_loop c unread messages now
      ]
    ]

unfoldable pub read_message : Codecs → Reader → Polled
unfolding read_loop
read_message c r = read_loop c r.unread r.inbox r.last_frame
