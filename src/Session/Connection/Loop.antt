-- ===== src/Session/Connection/Loop.antt =====
-- The loop of the logon, as the loop over `read_message` that it is in the source.
use steamroids.Prelude.{
  ℕ, ◌≡◌, ◌↔◌, ◌∙◌, ap, refl, List, [], ◌∷◌, some, none, All, Option-cases, inl, inr,
}
use steamroids.Error.{ok, err, Result-cases}
use steamroids.Codec.{SteamMessage}
use steamroids.Multi.{Codecs}
use steamroids.Session.Connection.{
  Reader, Incoming, Polled, waiting, ready, frame_in, touched, unpack_frame, read_loop,
  read_message,
}
use steamroids.Session.Connection.Logon.{
  LogonProtos, LoggedOn, Ids, Logon, decided, unanswered, verdict, logon_loop, CmConnection, logon,
}
use steamroids.Session.Connection.Response.{
  IsIgnored, IsAccepted, verdict-IsAccepted, verdict-IsIgnored,
}

-- One turn of the loop of the source: a message that decides nothing is forgotten, and the loop
-- goes on with the reader behind it.
unfoldable pub turn_of : LogonProtos → Ids → Polled → Logon
turn_of p ids (waiting r) = unanswered r
turn_of p ids (ready r (err e)) = decided r (err e)
turn_of p ids (ready r (ok m)) = elim (verdict p ids m) [
  | some v ↦ decided r v
  | none ↦ logon_loop p ids r.unread r.inbox r.last_frame
]

loop-turn_of :
    (p : LogonProtos) (ids : Ids) (unread : List (Incoming × ℕ)) (inbox : List SteamMessage)
    (last : ℕ)
    → logon_loop p ids unread inbox last ≡ turn_of p ids (read_loop p.codecs unread inbox last)
unfolding logon_loop turn_of read_loop
loop-turn_of p ids unread (m ∷ inbox) last = refl
loop-turn_of p ids [] [] last = refl
loop-turn_of p ids ((i, at) ∷ unread) [] last = elim (Option-cases (frame_in i)) [
  | inl control ↦
      rw (control, logon_loop, read_loop) (loop-turn_of p ids unread [] (touched i at last))
  | inr (err e, broken) ↦ rw (broken, logon_loop, read_loop) refl
  | inr (ok frame, arrived) ↦ elim (Result-cases (unpack_frame p.codecs frame)) [
    | inl (messages, good) ↦
        rw (arrived, good, logon_loop, read_loop)
          (loop-turn_of p ids unread messages (touched i at last))
    | inr (e, bad) ↦ rw (arrived, bad, logon_loop, read_loop) refl
  ]
]

-- A logon whose write went through is the loop over `read_message`.
logon-read_message :
    (p : LogonProtos) (conn : CmConnection)
    → logon p conn (ok tt) ≡ turn_of p conn.ids (read_message p.codecs conn.reader)
unfolding logon read_message
logon-read_message p conn =
    loop-turn_of p conn.ids conn.reader.unread conn.reader.inbox conn.reader.last_frame

-- The reads of a connection: `before` are read one after the other, then `m`, which leaves `r'`.
pub data Reads (c : Codecs) : Reader → List SteamMessage → SteamMessage → Reader → Type 0 where
  last_read :
      (r : Reader) (m : SteamMessage) (r' : Reader)
      → read_message c r ≡ ready r' (ok m)
      → Reads c r [] m r'
  then_reads :
      (r : Reader) (x : SteamMessage) (r1 : Reader) (before : List SteamMessage) (m : SteamMessage)
      (r' : Reader)
      → read_message c r ≡ ready r1 (ok x)
      → Reads c r1 before m r'
      → Reads c r (x ∷ before) m r'

-- Readers with the same next read have the same reads.
Reads-same :
    (c : Codecs) (r s : Reader) (before : List SteamMessage) (m : SteamMessage) (r' : Reader)
    → read_message c r ≡ read_message c s
    → Reads c s before m r'
    → Reads c r before m r'
Reads-same c r s before m r' same (last_read s' m' r'' e) = last_read r m r' (same ∙ e)
Reads-same c r s before m r' same (then_reads s' x r1 later m' r'' e rest) =
    then_reads r x r1 later m r' (same ∙ e) rest

module _ (p : LogonProtos) (ids : Ids) where
  -- The first message read that is not ignored is the response that accepts.
  abbrev pub LogsOn : Reader → Reader → Ids → LoggedOn → Type 0
  LogsOn r r' ids' details =
      (before : List SteamMessage) × (m : SteamMessage) × Reads p.codecs r before m r'
      × All IsIgnored before
      × IsAccepted p ids m ids' details

  LogsOn-same :
      (r s r' : Reader) (ids' : Ids) (details : LoggedOn)
      → read_message p.codecs r ≡ read_message p.codecs s
      → LogsOn s r' ids' details
      → LogsOn r r' ids' details
  LogsOn-same r s r' ids' details same (before, m, reads, ignored, accepted) =
      (before, m, Reads-same p.codecs r s before m r' same reads, ignored, accepted)

  loop-LogsOn :
      (unread : List (Incoming × ℕ)) (inbox : List SteamMessage) (last : ℕ) (r' : Reader)
      (ids' : Ids) (details : LoggedOn)
      → logon_loop p ids unread inbox last ≡ decided r' (ok (ids', details))
      → LogsOn (record { unread = unread; inbox = inbox; last_frame = last }) r' ids' details
  unfolding logon_loop read_message read_loop
  loop-LogsOn unread (m ∷ inbox) last r' ids' details h =
      let here : Reader = record { unread = unread; inbox = m ∷ inbox; last_frame = last } in
      let next : Reader = record { unread = unread; inbox = inbox; last_frame = last } in
      elim (Option-cases (verdict p ids m)) [
        | inl ignored ↦
            let (before, x, reads, quiet, accepted) =
              loop-LogsOn unread inbox last r' ids' details (rw (ignored, logon_loop) at h) in
            (
              m ∷ before,
              x,
              then_reads here m next before x r' refl reads,
              ((verdict-IsIgnored p ids m).0 ignored, quiet),
              accepted,
            )
        | inr (v, decides) ↦
            let same : next ≡ r' = cc (rw (decides, logon_loop) at h) in
            let accepts : v ≡ ok (ids', details) = cc (rw (decides, logon_loop) at h) in
            (
              [],
              m,
              last_read here m r' (ap (λ r. ready r (ok m)) same),
              tt,
              (verdict-IsAccepted p ids m ids' details).0 (decides ∙ ap some accepts),
            )
      ]
  loop-LogsOn [] [] last r' ids' details h = absurd (cc h)
  loop-LogsOn ((i, at) ∷ unread) [] last r' ids' details h =
      let now = touched i at last in
      let here : Reader = record { unread = (i, at) ∷ unread; inbox = []; last_frame = last } in
      elim (Option-cases (frame_in i)) [
        | inl control ↦
            LogsOn-same here (record { unread = unread; inbox = []; last_frame = now }) r' ids'
              details (rw (control, read_loop) refl)
              (loop-LogsOn unread [] now r' ids' details (rw (control, logon_loop) at h))
        | inr (err e, broken) ↦ absurd (cc (rw (broken, logon_loop) at h))
        | inr (ok frame, arrived) ↦ elim (Result-cases (unpack_frame p.codecs frame)) [
          | inr (e, bad) ↦ absurd (cc (rw (arrived, bad, logon_loop) at h))
          | inl (messages, good) ↦
              LogsOn-same here (record { unread = unread; inbox = messages; last_frame = now }) r'
                ids' details (rw (arrived, good, read_loop) refl)
                (loop-LogsOn unread messages now r' ids' details
                  (rw (arrived, good, logon_loop) at h))
        ]
      ]

  LogsOn-loop :
      (r : Reader) (before : List SteamMessage) (m : SteamMessage) (r' : Reader) (ids' : Ids)
      (details : LoggedOn)
      → Reads p.codecs r before m r'
      → All IsIgnored before
      → IsAccepted p ids m ids' details
      → logon_loop p ids r.unread r.inbox r.last_frame ≡ decided r' (ok (ids', details))
  unfolding turn_of read_message
  LogsOn-loop r before m r' ids' details (last_read s x s' e) quiet accepted =
      loop-turn_of p ids r.unread r.inbox r.last_frame
      ∙ rw (e, turn_of, (verdict-IsAccepted p ids m ids' details).1 accepted) refl
  LogsOn-loop r before m r' ids' details (then_reads s x r1 later m' s' e reads) quiet accepted =
      loop-turn_of p ids r.unread r.inbox r.last_frame
      ∙ rw (e, turn_of, (verdict-IsIgnored p ids x).1 quiet.0)
          (LogsOn-loop r1 later m r' ids' details reads quiet.1 accepted)

-- A logon whose write went through succeeds exactly when, among the messages that are read from the
-- connection one after the other, the first that is a logon response or a logoff is a response
-- which decodes, with the code OK. The connection then has the SteamID and the session id of the
-- header of that response, where it has them, and reads on behind it; the heartbeat is that of the
-- response, 9 seconds where it has none, and never less than a second.
pub logon-LogsOn :
    (p : LogonProtos) (conn : CmConnection) (r' : Reader) (ids' : Ids) (details : LoggedOn)
    → (logon p conn (ok tt) ≡ decided r' (ok (ids', details)))
      ↔ LogsOn p conn.ids conn.reader r' ids' details
unfolding logon
logon-LogsOn p conn r' ids' details = (
  (λ h.
      loop-LogsOn p conn.ids conn.reader.unread conn.reader.inbox conn.reader.last_frame r' ids'
        details h),
  (λ t.
      let (before, m, reads, quiet, accepted) = t in
      LogsOn-loop p conn.ids conn.reader before m r' ids' details reads quiet accepted),
)
