-- ===== src/Session/Driver/Jobs.antt =====
-- The job ids that tie a reply to its request.
pub mod Reply
use steamroids.Prelude.{
  ℕ, ◌+◌, ◌-◌, ◌^◌, ◌≤◌, ◌<◌, ◌≡◌, refl, ap, ◌∙◌, inl, inr, Bool, List, [], ◌∷◌, Option, some, none,
  All, length, leb, ◌==◌, ◌||◌, Bool-cases, Option-cases, arith,
}
use steamroids.Error.{ok, err}
use steamroids.Wire.{Bytes}
use steamroids.Codec.{SteamMessage}
use steamroids.Session.Connection.{Polled, waiting, ready, read_message}
use steamroids.Session.Driver.{
  Pending, Table, reply, insert, displaced, find, remove, swept, dispatch, waiter, target_of,
  read_idle_expired,
}
use steamroids.Session.Driver.Accounts.{dispatch-cases}
use steamroids.Session.Driver.Connected.{
  Services, Command, request, notify, logoff, Driver, Written, Event, command, arrival, reading,
  heartbeat_due, sweep_due, Step, following, accept_request, on_command, on_message, on_polled,
  on_sweep, step, connected, emsg_client_logged_off,
}

-- An entry whose job id was given out before `n`.
abbrev pub Issued : ℕ → ℕ × Pending → Type 0
Issued n (j, x) = (1 ≤ j) × (j < n)

-- Every pending job was given out.
abbrev pub IsIssued : Driver → Type 0
IsIssued d = (1 ≤ d.next_jobid) × All (Issued d.next_jobid) d.routes.pending

All-insert :
    (n j : ℕ) (e : Pending) (t : Table)
    → 1 ≤ j
    → j < n
    → All (Issued n) t
    → All (Issued n) (insert j e t)
unfolding insert
All-insert n j e [] low high h = ((low, high), tt)
All-insert n j e ((k, x) ∷ t) low high (here, h) = elim (Bool-cases (k == j)) [
  | inl same ↦ rw (same, insert) ((low, high), h)
  | inr other ↦ rw (other, insert) (here, All-insert n j e t low high h)
]

pub All-remove : (n j : ℕ) (t : Table) → All (Issued n) t → All (Issued n) (remove j t)
unfolding remove
All-remove n j [] h = tt
All-remove n j ((k, x) ∷ t) (here, h) = elim (Bool-cases (k == j)) [
  | inl same ↦ rw (same, remove) h
  | inr other ↦ rw (other, remove) (here, All-remove n j t h)
]

All-swept :
    (n now : ℕ) (closed : ℕ → Bool) (t : Table)
    → All (Issued n) t
    → All (Issued n) (swept now closed t)
unfolding swept
All-swept n now closed [] h = tt
All-swept n now closed ((k, x) ∷ t) (here, h) =
    elim (Bool-cases (closed x.reply || leb x.deadline now)) [
      | inl gone ↦ rw (gone, swept) (All-swept n now closed t h)
      | inr kept ↦ rw (kept, swept) (here, All-swept n now closed t h)
    ]

All-later : (n m : ℕ) (t : Table) → n ≤ m → All (Issued n) t → All (Issued m) t
All-later n m [] le h = tt
All-later n m ((k, x) ∷ t) le ((low, high), h) = ((low, omega arith), All-later n m t le h)

following-suc : (n : ℕ) → n < 2 ^ 64 - 1 → following n ≡ n + 1
unfolding following
following-suc n h = ground arith

-- A step from `d` keeps the jobs issued, and gives out at most one.
abbrev Keeps : Driver → Step → Type 0
Keeps d st = IsIssued st.driver × (st.driver.next_jobid ≤ d.next_jobid + 1)

accept-Keeps :
    (d : Driver) (emsg : ℕ) (body : Bytes) (deadline caller : ℕ) (sent : Written)
    → d.next_jobid < 2 ^ 64 - 1
    → IsIssued d
    → Keeps d (accept_request d emsg body deadline caller sent)
unfolding accept_request
accept-Keeps d emsg body deadline caller (ok u) room (low, h) =
    let n = d.next_jobid in
    rw (following-suc n room) (
      (
        omega arith,
        All-insert (n + 1) n (record { reply = caller; deadline = deadline }) d.routes.pending low
            (omega arith) (All-later n (n + 1) d.routes.pending (omega arith) h),
      ),
      omega arith,
    )
accept-Keeps d emsg body deadline caller (err e) room (low, h) =
    let n = d.next_jobid in
    rw (following-suc n room)
      ((omega arith, All-later n (n + 1) d.routes.pending (omega arith) h), omega arith)

command-Keeps :
    (d : Driver) (m : Option Command) (sent : Written)
    → d.next_jobid < 2 ^ 64 - 1
    → IsIssued d
    → Keeps d (on_command d m sent)
unfolding on_command
command-Keeps d none sent room h = (h, omega arith)
command-Keeps d (some (notify emsg body caller)) (ok u) room h = (h, omega arith)
command-Keeps d (some (notify emsg body caller)) (err e) room h = (h, omega arith)
command-Keeps d (some (logoff caller)) sent room h = (h, omega arith)
command-Keeps d (some (request emsg body deadline caller)) sent room h =
    accept-Keeps d emsg body deadline caller sent room h

message-Keeps :
    (s : Services) (d : Driver) (m : SteamMessage) → IsIssued d → Keeps d (on_message s d m)
unfolding on_message
message-Keeps s d m (low, h) = elim (Bool-cases (m.emsg == emsg_client_logged_off)) [
  | inl off ↦ rw off ((low, h), omega arith)
  | inr other ↦ elim (dispatch-cases d.routes m) [
    | inl (j, e, job, waits, out) ↦
        rw (other, out) ((low, All-remove d.next_jobid j d.routes.pending h), omega arith)
    | inr (_, out) ↦ rw (other, out) ((low, h), omega arith)
  ]
]

step-Keeps :
    (s : Services) (d : Driver) (e : Event)
    → d.next_jobid < 2 ^ 64 - 1
    → IsIssued d
    → Keeps d (step s d e)
unfolding step
step-Keeps s d (command m sent) room h = command-Keeps d m sent room h
step-Keeps s d (arrival i at) room h = (h, omega arith)
step-Keeps s d reading room h = polled (read_message s.codecs d.reader)
  where
    polled : (p : Polled) → Keeps d (on_polled s d p)
    polled (waiting r) = (h, omega arith)
    polled (ready r (ok m)) = message-Keeps s (record d { reader = r }) m h
    polled (ready r (err x)) = (h, omega arith)
step-Keeps s d (heartbeat_due (ok u) (ok v)) room h = (h, omega arith)
step-Keeps s d (heartbeat_due (ok u) (err x)) room h = (h, omega arith)
step-Keeps s d (heartbeat_due (err x) ping) room h = (h, omega arith)
step-Keeps s d (sweep_due now closed) room (low, h) =
    elim (Bool-cases (read_idle_expired now d.reader.last_frame d.heartbeat)) [
      | inl idle ↦ rw (idle, on_sweep) ((low, h), omega arith)
      | inr alive ↦
          rw (alive, on_sweep)
            ((low, All-swept d.next_jobid now closed d.routes.pending h), omega arith)
    ]

-- As long as the counter cannot reach its end, every job in the pending table was given out by it,
-- after any connected episode that starts so. The next id is then not pending.
pub connected-IsIssued :
    (s : Services) (d : Driver) (es : List Event)
    → d.next_jobid + length es < 2 ^ 64
    → IsIssued d
    → IsIssued (connected s d es).driver
unfolding connected
connected-IsIssued s d [] room h = h
connected-IsIssued s d (e ∷ es) room h =
    let (kept, near) = step-Keeps s d e (omega arith) h in
    elim (Option-cases (step s d e).exit) [
      | inl on ↦ rw (on, connected) (connected-IsIssued s (step s d e).driver es (omega arith) kept)
      | inr (why, off) ↦ rw (off, connected) kept
    ]
