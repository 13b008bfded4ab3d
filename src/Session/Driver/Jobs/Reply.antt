-- ===== src/Session/Driver/Jobs/Reply.antt =====
-- The reply to a request, among the messages that come in after it.
use steamroids.Prelude.{
  ℕ, ◌-◌, ◌^◌, ◌≤◌, ◌<◌, ◌≡◌, ◌≢◌, refl, sym, ap, ◌∙◌, inl, inr, List, [], ◌∷◌, ◌++◌, Option, some,
  none, All, Option-cases, arith, append_assoc,
}
use steamroids.Error.{ok}
use steamroids.Wire.{Bytes}
use steamroids.Codec.{SteamMessage}
use steamroids.Session.Driver.{
  Out, reply, frame, Pending, Table, Routes, insert, displaced, find, remove, dispatch, waiter,
  target_of,
}
use steamroids.Session.Driver.Accounts.{dispatch-cases}
use steamroids.Session.Driver.Connected.{Driver, accept_request}
use steamroids.Session.Driver.Run.{drain}
use steamroids.Session.Driver.Jobs.{Issued, IsIssued, All-remove}

find-insert : (j : ℕ) (e : Pending) (t : Table) → find j (insert j e t) ≡ some e
unfolding find insert
find-insert j e [] = ground arith
find-insert j e ((k, x) ∷ t) = ground (arith, find-insert j e t)

remove-insert : (n : ℕ) (e : Pending) (t : Table) → All (Issued n) t → remove n (insert n e t) ≡ t
unfolding remove insert
remove-insert n e [] h = ground arith
remove-insert n e ((k, x) ∷ t) ((low, high), h) = ground (arith, remove-insert n e t h)

displaced-Issued : (n : ℕ) (t : Table) → All (Issued n) t → displaced n t ≡ []
unfolding displaced
displaced-Issued n [] h = refl
displaced-Issued n ((k, x) ∷ t) ((low, high), h) = ground (arith, displaced-Issued n t h)

find-insert_other : (n j : ℕ) (e : Pending) (t : Table) → n ≢ j → find j (insert n e t) ≡ find j t
unfolding find insert
find-insert_other n j e [] other = ground (arith, other)
find-insert_other n j e ((k, x) ∷ t) other = ground (arith, other, find-insert_other n j e t other)

remove-insert_other :
    (n j : ℕ) (e : Pending) (t : Table) → n ≢ j → remove j (insert n e t) ≡ insert n e (remove j t)
unfolding remove insert
remove-insert_other n j e [] other = ground (arith, other)
remove-insert_other n j e ((k, x) ∷ t) other =
    ground (arith, other, remove-insert_other n j e t other)

target_of-job : (j : ℕ) → 1 ≤ j → j < 2 ^ 64 - 1 → target_of (some j) ≡ some j
unfolding target_of
target_of-job j low high = ground arith

target_of-some : (t : Option ℕ) (j : ℕ) → target_of t ≡ some j → t ≡ some j
unfolding target_of
target_of-some none j h = absurd (cc h)
target_of-some (some k) j h = ground (arith, h)

-- The routes with one more entry.
abbrev holding : ℕ → Pending → Routes → Routes
holding n e r = record r { pending = insert n e r.pending }

dispatch-holding :
    (n : ℕ) (e : Pending) (r : Routes) (m : SteamMessage)
    → m.header.jobid_target ≢ some n
    → dispatch (holding n e r) m ≡ (holding n e (dispatch r m).0, (dispatch r m).1)
unfolding dispatch waiter
dispatch-holding n e r m apart = elim (Option-cases (target_of m.header.jobid_target)) [
  | inl no_job ↦ rw (no_job, dispatch, waiter) refl
  | inr (j, job) ↦
      let other : n ≢ j =
        λ same. apart (target_of-some m.header.jobid_target j job ∙ ap some (sym same)) in
      let same_waiter = find-insert_other n j e r.pending other in
      elim (Option-cases (find j r.pending)) [
        | inl missing ↦ rw (job, same_waiter, missing, dispatch, waiter) refl
        | inr (x, waits) ↦
            rw
              (job, same_waiter, waits, dispatch, waiter, remove-insert_other n j e r.pending other)
              refl
      ]
]

-- The messages that come in and are not for the job `n`.
abbrev pub Apart : ℕ → SteamMessage → Type 0
Apart n m = m.header.jobid_target ≢ some n

drain-holding :
    (n : ℕ) (e : Pending) (r : Routes) (ms : List SteamMessage)
    → All (Apart n) ms
    → drain (holding n e r) ms ≡ (holding n e (drain r ms).0, (drain r ms).1)
unfolding drain
drain-holding n e r [] h = refl
drain-holding n e r (m ∷ ms) (apart, h) =
    rw (dispatch-holding n e r m apart, drain-holding n e (dispatch r m).0 ms h) refl

drain-append :
    (r : Routes) (xs ys : List SteamMessage)
    → drain r (xs ++ ys)
      ≡ ((drain (drain r xs).0 ys).0, (drain r xs).1 ++ (drain (drain r xs).0 ys).1)
unfolding drain
drain-append r [] ys = refl
drain-append r (x ∷ xs) ys =
    rw
      (
        drain-append (dispatch r x).0 xs ys,
        append_assoc (dispatch r x).1 (drain (dispatch r x).0 xs).1
            (drain (drain (dispatch r x).0 xs).0 ys).1,
      )
      refl

dispatch-Issued :
    (n : ℕ) (r : Routes) (m : SteamMessage)
    → All (Issued n) r.pending
    → All (Issued n) (dispatch r m).0.pending
dispatch-Issued n r m h = elim (dispatch-cases r m) [
  | inl (j, e, job, waits, out) ↦ rw out (All-remove n j r.pending h)
  | inr (_, out) ↦ rw out h
]

drain-Issued :
    (n : ℕ) (r : Routes) (ms : List SteamMessage)
    → All (Issued n) r.pending
    → All (Issued n) (drain r ms).0.pending
unfolding drain
drain-Issued n r [] h = h
drain-Issued n r (m ∷ ms) h = drain-Issued n (dispatch r m).0 ms (dispatch-Issued n r m h)

answered :
    (n : ℕ) (e : Pending) (r : Routes) (m : SteamMessage)
    → 1 ≤ n
    → n < 2 ^ 64 - 1
    → All (Issued n) r.pending
    → m.header.jobid_target ≡ some n
    → drain (holding n e r) (m ∷ []) ≡ (r, reply e.reply (ok m) ∷ [])
unfolding drain dispatch
answered n e r m low room h target =
    rw
      (
        ap target_of target ∙ target_of-job n low room,
        find-insert n e r.pending,
        dispatch,
        waiter,
        remove-insert n e r.pending h,
      )
      refl

-- If every pending job was given out and the counter is not at its end, a request whose write went
-- through puts out one thing, the frame with its type, its body and the next job id; nobody is
-- dropped. Whatever messages for other jobs or for none come in then, they are handled as without
-- the request, and the first message that answers its job id goes to its caller alone, and leaves
-- the pending table and the snapshots as they would be without the request.
pub drain-accept_request :
    (d : Driver) (emsg : ℕ) (body : Bytes) (deadline caller : ℕ) (before : List SteamMessage)
    (m : SteamMessage)
    → IsIssued d
    → d.next_jobid < 2 ^ 64 - 1
    → All (Apart d.next_jobid) before
    → m.header.jobid_target ≡ some d.next_jobid
    → ((accept_request d emsg body deadline caller (ok tt)).outs
        ≡ frame emsg (some d.next_jobid) body ∷ [])
      × (drain
            (accept_request d emsg body deadline caller (ok tt)).driver.routes
            (before ++ (m ∷ []))
          ≡ ((drain d.routes before).0, (drain d.routes before).1 ++ (reply caller (ok m) ∷ [])))
unfolding accept_request
drain-accept_request d emsg body deadline caller before m (low, h) room apart target =
    let n = d.next_jobid in
    let e : Pending = record { reply = caller; deadline = deadline } in
    (
      ap (λ (xs : List Out). frame emsg (some n) body ∷ xs) (displaced-Issued n d.routes.pending h),
      rw
          (
            drain-append (holding n e d.routes) before (m ∷ []),
            drain-holding n e d.routes before apart,
            answered n e (drain d.routes before).0 m low room (drain-Issued n d.routes before h)
                target,
          )
          refl,
    )
