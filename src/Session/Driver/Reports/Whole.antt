-- ===== src/Session/Driver/Reports/Whole.antt =====
-- The reports of the outer loop.
use steamroids.Prelude.{
  ℕ, ◌≡◌, refl, sym, ◌∙◌, subst, List, [], ◌∷◌, ◌++◌, Option, some, none, Bool-cases, inl, inr,
}
use steamroids.Error.{Text, Result, ok, err, msg}
use steamroids.Session.State.{SessionState, connecting, logged_on, logged_off, failed}
use steamroids.Session.Driver.{Out, LoopExit, shutdown, disconnected, publish, fail_all_pending}
use steamroids.Session.Driver.Connected.{
  Services, Command, request, notify, logoff, Driver, Event, run_connected,
}
use steamroids.Session.Driver.Reconnect.{
  Connection, Attempt, Reconnected, Reconnection, stopped, live, rejected, trying,
  answer_while_down, answer_all, after_connect, after_failure, is_fatal, grow, reconnect_from,
  reconnect, initial_backoff,
}
use steamroids.Session.Driver.Run.{
  Episode, drain, terminal, finish, adopt, disconnect, after_reconnect, after_exit, run,
}
use steamroids.Session.Driver.Reports.{
  published, published-append, Silent, Silent-append, Up, Down, exit_of, unstarted, running, closes,
  is_logged_off, drops, retrying, gives_up, is_refused, recovers, fail_all_pending-Silent,
  drain-Silent, connected-Silent,
}

answer-Silent : (m : Option Command) → Silent (answer_while_down m).1
unfolding answer_while_down published
answer-Silent none = refl
answer-Silent (some (request emsg body deadline caller)) = refl
answer-Silent (some (notify emsg body caller)) = refl
answer-Silent (some (logoff caller)) = refl

answer_all-Silent : (ms : List (Option Command)) → Silent (answer_all ms).1
unfolding answer_all published
answer_all-Silent [] = refl
answer_all-Silent (m ∷ ms) = elim (Bool-cases (answer_while_down m).0) [
  | inl stop ↦ rw stop (answer-Silent m)
  | inr going ↦ rw going (
      Silent-append (answer_while_down m).1 (answer_all ms).1 (answer-Silent m)
        (answer_all-Silent ms))
]

connect-Silent :
    (o : Result Connection) (next : Reconnection)
    → Silent next.outs
    → Silent (after_connect o next).outs
unfolding published after_connect
connect-Silent (ok conn) next h = refl
connect-Silent (err e) next h = elim (Bool-cases (is_fatal e)) [
  | inl fatal ↦ rw (fatal, after_failure)
  | inr retry ↦ rw (retry, after_failure) h
]

reconnect_from-Silent :
    (backoff : ℕ) (attempts : List Attempt) → Silent (reconnect_from backoff attempts).outs
unfolding reconnect_from published
reconnect_from-Silent backoff [] = refl
reconnect_from-Silent backoff (a ∷ attempts) =
    let later = after_connect a.outcome (reconnect_from (grow backoff) attempts) in
    let sleeping = answer_all-Silent a.sleeping in
    let connecting = answer_all-Silent a.connecting in
    let both =
      Silent-append (answer_all a.sleeping).1 (answer_all a.connecting).1 sleeping connecting in
    let after =
      connect-Silent a.outcome (reconnect_from (grow backoff) attempts)
        (reconnect_from-Silent (grow backoff) attempts) in
    elim (Bool-cases (answer_all a.sleeping).0) [
      | inl stop ↦ rw stop sleeping
      | inr going ↦ elim (Bool-cases (answer_all a.connecting).0) [
        | inl stop ↦ rw (going, stop) both
        | inr on ↦
            rw (going, on)
              (Silent-append (answer_all a.sleeping).1 ((answer_all a.connecting).1 ++ later.outs)
                sleeping (Silent-append (answer_all a.connecting).1 later.outs connecting after))
      ]
    ]

reconnect-Silent : (attempts : List Attempt) → Silent (reconnect attempts).outs
unfolding reconnect
reconnect-Silent attempts = reconnect_from-Silent initial_backoff attempts

finish-published :
    (d : Driver) (outs : List Out) (t : Result Text)
    → published (finish d outs t).outs ≡ published outs ++ (terminal t ∷ [])
unfolding finish published
finish-published d outs t =
    let failing = fail_all_pending d.routes.pending (msg "session driver stopped") in
    rw (
      published-append outs (failing ++ (publish (terminal t) ∷ [])),
      published-append failing (publish (terminal t) ∷ []),
      fail_all_pending-Silent d.routes.pending (msg "session driver stopped"),
    )

disconnect-published : (d : Driver) → published (disconnect d).1 ≡ connecting ∷ []
unfolding disconnect published
disconnect-published d =
    let (routes, outs) = drain d.routes d.reader.inbox in
    let failing = fail_all_pending routes.pending (msg "session reconnecting") in
    rw (
      published-append outs (failing ++ (publish connecting ∷ [])),
      published-append failing (publish connecting ∷ []),
      drain-Silent d.routes d.reader.inbox,
      fail_all_pending-Silent routes.pending (msg "session reconnecting"),
    )

finish_up :
    (d : Driver) (outs : List Out) (t : Result Text)
    → Silent outs
    → published (finish d outs t).outs ≡ terminal t ∷ []
finish_up d outs t h = finish-published d outs t ∙ rw h

finish_down :
    (d : Driver) (outs : List Out) (t : Result Text)
    → published outs ≡ connecting ∷ []
    → published (finish d outs t).outs ≡ connecting ∷ terminal t ∷ []
finish_down d outs t h = finish-published d outs t ∙ rw h

published_live :
    (outs news more : List Out)
    → published outs ≡ connecting ∷ []
    → published ((outs ++ news) ++ more) ≡ connecting ∷ (published news ++ published more)
published_live outs news more h =
    rw (published-append (outs ++ news) more, published-append outs news, h)

stamped-Silent :
    (s : Services) (d : Driver) (now : ℕ) (es : List Event) → Silent (run_connected s d now es).outs
unfolding run_connected
stamped-Silent s d now es =
    connected-Silent s (record d { reader = record (d.reader) { last_frame = now } }) es

module _ (s : Services) (eps : List Episode)
    (ih : (d : Driver) → Up s d eps (run s d eps).result (published (run s d eps).outs)) where
  reconnect-Down :
      (d : Driver) (outs : List Out) (r : Reconnected)
      → published outs ≡ connecting ∷ []
      → (ss : List SessionState) × (published (after_reconnect d outs r (λ d'. run s d' eps)).outs
          ≡ connecting ∷ ss)
        × Down s d r eps (after_reconnect d outs r (λ d'. run s d' eps)).result ss
  unfolding after_reconnect published terminal
  reconnect-Down d outs stopped h = (
    logged_off (msg "session closed") ∷ [],
    finish_down d outs (ok (msg "session closed")) h,
    gives_up d eps,
  )
  reconnect-Down d outs (live conn) h =
      let news = publish (logged_on conn.steam_id) ∷ [] in
      let more = run s (adopt d conn) eps in
      (
        logged_on conn.steam_id ∷ published more.outs,
        published_live outs news more.outs h,
        recovers d eps conn more.result (published more.outs) (ih (adopt d conn)),
      )
  reconnect-Down d outs (rejected e) h =
      (failed e ∷ [], finish_down d outs (err e) h, is_refused d eps e)
  reconnect-Down d outs trying h = ([], h, retrying d eps)

  exit-Up :
      (d : Driver) (ep : Episode) (why : Option LoopExit)
      → exit_of s d ep ≡ why
      → Up s d
          (ep ∷ eps)
          (after_exit
            (run_connected s d ep.now ep.events)
            ep.attempts
            (λ d'. run s d' eps)
            why).result
          (published
            (after_exit
              (run_connected s d ep.now ep.events)
              ep.attempts
              (λ d'. run s d' eps)
              why).outs)
  unfolding after_exit terminal
  exit-Up d ep none e =
      subst (Up s d (ep ∷ eps) none) (sym (stamped-Silent s d ep.now ep.events))
        (running d ep eps e)
  exit-Up d ep (some shutdown) e =
      let st = run_connected s d ep.now ep.events in
      subst (Up s d (ep ∷ eps) _)
        (sym (
          finish_up st.driver st.outs (ok (msg "session closed"))
            (stamped-Silent s d ep.now ep.events)))
        (closes d ep eps e)
  exit-Up d ep (some (LoopExit.logged_off reason)) e =
      let st = run_connected s d ep.now ep.events in
      subst (Up s d (ep ∷ eps) _)
        (sym (finish_up st.driver st.outs (ok reason) (stamped-Silent s d ep.now ep.events)))
        (is_logged_off d ep eps reason e)
  exit-Up d ep (some disconnected) e =
      let st = run_connected s d ep.now ep.events in
      let (lost, told) = disconnect st.driver in
      let r = reconnect ep.attempts in
      let outs = st.outs ++ (told ++ r.outs) in
      let told_of_drop : published outs ≡ connecting ∷ [] =
        published-append st.outs (told ++ r.outs)
        ∙ rw (
          stamped-Silent s d ep.now ep.events,
          published-append told r.outs,
          disconnect-published st.driver,
          reconnect-Silent ep.attempts,
        ) in
      let (ss, shape, down) = reconnect-Down lost outs r.end told_of_drop in
      subst (Up s d (ep ∷ eps) _) (sym shape)
        (drops d ep eps (after_reconnect lost outs r.end (λ d'. run s d' eps)).result ss e down)

-- What the driver publishes over its episodes, step for step. An episode whose connection stays up
-- publishes nothing; one whose connection drops publishes `Connecting` there, and then, for each way
-- in which its reconnect ends: nothing while it is still trying, `LoggedOn` with the SteamID of the
-- new connection before the reports of the next episodes, `LoggedOff` when the session is closed
-- while it is down, and `Failed` with the error when the token is rejected. An episode that ends by
-- a shutdown or a logoff publishes `LoggedOff` with the reason. These terminal states are the last,
-- and agree with what the driver returns; a driver that still runs returns nothing.
pub run-Up :
    (s : Services) (d : Driver) (eps : List Episode)
    → Up s d eps (run s d eps).result (published (run s d eps).outs)
unfolding run published
run-Up s d [] = unstarted d
run-Up s d (ep ∷ eps) = exit-Up s eps (λ d'. run-Up s d' eps) d ep (exit_of s d ep) refl
