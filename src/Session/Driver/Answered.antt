-- ===== src/Session/Driver/Answered.antt =====
-- Over the whole life of the driver every request is settled.
pub mod Whole
use steamroids.Prelude.{
  ℕ, ◌+◌, ◌≡◌, refl, inl, inr, List, [], ◌∷◌, ◌++◌, Option, some, none, if◌then◌else◌, Bool-cases,
  arith,
}
use steamroids.Error.{Text, Result, ok, err, msg}
use steamroids.Codec.{SteamMessage}
use steamroids.Session.Driver.{Out, Routes, publish, fail_all_pending, dispatch}
use steamroids.Session.State.{connecting}
use steamroids.Session.Driver.Accounts.{
  one_if, held, settled, settled-append, settled-fail_all_pending, held-dispatch,
}
use steamroids.Session.Driver.Connected.{Command, request, notify, logoff, Driver}
use steamroids.Session.Driver.Reconnect.{
  Connection, Attempt, Reconnection, answer_while_down, answer_all, is_fatal, grow, reconnect_from,
  after_connect, after_failure,
}
use steamroids.Session.Driver.Run.{drain, finish, disconnect, terminal}

-- 1 if the command is a request of caller `c`.
unfoldable pub asked_by : ℕ → Option Command → ℕ
asked_by c (some (request emsg body deadline caller)) = one_if caller c
asked_by c (some (notify emsg body caller)) = 0
asked_by c (some (logoff caller)) = 0
asked_by c none = 0

-- The requests of `c` among the commands up to the one that stops the driver.
unfoldable pub asked_down : ℕ → List (Option Command) → ℕ
unfolding asked_by
asked_down c [] = 0
asked_down c (m ∷ ms) = asked_by c m + (if (answer_while_down m).0 then 0 else asked_down c ms)

-- The requests of `c` that the attempts which are made come across.
unfoldable pub asked_attempts : ℕ → List Attempt → ℕ
unfolding asked_down
asked_attempts c [] = 0
asked_attempts c (a ∷ attempts) =
    let later = asked_attempts c attempts in
    let going_on : ℕ = elim a.outcome [ ok conn ↦ 0 | err e ↦ if is_fatal e then 0 else later ] in
    asked_down c a.sleeping
    + (if (answer_all a.sleeping).0
        then 0
        else asked_down c a.connecting + (if (answer_all a.connecting).0 then 0 else going_on))

answer-balance : (c : ℕ) (m : Option Command) → settled c (answer_while_down m).1 ≡ asked_by c m
unfolding settled answer_while_down asked_by
answer-balance c none = refl
answer-balance c (some (request emsg body deadline caller)) = omega arith
answer-balance c (some (notify emsg body caller)) = refl
answer-balance c (some (logoff caller)) = refl

answer_all-balance :
    (c : ℕ) (ms : List (Option Command)) → settled c (answer_all ms).1 ≡ asked_down c ms
unfolding settled answer_all asked_down
answer_all-balance c [] = refl
answer_all-balance c (m ∷ ms) = elim (Bool-cases (answer_while_down m).0) [
  | inl stop ↦ rw stop (omega (arith, answer-balance c m))
  | inr going ↦
      rw (going, settled-append c (answer_while_down m).1 (answer_all ms).1)
        (omega (arith, answer-balance c m, answer_all-balance c ms))
]

-- What the outcome of an attempt adds: nothing, or what the later attempts come across.
connect-balance :
    (c : ℕ) (o : Result Connection) (next : Reconnection) (later : ℕ)
    → settled c next.outs ≡ later
    → settled c (after_connect o next).outs
      ≡ (elim o [ ok conn ↦ 0 | err e ↦ if is_fatal e then 0 else later ])
unfolding settled after_connect
connect-balance c (ok conn) next later h = refl
connect-balance c (err e) next later h = elim (Bool-cases (is_fatal e)) [
  | inl fatal ↦ rw (fatal, after_failure)
  | inr retry ↦ rw (retry, after_failure) h
]

pub reconnect_from-balance :
    (c backoff : ℕ) (attempts : List Attempt)
    → settled c (reconnect_from backoff attempts).outs ≡ asked_attempts c attempts
unfolding settled reconnect_from asked_attempts
reconnect_from-balance c backoff [] = refl
reconnect_from-balance c backoff (a ∷ attempts) =
    let next = reconnect_from (grow backoff) attempts in
    let later = asked_attempts c attempts in
    let ih = reconnect_from-balance c (grow backoff) attempts in
    elim (Bool-cases (answer_all a.sleeping).0) [
      | inl stop ↦ rw stop (omega (arith, answer_all-balance c a.sleeping))
      | inr going ↦ elim (Bool-cases (answer_all a.connecting).0) [
        | inl stop ↦
            rw (going, stop, settled-append c (answer_all a.sleeping).1 (answer_all a.connecting).1)
              (omega (arith, answer_all-balance c a.sleeping, answer_all-balance c a.connecting))
        | inr on ↦
            rw
              (
                going,
                on,
                settled-append c (answer_all a.sleeping).1
                    ((answer_all a.connecting).1 ++ (after_connect a.outcome next).outs),
                settled-append c (answer_all a.connecting).1 (after_connect a.outcome next).outs,
              )
              (omega (
                arith,
                answer_all-balance c a.sleeping,
                answer_all-balance c a.connecting,
                connect-balance c a.outcome next later ih,
              ))
      ]
    ]

pub settled-drain :
    (c : ℕ) (r : Routes) (ms : List SteamMessage)
    → settled c (drain r ms).1 + held c (drain r ms).0.pending ≡ held c r.pending
unfolding settled drain
settled-drain c r [] = omega arith
settled-drain c r (m ∷ ms) =
    rw (settled-append c (dispatch r m).1 (drain (dispatch r m).0 ms).1)
      (omega (arith, held-dispatch c r m, settled-drain c (dispatch r m).0 ms))

pub settled-disconnect : (c : ℕ) (d : Driver) → settled c (disconnect d).1 ≡ held c d.routes.pending
unfolding disconnect settled
settled-disconnect c d =
    let (routes, outs) = drain d.routes d.reader.inbox in
    let failing = fail_all_pending routes.pending (msg "session reconnecting") in
    rw
      (
        settled-append c outs (failing ++ (publish connecting ∷ [])),
        settled-append c failing (publish connecting ∷ []),
        settled-fail_all_pending c routes.pending (msg "session reconnecting"),
      )
      (omega (arith, settled-drain c d.routes d.reader.inbox))

pub settled-finish :
    (c : ℕ) (d : Driver) (outs : List Out) (r : Result Text)
    → settled c (finish d outs r).outs ≡ settled c outs + held c d.routes.pending
unfolding finish settled
settled-finish c d outs r =
    let failing = fail_all_pending d.routes.pending (msg "session driver stopped") in
    rw
      (
        settled-append c outs (failing ++ (publish (terminal r) ∷ [])),
        settled-append c failing (publish (terminal r) ∷ []),
        settled-fail_all_pending c d.routes.pending (msg "session driver stopped"),
      )
      (omega arith)

pub pending-disconnect : (c : ℕ) (d : Driver) → held c (disconnect d).0.routes.pending ≡ 0
unfolding disconnect held
pending-disconnect c d = refl

pub pending-finish :
    (c : ℕ) (d : Driver) (outs : List Out) (r : Result Text)
    → held c (finish d outs r).driver.routes.pending ≡ 0
unfolding finish held
pending-finish c d outs r = refl
