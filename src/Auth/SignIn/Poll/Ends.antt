-- ===== src/Auth/SignIn/Poll/Ends.antt =====
-- The polling ends.
use steamroids.Prelude.{
  ℕ, zero, suc, ◌≡◌, refl, ◌+◌, ◌*◌, ◌≤◌, ◌<◌, inl, inr, Bool-cases, false, List, Option, some,
  none, ◌==◌, ◌||◌, arith,
}
use steamroids.Error.{Result, err, timeout}
use steamroids.Auth.WebApi.{SignInOutcome, Act}
use steamroids.Auth.SignIn.{F32, nan, infinite, finite, AuthServices, BeginSession}
use steamroids.Auth.SignIn.Begin.{compute_poll_interval}
use steamroids.Auth.SignIn.Poll.{
  Polled-cases, poll_once, past_deadline, poll_loop, poll_for_token, second, poll_budget, max_polls,
}

-- What `sleep` promises: it does not end before its time.
abbrev pub Sleeps : AuthServices → Type 0
Sleeps s = (interval k : ℕ) → s.instant interval k + interval * second ≤ s.instant interval (suc k)

-- The interval between two polls is between 1 and 60 seconds, whatever Steam asks for.
pub compute_poll_interval-bounds :
    (interval : Option F32)
    → (1 ≤ compute_poll_interval interval) × (compute_poll_interval interval ≤ 60)
unfolding compute_poll_interval
compute_poll_interval-bounds none = (omega arith, omega arith)
compute_poll_interval-bounds (some nan) = (omega arith, omega arith)
compute_poll_interval-bounds (some (infinite negative)) = (omega arith, omega arith)
compute_poll_interval-bounds (some (finite negative m e)) = elim (Bool-cases (negative || m == 0)) [
  | inl nonsense ↦ rw nonsense (omega arith, omega arith)
  | inr sane ↦ rw sane (omega arith, omega arith)
]

module _ (s : AuthServices) (begin : BeginSession) where
  clock-lower :
      (k : ℕ)
      → 1 ≤ begin.poll_interval
      → Sleeps s
      → s.instant begin.poll_interval 0 + k * second ≤ s.instant begin.poll_interval k
  clock-lower zero h sleeps = omega arith
  clock-lower (suc k) h sleeps =
      let ih = clock-lower k h sleeps in
      let step = sleeps begin.poll_interval k in
      let long : second ≤ begin.poll_interval * second = grind arith in omega arith

  not_late :
      (k : ℕ) → 1 ≤ begin.poll_interval → Sleeps s → past_deadline s begin k ≡ false → k < 120
  unfolding past_deadline
  not_late k h sleeps early =
      let lower = clock-lower k h sleeps in
      let before : s.instant begin.poll_interval k
          < s.instant begin.poll_interval 0 + poll_budget * second =
        ground (arith, early) in
      omega arith

  poll_loop-ends :
      (f polls client_id : ℕ) (acts : List Act)
      → 1 ≤ begin.poll_interval
      → Sleeps s
      → 120 ≤ polls + f
      → polls < 120
      → (end : Result SignInOutcome × List Act) × (poll_loop f s begin polls client_id acts
          ≡ some end)
  unfolding poll_loop past_deadline
  poll_loop-ends zero polls client_id acts h sleeps enough few = absurd (omega arith)
  poll_loop-ends (suc f) polls client_id acts h sleeps enough few =
      elim (Polled-cases (poll_once s begin client_id acts).0) [
        | inl (r, done) ↦ ((r, (poll_once s begin client_id acts).1), rw (done, poll_loop) refl)
        | inr (next, more) ↦ elim (Bool-cases (past_deadline s begin (suc polls))) [
          | inl late ↦ (
            (err (timeout "auth poll exceeded 120s"), (poll_once s begin client_id acts).1),
            rw (more, late, poll_loop) refl,
          )
          | inr early ↦
              let (end, e) =
                poll_loop-ends f (suc polls) next (poll_once s begin client_id acts).1 h sleeps
                  (omega arith) (not_late (suc polls) h sleeps early) in
              (end, rw (more, early, poll_loop) e)
        ]
      ]

  -- With a poll interval of at least one second, and if no sleep ends before its time, the polling
  -- ends within 120 polls: by a token, a refusal, an error or the timeout.
  pub poll_for_token-ends :
      (acts : List Act)
      → 1 ≤ begin.poll_interval
      → Sleeps s
      → (end : Result SignInOutcome × List Act) × (poll_for_token s begin acts ≡ some end)
  unfolding poll_for_token
  poll_for_token-ends acts h sleeps =
      poll_loop-ends max_polls 0 begin.client_id acts h sleeps (omega arith) (omega arith)
