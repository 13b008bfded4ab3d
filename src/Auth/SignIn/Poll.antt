-- ===== src/Auth/SignIn/Poll.antt =====
-- src/auth/signin.rs: the polling for the token.
pub mod Ends
use steamroids.Prelude.{
  ℕ, zero, suc, ◌≡◌, refl, inl, inr, ◌⊎◌, ◌+◌, ◌*◌, ◌^◌, Bool, true, false, List, Option, some,
  none, leb, ◌==◌, if◌then◌else◌,
}
use mathlib.Core.Option.{get_or}
use steamroids.Prelude.Int.{ℤ}
use steamroids.Error.{Result, ok, err, timeout}
use steamroids.Wire.{Bytes}
use steamroids.Auth.{RefreshToken}
use steamroids.Auth.Jwt.{steam_id_from_refresh_token}
use steamroids.Auth.WebApi.{SignInOutcome, success, Act, post, call, refusal}
use steamroids.Auth.SignIn.{PollReply, AuthServices, BeginSession}
use steamroids.Auth.SignIn.Begin.{filter_nonempty}

-- In nanoseconds.
abbrev pub second : ℕ
second = 10 ^ 9

-- In seconds.
abbrev pub poll_budget : ℕ
poll_budget = 120

abbrev pub keep_nonzero : ℕ → ℕ → ℕ
keep_nonzero current id = if id == 0 then current else id

unfoldable pub rotate_client_id : ℕ → Option ℕ → ℕ
rotate_client_id current none = current
rotate_client_id current (some id) = keep_nonzero current id

-- What a token in a response gives.
unfoldable pub token_outcome : AuthServices → BeginSession → Option Bytes → Bytes → SignInOutcome
unfolding filter_nonempty steam_id_from_refresh_token
token_outcome s begin access rt =
    let id : ℕ = elim (steam_id_from_refresh_token s.jwt rt) [
      | ok steam_id ↦ steam_id
      | err e ↦ begin.session_steamid
    ] in
    success id (record { expose = rt }) (filter_nonempty access)

-- What one response means: the end of the loop, or the client id to go on with.
pub data Polled : Type 0 where
  ended : Result SignInOutcome → Polled
  pending : ℕ → Polled

pub Polled-cases :
    (p : Polled) → ((r : Result SignInOutcome) × (p ≡ ended r)) ⊎ ((id : ℕ) × (p ≡ pending id))
Polled-cases (ended r) = inl (r, refl)
Polled-cases (pending id) = inr (id, refl)

polled_reply : AuthServices → BeginSession → ℕ → PollReply → Polled
unfolding filter_nonempty token_outcome rotate_client_id
polled_reply s begin client_id resp = elim (filter_nonempty resp.refresh_token) [
  | none ↦ pending (rotate_client_id client_id resp.new_client_id)
  | some rt ↦ ended (ok (token_outcome s begin resp.access_token rt))
]

polled_response : AuthServices → BeginSession → ℕ → Result (ℤ × PollReply) → Polled
unfolding refusal polled_reply
polled_response s begin client_id (err e) = ended (err e)
polled_response s begin client_id (ok (er, resp)) = elim (refusal "PollAuthSessionStatus" er) [
  | some r ↦ ended r
  | none ↦ polled_reply s begin client_id resp
]

unfoldable pub poll_once : AuthServices → BeginSession → ℕ → List Act → Polled × List Act
unfolding call polled_response
poll_once s begin client_id acts =
    let (r, acts') =
      call s.web s.protos.poll s.protos.poll_reply "PollAuthSessionStatus" post
        (record { client_id = some client_id; request_id = some begin.request_id }) acts in
    (polled_response s begin client_id r, acts')

-- The clock after `polls` sleeps against the deadline.
unfoldable pub past_deadline : AuthServices → BeginSession → ℕ → Bool
past_deadline s begin polls =
    let clock = s.instant begin.poll_interval in leb (clock 0 + poll_budget * second) (clock polls)

-- The loop after `polls` polls, with the sleep and the check that precede every poll but the first.
-- The first argument is fuel (`none`: it is used up).
unfoldable pub poll_loop :
    ℕ → AuthServices → BeginSession → ℕ → ℕ → List Act → Option (Result SignInOutcome × List Act)
unfolding poll_once past_deadline
poll_loop zero s begin polls client_id acts = none
poll_loop (suc f) s begin polls client_id acts =
    let (polled, acts') = poll_once s begin client_id acts in
    elim polled [
      | ended r ↦ some (r, acts')
      | pending client_id' ↦ elim (past_deadline s begin (suc polls)) [
        | true ↦ some (err (timeout "auth poll exceeded 120s"), acts')
        | false ↦ poll_loop f s begin (suc polls) client_id' acts'
      ]
    ]

-- 120 polls are enough: there is a second between two of them.
abbrev pub max_polls : ℕ
max_polls = 120

unfoldable pub poll_for_token :
    AuthServices → BeginSession → List Act → Option (Result SignInOutcome × List Act)
unfolding poll_loop
poll_for_token s begin acts = poll_loop max_polls s begin 0 begin.client_id acts
