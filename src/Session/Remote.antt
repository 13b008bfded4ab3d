-- ===== src/Session/Remote.antt =====
-- src/session/driver.rs, `SessionHandle`, as the client modules use it: requests and notifications
-- against whatever stands behind the handle.
--
-- The other side is a parameter that may depend on all that was sent so far, the newest first.
use steamroids.Prelude.{ℕ, Bool, List, ◌∷◌, Option}
use steamroids.Error.{Result}
use steamroids.Wire.{Bytes, Proto}
use steamroids.Codec.{SteamMessage}
use steamroids.Session.Handle.{Reception, dispatch_request, notify_result}

-- A message type and a body.
abbrev pub Sent : Type 0
Sent = ℕ × Bytes

pub record Remote : Type 0 where
  -- Whether the driver takes the next command.
  pub queued : List Sent → Bool
  -- What comes back for the newest request, and for the newest notification.
  pub replies : List Sent → Reception (Result SteamMessage)
  pub acks : List Sent → Option (Result (Unit {0}))

-- `request` (with the check of the header) and `request_ignoring_eresult` (without).
unfoldable pub ask :
    {Q R : Type 0} → Remote → Proto Q → Proto R → Bool → ℕ → Q → List Sent → Result R × List Sent
unfolding dispatch_request
ask env q p check_eresult emsg req sent =
    let now = (emsg, q.encode req) ∷ sent in
    (dispatch_request p (env.queued now) (env.replies now) check_eresult, now)

-- `notify`.
unfoldable pub tell :
    {Q : Type 0} → Remote → Proto Q → ℕ → Q → List Sent → Result (Unit {0}) × List Sent
unfolding notify_result
tell env q emsg req sent =
    let now = (emsg, q.encode req) ∷ sent in (notify_result (env.queued now) (env.acks now), now)
