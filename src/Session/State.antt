-- ===== src/Session/State.antt =====
-- src/session/state.rs: the state that observers of a session see.
use steamroids.Prelude.{ℕ, Bool, true, false, String}
use steamroids.Error.{Error, Text}

-- `failed` keeps the error whose text the source publishes.
pub data SessionState : Type 0 where
  disconnected connecting authenticating : SessionState
  logged_on : ℕ → SessionState
  logged_off : Text → SessionState
  failed : Error → SessionState

abbrev pub is_ready : SessionState → Bool
is_ready (logged_on steam_id) = true
is_ready disconnected = false
is_ready other = false

abbrev pub label : SessionState → String
label disconnected = "disconnected"
label authenticating = "authenticating"
label connecting = "connecting"
label (logged_on steam_id) = "logged_on"
label (logged_off reason) = "logged_off"
label (failed error) = "failed"
