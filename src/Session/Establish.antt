-- ===== src/Session/Establish.antt =====
-- src/session/connection.rs, `establish`, and src/session/driver.rs, `establish_resilient` and
-- `spawn_session`: from a server list to a running driver.
--
-- What the environment decides is an argument: the discovered servers, and how the attempt on each
-- server ends (`none`: its time is up).
pub mod First
pub mod Resilient
use steamroids.Prelude.{
  ℕ, zero, suc, ◌+◌, Bool, List, [], ◌∷◌, Option, some, none, take, ltb, if◌then◌else◌,
}
use steamroids.Error.{Error, Result, ok, err, timeout, network, msg, ◌>>=◌}
use steamroids.Session.Connection.Logon.{CmConnection, LoggedOn}
use steamroids.Session.Driver.Connected.{Driver}
use steamroids.Session.Driver.Reconnect.{is_fatal, initial_backoff, grow}

abbrev pub max_connect_attempts : ℕ
max_connect_attempts = 5

abbrev pub initial_connect_attempts : ℕ
initial_connect_attempts = 4

abbrev pub Established : Type 0
Established = CmConnection × LoggedOn

-- The loop over the servers, with the last error so far.
unfoldable pub try_servers {ℓ} :
    {S : Type ℓ} → (S → Option (Result Established)) → List S → Error → Result Established
try_servers attempt [] last_err = err last_err
try_servers attempt (server ∷ servers) last_err =
    let next = λ (e : Error). try_servers attempt servers e in
    elim (attempt server) [
      | none ↦ next (timeout "cm connect attempt")
      | some (ok found) ↦ ok found
      | some (err e) ↦ if is_fatal e then err e else next e
    ]

unfoldable pub establish {ℓ} :
    {S : Type ℓ} → Result (List S) → (S → Option (Result Established)) → Result Established
unfolding try_servers
establish discovered attempt = do
  servers ← discovered
  try_servers attempt (take max_connect_attempts servers)
      (network (msg "no CM servers to connect to"))

-- The attempts of `establish_resilient` from number `attempt` on, with the waits between them.
unfoldable pub resilient_from :
    (ℕ → Result Established) → ℕ → ℕ → ℕ → Error → List ℕ × Result Established
resilient_from connect zero attempt backoff last_err = ([], err last_err)
resilient_from connect (suc left) attempt backoff last_err =
    let more = ltb attempt initial_connect_attempts in
    let next = λ (e : Error).
      resilient_from connect left (attempt + 1) (if more then grow backoff else backoff) e in
    elim (connect attempt) [
      | ok found ↦ ([], ok found)
      | err e ↦
          if is_fatal e
          then ([], err e)
          else if more
          then (backoff ∷ (next e).0, (next e).1)
          else next e
    ]

unfoldable pub establish_resilient : (ℕ → Result Established) → List ℕ × Result Established
unfolding resilient_from
establish_resilient connect =
    resilient_from connect initial_connect_attempts 1 initial_backoff
      (network (msg "no connect attempt ran"))

-- The driver that `spawn_session` starts.
unfoldable pub spawned : Established → Driver
spawned (conn, logged) = record {
  steam_id = conn.ids.steam_id;
  session_id = conn.ids.session_id;
  heartbeat = logged.heartbeat_interval;
  next_jobid = 1;
  routes = record { pending = []; snapshots = [] };
  reader = conn.reader;
}

unfoldable pub spawn_session : (ℕ → Result Established) → Result Driver
unfolding establish_resilient spawned
spawn_session connect = do established ← (establish_resilient connect).1; ok (spawned established)
