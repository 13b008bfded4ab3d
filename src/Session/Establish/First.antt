-- ===== src/Session/Establish/First.antt =====
-- Which server a connection comes from, and which refusals stop the search.
use steamroids.Prelude.{◌≡◌, ◌⊎◌, ◌↔◌, false, List, ◌∷◌, ◌++◌, Option, some, none, All, arith}
use steamroids.Prelude.Int.{ℤ, pos, negsuc}
use steamroids.Error.{Error, Text, Result, ok, err, timeout}
use steamroids.Error.Eresult
use steamroids.Session.Connection.Logon.{logon_rejection}
use steamroids.Session.Driver.Reconnect.{is_fatal}
use steamroids.Session.Establish.{Established}

-- An attempt that leads on to the next server.
abbrev pub Passes {ℓ} : {S : Type ℓ} → (S → Option (Result Established)) → S → Type 0
Passes attempt server =
    (attempt server ≡ none) ⊎ ((e : Error) × (attempt server ≡ some (err e)) × (is_fatal e ≡ false))

-- The first server that does not lead on gives the connection.
abbrev pub FirstOf {ℓ} :
    {S : Type ℓ} → (S → Option (Result Established)) → List S → Established → Type ℓ
FirstOf {S} attempt servers found =
    (before : List S) × (server : S) × (after : List S) × (servers ≡ before ++ (server ∷ after))
    × All (Passes attempt) before
    × (attempt server ≡ some (ok found))

-- The codes of a refusal that is worth another connection.
abbrev pub IsRetryable : ℤ → Type 0
IsRetryable code =
    (code ≡ pos Eresult.no_connection)
    ⊎ ((code ≡ pos Eresult.busy)
        ⊎ ((code ≡ pos Eresult.timeout)
            ⊎ ((code ≡ pos Eresult.service_unavailable)
                ⊎ ((code ≡ pos Eresult.try_another_cm)
                    ⊎ (code ≡ pos Eresult.rate_limit_exceeded)))))

-- A logon that the CM refuses with some code lets the session try again, at the next server and
-- after the next wait, exactly when the code is one of the six transient ones.
pub is_fatal-logon_rejection :
    (code : ℤ) (why : Text) → (is_fatal (logon_rejection code why) ≡ false) ↔ IsRetryable code
unfolding is_fatal logon_rejection
is_fatal-logon_rejection (pos n) why = (ground arith, ground arith)
is_fatal-logon_rejection (negsuc n) why = (ground arith, ground arith)
