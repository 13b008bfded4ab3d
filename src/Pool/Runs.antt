-- ===== src/Pool/Runs.antt =====
-- Concrete pools, and the theorems of the pool at concrete inputs.
use steamroids.Prelude.{ℕ, zero, suc, ◌<◌, ◌≡◌, refl, true, false, List, [], ◌∷◌, none, arith}
use steamroids.Prelude.Text.{codes}
use steamroids.Proxy.{ProxyConfig, socks5}
use steamroids.Pool.{
  ProxyPool, Lease, Entry, unhealthy, with_policy, is_healthy, failures_at, lease, choose, acquire,
  status, healthy,
}
use steamroids.Pool.Rotation.{slot, Dead, HandsOut, acquire-first_healthy}
use steamroids.Pool.Fallback.{IsLeast, acquire-IsLeast}
use steamroids.Pool.Fairness.{rounds, acquire-reaches}
use steamroids.Pool.Health.{Report, succeeded, failed, history, streak, status-history}

abbrev exit : ProxyConfig
exit = record {
  kind = socks5;
  host = codes "p";
  port = 1080;
  credentials = none;
  tls_to_proxy = false;
}

abbrev entry : ℕ → Entry
entry k = record { proxy = exit; consecutive_failures = k }

-- Three exits, of which only the last is healthy; and three dead ones.
abbrev one_left : ProxyPool
one_left = record {
  entries = entry 2 ∷ entry 5 ∷ entry 1 ∷ [];
  policy = record { dead_after = 2 };
  cursor = 0;
}

abbrev all_dead : ProxyPool
all_dead = record {
  entries = entry 4 ∷ entry 2 ∷ entry 2 ∷ [];
  policy = record { dead_after = 2 };
  cursor = 2;
}

picks_healthy : choose one_left ≡ 2
unfolding choose is_healthy failures_at
picks_healthy = refl

picks_least : choose all_dead ≡ 1
unfolding choose is_healthy failures_at
picks_least = refl

counts_healthy : healthy one_left ≡ 1
unfolding healthy is_healthy failures_at
counts_healthy = refl

last_is_healthy : is_healthy one_left 2 ≡ true
unfolding is_healthy failures_at
last_is_healthy = refl

acquire-first_healthy_example :
    (s : ℕ) × (s < 3)
    × (is_healthy one_left (slot one_left s) ≡ true)
    × Dead one_left 0 s
    × HandsOut one_left (slot one_left s)
acquire-first_healthy_example =
    acquire-first_healthy one_left 2 (omega arith) (omega arith) last_is_healthy

none_healthy : (j : ℕ) → j < 3 → is_healthy all_dead j ≡ false
unfolding is_healthy failures_at
none_healthy zero h = refl
none_healthy (suc zero) h = refl
none_healthy (suc (suc zero)) h = refl
none_healthy (suc (suc (suc j))) h = absurd (omega arith)

acquire-IsLeast_example : (m : ℕ) × IsLeast all_dead 3 m × HandsOut all_dead m
acquire-IsLeast_example = acquire-IsLeast all_dead (omega arith) none_healthy

acquire-reaches_example : (k : ℕ) × (k < 3) × ((acquire (rounds k one_left)).1 ≡ lease one_left 2)
acquire-reaches_example = acquire-reaches one_left 2 (omega arith) (omega arith) last_is_healthy

abbrev first : Lease
first = record { index = 0; proxy = exit }

abbrev reports : List Report
reports = failed first ∷ succeeded first ∷ failed first ∷ failed first ∷ []

status-history_example :
    status (history (with_policy (exit ∷ []) (record { dead_after = 2 })) reports) first
    ≡ unhealthy 2
unfolding streak
status-history_example =
    status-history (exit ∷ []) (record { dead_after = 2 }) reports first (omega arith) (omega arith)
