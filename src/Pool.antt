-- ===== src/Pool.antt =====
-- src/pool.rs: a round-robin pool of proxies with a failure count for each.
--
-- A method that takes `&mut self` returns the new pool. `entries[index]` panics out of range in
-- the source; `failures_at` answers 0 there, and `acquire` is proved to stay in range. Log lines
-- are left out.
pub mod Rotation
pub mod Fallback
pub mod Fairness
pub mod Health
mod Runs
use steamroids.Prelude.{
  ℕ, zero, suc, ◌+◌, ◌-◌, ◌%◌, ◌^◌, min, Bool, List, [], ◌∷◌, map, Option, some, none, length,
  get_elem?, ltb, ◌==◌, if◌then◌else◌,
}
use steamroids.Wire.{Bytes}
use steamroids.Proxy.{ProxyConfig, display}

pub record HealthPolicy : Type 0 where
  pub dead_after : ℕ

-- `HealthPolicy::default()`.
abbrev pub default_policy : HealthPolicy
default_policy = record { dead_after = 3 }

pub data ProxyStatus : Type 0 where
  healthy_status : ProxyStatus
  unhealthy : ℕ → ProxyStatus

pub record Lease : Type 0 where
  pub index : ℕ
  pub proxy : ProxyConfig

pub record Entry : Type 0 where
  pub proxy : ProxyConfig
  pub consecutive_failures : ℕ

pub record ProxyPool : Type 0 where
  pub entries : List Entry
  pub policy : HealthPolicy
  pub cursor : ℕ

abbrev pub u32_max : ℕ
u32_max = 2 ^ 32 - 1

pub with_policy : List ProxyConfig → HealthPolicy → ProxyPool
with_policy proxies policy = record {
  entries = map (λ proxy. record { proxy = proxy; consecutive_failures = 0 }) proxies;
  policy = policy;
  cursor = 0;
}

pub new : List ProxyConfig → ProxyPool
unfolding with_policy
new proxies = with_policy proxies default_policy

pub len : ProxyPool → ℕ
len p = length p.entries

pub is_empty : ProxyPool → Bool
is_empty p = length p.entries == 0

failures_of : Option Entry → ℕ
failures_of none = 0
failures_of (some e) = e.consecutive_failures

-- `entries[index].consecutive_failures`.
pub failures_at : ProxyPool → ℕ → ℕ
unfolding failures_of
failures_at p index = failures_of (get_elem? p.entries index)

pub is_healthy : ProxyPool → ℕ → Bool
is_healthy p index = ltb (failures_at p index) p.policy.dead_after

-- The healthy ones among the first `n` entries.
healthy_below : ProxyPool → ℕ → ℕ
healthy_below p zero = 0
healthy_below p (suc n) = healthy_below p n + (if is_healthy p n then 1 else 0)

pub healthy : ProxyPool → ℕ
unfolding healthy_below
healthy p = healthy_below p (length p.entries)

lease_of : ℕ → Option Entry → Option Lease
lease_of index none = none
lease_of index (some e) = some (record { index = index; proxy = e.proxy })

-- `none` is the panic of an index out of range.
pub lease : ProxyPool → ℕ → Option Lease
unfolding lease_of
lease p index = lease_of index (get_elem? p.entries index)

-- `for step in 0..n`: `left` rounds are still to come, and `step` is the next.
pub scan : ProxyPool → ℕ → ℕ → Option ℕ
scan p zero step = none
scan p (suc left) step =
    let index = (p.cursor + step) % length p.entries in
    let rest = scan p left (suc step) in if is_healthy p index then some index else rest

-- `min_by_key`: the first of the least, with `best` the least so far and `i` the next.
pub least : ProxyPool → ℕ → ℕ → ℕ → ℕ
least p zero i best = best
least p (suc left) i best =
    least p left (suc i) (if ltb (failures_at p i) (failures_at p best) then i else best)

pub choose : ProxyPool → ℕ
unfolding scan least
choose p = elim (scan p (length p.entries) 0) [
  | some index ↦ index
  | none ↦ least p (length p.entries - 1) 1 0
]

pub acquire : ProxyPool → ProxyPool × Option Lease
acquire p =
    let n = length p.entries in
    let index = choose p in
    if n == 0 then (p, none) else (record p { cursor = (index + 1) % n }, lease p index)

-- `entries.get_mut(index)`: a lease out of range changes nothing.
update : List Entry → ℕ → (ℕ → ℕ) → List Entry
update [] i f = []
update (e ∷ es) zero f = record e { consecutive_failures = f e.consecutive_failures } ∷ es
update (e ∷ es) (suc i) f = e ∷ update es i f

pub report_success : ProxyPool → Lease → ProxyPool
unfolding update
report_success p l = record p { entries = update p.entries l.index (λ _. 0) }

pub report_failure : ProxyPool → Lease → ProxyPool
unfolding update
report_failure p l = record p { entries = update p.entries l.index (λ k. min (k + 1) u32_max) }

status_of : ProxyPool → Entry → ProxyStatus
status_of p e =
    if ltb e.consecutive_failures p.policy.dead_after
    then healthy_status
    else unhealthy e.consecutive_failures

status_or : ProxyPool → Option Entry → ProxyStatus
unfolding status_of
status_or p none = healthy_status
status_or p (some e) = status_of p e

pub status : ProxyPool → Lease → ProxyStatus
unfolding status_or
status p l = status_or p (get_elem? p.entries l.index)

pub statuses : ProxyPool → List (Bytes × ProxyStatus)
unfolding status_of
statuses p = map (λ e. (display e.proxy, status_of p e)) p.entries
