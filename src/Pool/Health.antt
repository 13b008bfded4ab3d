-- ===== src/Pool/Health.antt =====
-- Health against the history of the reported outcomes.
use steamroids.Prelude.{
  ℕ, zero, suc, ◌+◌, ◌≤◌, ◌<◌, ◌≡◌, refl, ap, ◌∙◌, min, List, [], ◌∷◌, length, get_elem?,
  get_elem?-in_range, ltb, ◌==◌, if◌then◌else◌, arith,
}
use steamroids.Proxy.{ProxyConfig}
use steamroids.Pool.{
  ProxyPool, healthy_status, unhealthy, Lease, Entry, HealthPolicy, u32_max, failures_at,
  failures_of, with_policy, update, report_success, report_failure, status, status_or, status_of,
}
use steamroids.Pool.Rotation.{size}

pub data Report : Type 0 where
  succeeded failed : Lease → Report

pub report : ProxyPool → Report → ProxyPool
unfolding report_success report_failure
report p (succeeded l) = report_success p l
report p (failed l) = report_failure p l

unfoldable pub history : ProxyPool → List Report → ProxyPool
unfolding report
history p [] = p
history p (r ∷ rs) = history (report p r) rs

-- How often entry `i` has failed since its last success, from `k` failures on.
unfoldable pub streak : ℕ → ℕ → List Report → ℕ
streak i k [] = k
streak i k (succeeded l ∷ rs) = streak i (if l.index == i then 0 else k) rs
streak i k (failed l ∷ rs) = streak i (if l.index == i then k + 1 else k) rs

length-update : (es : List Entry) (i : ℕ) (f : ℕ → ℕ) → length (update es i f) ≡ length es
unfolding update
length-update [] i f = refl
length-update (e ∷ es) zero f = refl
length-update (e ∷ es) (suc i) f = ap suc (length-update es i f)

failures-update :
    (es : List Entry) (i j : ℕ) (f : ℕ → ℕ)
    → j < length es
    → failures_of (get_elem? (update es i f) j)
      ≡ (if i == j then f (failures_of (get_elem? es j)) else failures_of (get_elem? es j))
unfolding update failures_of
failures-update [] i j f h = absurd (omega arith)
failures-update (e ∷ es) zero zero f h = refl
failures-update (e ∷ es) zero (suc j) f h = ground arith
failures-update (e ∷ es) (suc i) zero f h = ground arith
failures-update (e ∷ es) (suc i) (suc j) f h = failures-update es i j f (omega arith) ∙ ground arith

module _ (i : ℕ) where
  tracked :
      (rs : List Report) (p : ProxyPool) (k : ℕ)
      → i < size p
      → failures_at p i ≡ min k u32_max
      → failures_at (history p rs) i ≡ min (streak i k rs) u32_max
  unfolding history streak report_success report_failure failures_at report
  tracked [] p k h e = e
  tracked (succeeded l ∷ rs) p k h e =
      tracked rs (report_success p l) (if l.index == i then 0 else k)
        (omega (arith, length-update p.entries l.index (λ _. 0)))
        (failures-update p.entries l.index i (λ _. 0) h ∙ ground arith)
  tracked (failed l ∷ rs) p k h e =
      tracked rs (report_failure p l) (if l.index == i then k + 1 else k)
        (omega (arith, length-update p.entries l.index (λ c. min (c + 1) u32_max)))
        (failures-update p.entries l.index i (λ c. min (c + 1) u32_max) h ∙ ground arith)

fresh_failures :
    (proxies : List ProxyConfig) (policy : HealthPolicy) (i : ℕ)
    → failures_at (with_policy proxies policy) i ≡ 0
unfolding failures_at with_policy failures_of
fresh_failures [] policy i = refl
fresh_failures (x ∷ xs) policy zero = refl
fresh_failures (x ∷ xs) policy (suc i) = fresh_failures xs policy i

size-with_policy :
    (proxies : List ProxyConfig) (policy : HealthPolicy)
    → size (with_policy proxies policy) ≡ length proxies
unfolding with_policy
size-with_policy [] policy = refl
size-with_policy (x ∷ xs) policy = ap suc (size-with_policy xs policy)

kept :
    (p : ProxyPool) (rs : List Report)
    → (size (history p rs) ≡ size p) × ((history p rs).policy ≡ p.policy)
unfolding history report report_success report_failure
kept p [] = (refl, refl)
kept p (succeeded l ∷ rs) =
    let (a, b) = kept (report_success p l) rs in (a ∙ length-update p.entries l.index (λ _. 0), b)
kept p (failed l ∷ rs) =
    let (a, b) = kept (report_failure p l) rs in
    (a ∙ length-update p.entries l.index (λ c. min (c + 1) u32_max), b)

status-failures :
    (p : ProxyPool) (l : Lease)
    → l.index < size p
    → status p l ≡ (
        if ltb (failures_at p l.index) p.policy.dead_after
        then healthy_status
        else unhealthy (failures_at p l.index))
unfolding status failures_at
status-failures p l h =
    let (e, at) = get_elem?-in_range p.entries l.index h in
    rw (at, failures_of, status_or) (unfold status_of in refl)

saturated_test : (s d : ℕ) → d ≤ u32_max → ltb (min s u32_max) d ≡ ltb s d
saturated_test s d h = ground arith

-- In a fresh pool with a threshold of at most 2 ^ 32 - 1, after any history of reports, the status
-- of a lease in range is decided by the failures reported for its entry since the last success
-- there: healthy while they are fewer than the threshold, and otherwise unhealthy with their
-- number, which stops at 2 ^ 32 - 1.
pub status-history :
    (proxies : List ProxyConfig) (policy : HealthPolicy) (rs : List Report) (l : Lease)
    → l.index < length proxies
    → policy.dead_after ≤ u32_max
    → status (history (with_policy proxies policy) rs) l ≡ (
        if ltb (streak l.index 0 rs) policy.dead_after
        then healthy_status
        else unhealthy (min (streak l.index 0 rs) u32_max))
status-history proxies policy rs l h small =
    let p = with_policy proxies policy in
    let (same_size, same_policy) = kept p rs in
    let in_pool = size-with_policy proxies policy in
    let count = tracked l.index rs p 0 (omega arith) (fresh_failures proxies policy l.index) in
    rw (status-failures (history p rs) l (omega arith), count, same_policy)
      (unfold with_policy in rw (saturated_test (streak l.index 0 rs) policy.dead_after small))
