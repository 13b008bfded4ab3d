-- ===== src/Pool/Fallback.antt =====
-- `acquire` while no proxy is healthy, and in general.
use steamroids.Prelude.{
  ℕ, zero, suc, ◌+◌, ◌-◌, ◌%◌, ◌≤◌, ◌<◌, ◌≡◌, refl, ap, subst, if◌then◌else◌, ◌∙◌, inl, inr, false,
  List, [], ◌∷◌, Option, some, none, length, get_elem?, get_elem?-in_range, ◌⊎◌, ltb, ltb→lt,
  ltb→ge, below_suc, Bool-cases, arith,
}
use native.Mathlib.Nat.{mod-lt}
use native.Mathlib.Decide.{dec_lt}
use steamroids.Pool.{
  ProxyPool, Entry, Lease, failures_at, is_healthy, lease, lease_of, scan, least, choose, acquire,
}
use steamroids.Pool.Rotation.{
  size, slot, Dead, HandsOut, scan-Scanned, acquire-choose, choose_found,
}

-- `m` is the first of the entries below `hi` with the fewest failures.
abbrev pub IsLeast : ProxyPool → ℕ → ℕ → Type 0
IsLeast p hi m =
    (m < hi)
    × ((j : ℕ) → j < hi → failures_at p m ≤ failures_at p j)
    × ((j : ℕ) → j < m → failures_at p m < failures_at p j)

IsLeast-suc :
    (p : ProxyPool) (i best : ℕ)
    → IsLeast p i best
    → IsLeast p (suc i) (if ltb (failures_at p i) (failures_at p best) then i else best)
IsLeast-suc p i best (below, all, before) =
    elim (Bool-cases (ltb (failures_at p i) (failures_at p best))) [
      | inl less ↦
          let fewer = ltb→lt (failures_at p i) (failures_at p best) less in
          rw less (
            omega arith,
            below_suc (λ j. failures_at p i ≤ failures_at p j) i (λ j h. omega (arith, all j h))
                (omega arith),
            (λ j h. omega (arith, all j h)),
          )
      | inr not_less ↦
          let no_fewer = ltb→ge (failures_at p i) (failures_at p best) not_less in
          rw not_less (
            omega arith,
            below_suc (λ j. failures_at p best ≤ failures_at p j) i all no_fewer,
            before,
          )
    ]

least-IsLeast :
    (p : ProxyPool) (left i best : ℕ)
    → IsLeast p i best
    → IsLeast p (i + left) (least p left i best)
unfolding least
least-IsLeast p zero i best h = subst (λ k. IsLeast p k best) (omega arith) h
least-IsLeast p (suc left) i best h =
    subst (λ k. IsLeast p k (least p (suc left) i best)) (omega arith)
      (least-IsLeast p left (suc i) _ (IsLeast-suc p i best h))

choose_fallback : (p : ProxyPool) → scan p (size p) 0 ≡ none → choose p ≡ least p (size p - 1) 1 0
unfolding choose
choose_fallback p e = rw (e, choose)

-- Every entry is some step behind the cursor.
none_healthy-Dead :
    (p : ProxyPool)
    → 0 < size p
    → ((j : ℕ) → j < size p → is_healthy p j ≡ false)
    → Dead p 0 (size p)
none_healthy-Dead p h dead t from below = dead (slot p t) (mod-lt (p.cursor + t) h)

least_of_all : (p : ProxyPool) → 0 < size p → IsLeast p (size p) (least p (size p - 1) 1 0)
least_of_all p h =
    subst (λ k. IsLeast p k (least p (size p - 1) 1 0)) (omega arith)
      (least-IsLeast p (size p - 1) 1 0 first)
  where
    first : IsLeast p 1 0
    first = (
      omega arith,
      below_suc (λ j. failures_at p 0 ≤ failures_at p j) 0 (λ j k. absurd (omega arith))
          (omega arith),
      λ j k. absurd (omega arith),
    )

-- If the pool is not empty and no entry is healthy, `acquire` hands out the first of the entries
-- with the fewest failures. The cursor moves behind it, and nothing else of the pool changes.
pub acquire-IsLeast :
    (p : ProxyPool)
    → 0 < size p
    → ((j : ℕ) → j < size p → is_healthy p j ≡ false)
    → (m : ℕ) × IsLeast p (size p) m × HandsOut p m
acquire-IsLeast p h dead = elim (scan-Scanned p (size p) 0) [
  | inl (s, from, below, good, rest, e) ↦
      absurd (cc (good, dead (slot p s) (mod-lt (p.cursor + s) h)))
  | inr (_, e) ↦ (
    least p (size p - 1) 1 0,
    least_of_all p h,
    acquire-choose p h
        ∙ ap (λ (k : ℕ). (record p { cursor = (k + 1) % size p }, lease p k)) (choose_fallback p e),
  )
]

choose-lt : (p : ProxyPool) → 0 < size p → choose p < size p
choose-lt p h = elim (scan-Scanned p (size p) 0) [
  | inl (s, from, below, good, dead, e) ↦
      omega (arith, choose_found p (slot p s) e, mod-lt (p.cursor + s) h)
  | inr (_, e) ↦ rw (choose_fallback p e) (least_of_all p h).0
]

nil_of_size : (es : List Entry) → length es ≡ 0 → es ≡ []
nil_of_size [] h = refl
nil_of_size (e ∷ es) h = absurd (omega arith)

acquire_empty : (p : ProxyPool) → size p ≡ 0 → acquire p ≡ (p, none)
unfolding acquire
acquire_empty p h = ground arith

-- What a lease points at.
abbrev pub Leases : ProxyPool → Option Lease → Type 0
Leases p none = ⊥
Leases p (some l) =
    (l.index < size p)
    × ((e : Entry) × (get_elem? p.entries l.index ≡ some e) × (l.proxy ≡ e.proxy))

lease-Leases : (p : ProxyPool) (i : ℕ) → i < size p → Leases p (lease p i)
unfolding lease
lease-Leases p i h =
    let (e, at) = get_elem?-in_range p.entries i h in rw (at, lease_of) (h, (e, at, refl))

-- On an empty pool `acquire` hands out nothing and changes nothing. On any other it hands out the
-- proxy of an entry in range, keeps the entries and the policy, and leaves the cursor in range.
pub acquire_total :
    (p : ProxyPool)
    → ((p.entries ≡ []) × (acquire p ≡ (p, none)))
      ⊎ (Leases p (acquire p).1
          × ((acquire p).0.entries ≡ p.entries)
          × ((acquire p).0.policy ≡ p.policy)
          × ((acquire p).0.cursor < size p))
acquire_total p = elim (dec_lt 0 (size p)) [
  | yes some_entry ↦ rw (acquire-choose p some_entry) (
      inr (
        lease-Leases p (choose p) (choose-lt p some_entry),
        refl,
        refl,
        mod-lt (choose p + 1) some_entry,
      ))
  | no no_entry ↦ inl (nil_of_size p.entries (omega arith), acquire_empty p (omega arith))
]
