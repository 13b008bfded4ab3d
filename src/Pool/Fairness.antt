-- ===== src/Pool/Fairness.antt =====
-- Nobody starves: every healthy proxy is handed out within one turn.
use steamroids.Prelude.{ℕ, zero, suc, ◌+◌, ◌-◌, ◌%◌, ◌≤◌, ◌<◌, ◌≡◌, refl, ap, ◌∙◌, true, arith}
use native.Mathlib.Nat.{mod-lt, mod-add-mod, add_assoc}
use native.Mathlib.Decide.{dec_lt}
use steamroids.Pool.{ProxyPool, failures_at, is_healthy, lease, acquire}
use steamroids.Pool.Rotation.{size, slot, Dead, turn, acquire-first_healthy}

-- The pool after `k` calls of `acquire` with no report in between.
unfoldable pub rounds : ℕ → ProxyPool → ProxyPool
rounds zero p = p
rounds (suc k) p = rounds k (acquire p).0

behind :
    (n c s d : ℕ) → c < n → s < d → d < n → (((c + s) % n + 1) % n + (d - suc s)) % n ≡ (c + d) % n
behind n c s d hc hs hd =
    mod-add-mod ((c + s) % n + 1) n (d - suc s)
    ∙ ap (λ (t : ℕ). t % n) (add_assoc ((c + s) % n) 1 (d - suc s))
    ∙ mod-add-mod (c + s) n (1 + (d - suc s))
    ∙ ap (λ (t : ℕ). t % n) (omega arith)

-- The pool after handing out entry `j`.
abbrev moved : ProxyPool → ℕ → ProxyPool
moved p j = record p { cursor = (j + 1) % size p }

is_healthy-moved : (p : ProxyPool) (j i : ℕ) → is_healthy (moved p j) i ≡ is_healthy p i
unfolding is_healthy failures_at
is_healthy-moved p j i = refl

lease-moved : (p : ProxyPool) (j i : ℕ) → lease (moved p j) i ≡ lease p i
unfolding lease
lease-moved p j i = refl

-- A healthy slot is not among those that the scan has passed.
stops_there :
    (p : ProxyPool) (d s : ℕ) → is_healthy p (slot p d) ≡ true → Dead p 0 s → d ≤ s → s ≡ d
stops_there p d s good dead h = elim (dec_lt d s) [
  | yes passed ↦ absurd (cc (good, dead d (omega arith) passed))
  | no not_passed ↦ omega arith
]

reaches :
    (bound d : ℕ) (p : ProxyPool)
    → d < bound
    → d < size p
    → p.cursor < size p
    → is_healthy p (slot p d) ≡ true
    → (k : ℕ) × (k ≤ d) × ((acquire (rounds k p)).1 ≡ lease p (slot p d))
unfolding rounds
reaches zero d p hb hd hc good = absurd (omega arith)
reaches (suc bound) d p hb hd hc good =
    let (s, below, found, dead, out) =
      acquire-first_healthy p (slot p d) hc (mod-lt (p.cursor + d) (omega arith)) good in
    elim (dec_lt s d) [
      | yes earlier ↦
          let same = behind (size p) p.cursor s d hc earlier hd in
          let q = moved p (slot p s) in
          let (k, bound_k, at) =
            reaches bound (d - suc s) q (omega arith) (omega arith)
              (mod-lt (slot p s + 1) (omega arith))
              (is_healthy-moved p (slot p s) (slot q (d - suc s))
                ∙ ap (is_healthy p) same
                ∙ good) in
          (
            suc k,
            omega arith,
            rw out (at ∙ lease-moved p (slot p s) (slot q (d - suc s)) ∙ ap (lease p) same),
          )
      | no later ↦ (
        0,
        omega arith,
        rw out (ap (λ (t : ℕ). lease p (slot p t)) (stops_there p d s good dead (omega arith))),
      )
    ]

-- If the cursor is in range, every healthy entry `i` is handed out within as many calls of
-- `acquire` as there are entries, when no outcome is reported in between.
pub acquire-reaches :
    (p : ProxyPool) (i : ℕ)
    → p.cursor < size p
    → i < size p
    → is_healthy p i ≡ true
    → (k : ℕ) × (k < size p) × ((acquire (rounds k p)).1 ≡ lease p i)
acquire-reaches p i hc hi good =
    let (d, below, at) = turn (size p) p.cursor i hc hi in
    let (k, bound, out) =
      reaches (suc d) d p (omega arith) below hc (ap (is_healthy p) at ∙ good) in
    (k, omega arith, out ∙ ap (lease p) at)
