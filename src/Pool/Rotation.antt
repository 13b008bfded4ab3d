-- ===== src/Pool/Rotation.antt =====
-- `acquire` while a proxy is healthy: round robin from the cursor.
use steamroids.Prelude.{
  ℕ, zero, suc, ◌+◌, ◌-◌, ◌%◌, ◌≤◌, ◌<◌, ◌≡◌, refl, ap, ◌∙◌, ◌⊎◌, inl, inr, true, false, Option,
  some, none, length, Bool-cases, arith,
}
use native.Mathlib.Decide.{dec_lt}
use steamroids.Pool.{ProxyPool, is_healthy, lease, scan, choose, acquire}

abbrev pub size : ProxyPool → ℕ
size p = length p.entries

-- The entry that is `s` steps behind the cursor.
abbrev pub slot : ProxyPool → ℕ → ℕ
slot p s = (p.cursor + s) % size p

-- No entry from step `lo` up to step `hi` is healthy.
abbrev pub Dead : ProxyPool → ℕ → ℕ → Type 0
Dead p lo hi = (t : ℕ) → lo ≤ t → t < hi → is_healthy p (slot p t) ≡ false

abbrev pub Scanned : ProxyPool → ℕ → ℕ → Option ℕ → Type 0
Scanned p lo hi r =
    ((s : ℕ) × (lo ≤ s)
      × (s < hi)
      × (is_healthy p (slot p s) ≡ true)
      × Dead p lo s
      × (r ≡ some (slot p s)))
    ⊎ (Dead p lo hi × (r ≡ none))

Dead-cons :
    (p : ProxyPool) (lo hi : ℕ)
    → is_healthy p (slot p lo) ≡ false
    → Dead p (suc lo) hi
    → Dead p lo hi
Dead-cons p lo hi first later t from below = elim (dec_lt lo t) [
  | yes past ↦ later t past below
  | no here ↦ let at : t ≡ lo = omega arith in rw at first
]

pub scan-Scanned : (p : ProxyPool) (left step : ℕ) → Scanned p step (step + left) (scan p left step)
unfolding scan
scan-Scanned p zero step = inr (λ t from below. absurd (omega arith), refl)
scan-Scanned p (suc left) step = elim (Bool-cases (is_healthy p (slot p step))) [
  | inl good ↦
      inl (step, omega arith, omega arith, good, (λ t from below. absurd (omega arith)), rw good)
  | inr bad ↦ elim (scan-Scanned p left (suc step)) [
    | inl (s, from, below, good, dead, e) ↦
        inl (s, omega arith, omega arith, good, Dead-cons p step s bad dead, rw bad e)
    | inr (dead, e) ↦ inr (
      Dead-cons p step (step + suc left) bad (λ t from below. dead t from (omega arith)),
      rw bad e,
    )
  ]
]

-- From the cursor every entry is reached within one turn.
pub turn : (n c i : ℕ) → c < n → i < n → (s : ℕ) × (s < n) × ((c + s) % n ≡ i)
turn n c i hc hi = elim (dec_lt i c) [
  | yes behind ↦ (i + n - c, omega arith, grind arith)
  | no ahead ↦ (i - c, omega arith, grind arith)
]

pub choose_found : (p : ProxyPool) (i : ℕ) → scan p (size p) 0 ≡ some i → choose p ≡ i
unfolding choose
choose_found p i e = rw (e, choose)

pub acquire-choose :
    (p : ProxyPool)
    → 0 < size p
    → acquire p ≡ (record p { cursor = (choose p + 1) % size p }, lease p (choose p))
unfolding acquire
acquire-choose p h = ground arith

-- What `acquire` does when it hands out entry `i`: its lease, and the cursor behind it.
abbrev pub HandsOut : ProxyPool → ℕ → Type 0
HandsOut p i = acquire p ≡ (record p { cursor = (i + 1) % size p }, lease p i)

-- If some entry is healthy and the cursor is in range, `acquire` hands out the first healthy entry
-- in the rotation from the cursor: it is healthy, and every entry on the way to it is not. The
-- cursor moves behind it, and nothing else of the pool changes.
pub acquire-first_healthy :
    (p : ProxyPool) (i : ℕ)
    → p.cursor < size p
    → i < size p
    → is_healthy p i ≡ true
    → (s : ℕ) × (s < size p) × (is_healthy p (slot p s) ≡ true) × Dead p 0 s × HandsOut p (slot p s)
acquire-first_healthy p i hc hi good = elim (scan-Scanned p (size p) 0) [
  | inl (s, from, below, found, dead, e) ↦ (
    s,
    omega arith,
    found,
    dead,
    acquire-choose p (omega arith)
        ∙ ap (λ (k : ℕ). (record p { cursor = (k + 1) % size p }, lease p k))
            (choose_found p (slot p s) e),
  )
  | inr (dead, e) ↦
      let (s, below, at) = turn (size p) p.cursor i hc hi in
      absurd (cc (dead s (omega arith) (omega arith), ap (is_healthy p) at))
]
