-- ===== src/Session/Driver/Backoff.antt =====
-- How long the driver waits between its attempts, and when it gives up.
use steamroids.Prelude.{
  ℕ, zero, suc, ◌+◌, ◌^◌, ◌≡◌, refl, ap, ◌∙◌, min, false, List, [], ◌∷◌, some, Bool-cases, inl, inr,
  ◌⊎◌, get_elem?, arith,
}
use native.Mathlib.Nat.{two-pow-succ}
use steamroids.Error.{Error, Result, ok, err}
use steamroids.Session.Driver.Reconnect.{
  Connection, Attempt, Reconnection, answer_all, after_connect, after_failure, is_fatal, grow,
  max_backoff, initial_backoff, reconnect_from, reconnect,
}

-- Each wait is twice the one before, up to the cap.
doubling : ℕ → ℕ → ℕ
doubling zero backoff = backoff
doubling (suc k) backoff = doubling k (grow backoff)

doubling-pow : (k j : ℕ) → doubling k (min (2 ^ j) max_backoff) ≡ min (2 ^ (j + k)) max_backoff
unfolding doubling
doubling-pow zero j = ap (λ (n : ℕ). min (2 ^ n) max_backoff) (omega arith)
doubling-pow (suc k) j =
    ap (doubling k) (omega (arith, two-pow-succ j))
    ∙ doubling-pow k (suc j)
    ∙ ap (λ (n : ℕ). min (2 ^ n) max_backoff) (omega arith)

-- The waits that follow the outcome of an attempt are none, or those of the next attempts.
waits-after_connect :
    (o : Result Connection) (next : Reconnection)
    → ((after_connect o next).waits ≡ []) ⊎ ((after_connect o next).waits ≡ next.waits)
unfolding after_connect after_failure
waits-after_connect (ok c) next = inl refl
waits-after_connect (err e) next = elim (Bool-cases (is_fatal e)) [
  | inl fatal ↦ rw fatal (inl refl)
  | inr retry ↦ rw retry (inr refl)
]

first : (backoff w : ℕ) (tail : List ℕ) → get_elem? (backoff ∷ tail) 0 ≡ some w → w ≡ backoff
first backoff w tail h = cc

past_end : (k w : ℕ) → ¬ (get_elem? {A = ℕ} [] k ≡ some w)
past_end k w h = cc

-- The first wait of a round, and what follows it.
abbrev Waits : ℕ → List ℕ → List ℕ → Type 0
Waits backoff later ws = (tail : List ℕ) × (ws ≡ backoff ∷ tail) × ((tail ≡ []) ⊎ (tail ≡ later))

reconnect_from-Waits :
    (backoff : ℕ) (a : Attempt) (attempts : List Attempt)
    → Waits backoff
        (reconnect_from (grow backoff) attempts).waits
        (reconnect_from backoff (a ∷ attempts)).waits
unfolding reconnect_from
reconnect_from-Waits backoff a attempts =
    let next = reconnect_from (grow backoff) attempts in
    elim (Bool-cases (answer_all a.sleeping).0) [
      | inl stop ↦ rw stop ([], refl, inl refl)
      | inr going ↦ elim (Bool-cases (answer_all a.connecting).0) [
        | inl stop ↦ rw (going, stop) ([], refl, inl refl)
        | inr on ↦
            rw (going, on)
              ((after_connect a.outcome next).waits, refl, waits-after_connect a.outcome next)
      ]
    ]

waits-doubling :
    (attempts : List Attempt) (backoff k w : ℕ)
    → get_elem? (reconnect_from backoff attempts).waits k ≡ some w
    → w ≡ doubling k backoff
unfolding doubling
waits-doubling [] backoff k w h = unfold reconnect_from in cc
waits-doubling (a ∷ attempts) backoff zero w h =
    let (tail, shape, _) = reconnect_from-Waits backoff a attempts in
    first backoff w tail (rw shape at h)
waits-doubling (a ∷ attempts) backoff (suc k) w h =
    let (tail, shape, follows) = reconnect_from-Waits backoff a attempts in
    let later : get_elem? tail k ≡ some w = rw shape at h in
    elim follows [
      | inl none_left ↦ absurd (past_end k w (rw none_left at later))
      | inr next ↦ unfold doubling in waits-doubling attempts (grow backoff) k w (rw next at later)
    ]

-- The wait before attempt `k`, counted from 0, is 2 ^ k seconds, but never more than 60.
pub reconnect-backoff :
    (attempts : List Attempt) (k w : ℕ)
    → get_elem? (reconnect attempts).waits k ≡ some w
    → w ≡ min (2 ^ k) max_backoff
unfolding reconnect
reconnect-backoff attempts k w h =
    waits-doubling attempts initial_backoff k w h
    ∙ doubling-pow k 0
    ∙ ap (λ (n : ℕ). min (2 ^ n) max_backoff) (omega arith)

-- An attempt that is not interrupted.
abbrev pub Calm : Attempt → Type 0
Calm a = ((answer_all a.sleeping).0 ≡ false) × ((answer_all a.connecting).0 ≡ false)

-- An attempt that fails, but not for a rejected token.
abbrev pub Misses : Attempt → Type 0
Misses a = Calm a × ((e : Error) × (a.outcome ≡ err e) × (is_fatal e ≡ false))
