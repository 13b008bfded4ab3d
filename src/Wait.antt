-- ===== src/Wait.antt =====
-- The wait that src/friends.rs, src/persona.rs and src/gc/coordinator.rs share in shape: a loop over
-- a broadcast subscription, bounded by a timeout.
--
-- What the subscription yields is a list; where it ends, the wait goes on until the deadline.
use steamroids.Prelude.{
  String, ◌∙◌, ◌≡◌, ◌↔◌, refl, ap, inl, inr, List, [], ◌∷◌, ◌++◌, Option, some, none, All,
  Option-cases,
}
use steamroids.Error.{Text, Result, ok, err, web_socket, timeout}

-- What a subscription yields: a message, a gap, or its end.
pub data Delivery (M : Type 0) : Type 0 where
  event : M → Delivery M
  gap : Delivery M
  closed : Delivery M

-- What is left of a wait at its deadline.
unfoldable pub within : {A : Type 0} → String → Option (Result A) → Result A
within what none = err (timeout what)
within what (some r) = r

-- Every message is offered to `take`, which ends the wait or passes it over; `why` is the error when
-- the subscription ends.
unfoldable pub await_event :
    {M A : Type 0} → Text → (M → Option (Result A)) → List (Delivery M) → Option (Result A)
await_event why take [] = none
await_event why take (event m ∷ rest) =
    let later = await_event why take rest in elim (take m) [ some r ↦ some r | none ↦ later ]
await_event why take (gap ∷ rest) = await_event why take rest
await_event why take (closed ∷ rest) = some (err (web_socket why))

-- A gap, or a message of which `P` holds.
abbrev pub Skips : {M : Type 0} → (M → Type 0) → Delivery M → Type 0
Skips P (event m) = P m
Skips P gap = Unit {0}
Skips P closed = ⊥

pub All-Skips :
    {M : Type 0} (P Q : M → Type 0) (ds : List (Delivery M))
    → ((m : M) → P m → Q m)
    → All (Skips P) ds
    → All (Skips Q) ds
All-Skips P Q [] f h = tt
All-Skips P Q (event m ∷ ds) f (here, h) = (f m here, All-Skips P Q ds f h)
All-Skips P Q (gap ∷ ds) f (here, h) = (tt, All-Skips P Q ds f h)
All-Skips P Q (closed ∷ ds) f (never, h) = absurd never

module _ {M A : Type 0} (take : M → Option (Result A)) where
  -- A delivery that the wait passes over.
  abbrev pub Passed : Delivery M → Type 0
  Passed (event m) = take m ≡ none
  Passed gap = Unit {0}
  Passed closed = ⊥

  -- The first message that the wait does not pass over ends it with `r`.
  abbrev pub FirstTaken : List (Delivery M) → Result A → Type 0
  FirstTaken deliveries r =
      (before : List (Delivery M)) × (m : M) × (after : List (Delivery M)) × (deliveries
        ≡ before ++ (event m ∷ after))
      × All Passed before
      × (take m ≡ some r)

module _ {M A : Type 0} (why : Text) (take : M → Option (Result A)) where
  await_event-FirstTaken_at :
      (deliveries : List (Delivery M)) (found : A)
      → await_event why take deliveries ≡ some (ok found)
      → FirstTaken take deliveries (ok found)
  unfolding await_event
  await_event-FirstTaken_at [] found h = absurd (cc h)
  await_event-FirstTaken_at (closed ∷ rest) found h = absurd (cc h)
  await_event-FirstTaken_at (gap ∷ rest) found h =
      let (before, m, after, shape, passed, hit) = await_event-FirstTaken_at rest found h in
      (gap ∷ before, m, after, ap (◌∷◌ gap) shape, (tt, passed), hit)
  await_event-FirstTaken_at (event m ∷ rest) found h = elim (Option-cases (take m)) [
    | inl pass ↦
        let (before, m', after, shape, passed, hit) =
          await_event-FirstTaken_at rest found (rw (pass, await_event) at h) in
        (event m ∷ before, m', after, ap (◌∷◌ (event m)) shape, (pass, passed), hit)
    | inr (r, hit) ↦ ([], m, rest, refl, tt, hit ∙ (rw (hit, await_event) at h))
  ]

  FirstTaken-await_event :
      (before : List (Delivery M)) (m : M) (after : List (Delivery M)) (r : Result A)
      → All (Passed take) before
      → take m ≡ some r
      → await_event why take (before ++ (event m ∷ after)) ≡ some r
  unfolding await_event
  FirstTaken-await_event [] m after r passed hit = rw (hit, await_event) refl
  FirstTaken-await_event (gap ∷ before) m after r (u, passed) hit =
      FirstTaken-await_event before m after r passed hit
  FirstTaken-await_event (event e ∷ before) m after r (pass, passed) hit =
      rw (pass, await_event) (FirstTaken-await_event before m after r passed hit)
  FirstTaken-await_event (closed ∷ before) m after r (never, passed) hit = absurd never

  -- A wait within its deadline returns `found` exactly when the first message that it does not pass
  -- over gives `found`.
  pub within-FirstTaken :
      (what : String) (deliveries : List (Delivery M)) (found : A)
      → (within what (await_event why take deliveries) ≡ ok found)
        ↔ FirstTaken take deliveries (ok found)
  unfolding within
  within-FirstTaken what deliveries found = (
    (λ h. elim (Option-cases (await_event why take deliveries)) [
      | inl waits ↦ absurd (cc (rw (waits, within) at h))
      | inr (r, done) ↦
          await_event-FirstTaken_at deliveries found (done ∙ ap some (rw (done, within) at h))
    ]),
    (λ first.
        let (before, m, after, shape, passed, hit) = first in
        rw (shape, FirstTaken-await_event before m after (ok found) passed hit, within) refl),
  )
