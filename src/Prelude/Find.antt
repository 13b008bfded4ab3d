-- ===== src/Prelude/Find.antt =====
-- Lists searched by an optional key, as `find(|x| x.key == Some(id))` does.
use Prim.Native.Nat.{ℕ}
use mathlib.Core.Path.{◌≡◌, refl, sym, ap, ◌∙◌}
use mathlib.Core.Logic.{◌≢◌, ◌↔◌, inl, inr}
use mathlib.Core.Bool.{Bool, true, false, ◌||◌}
use mathlib.Core.List.{List, [], ◌∷◌, ◌++◌}
use mathlib.Core.Option.{Option, none, some}
use native.Mathlib.Omega.{arith}
use steamroids.Prelude.Tests.{◌==◌, if◌then◌else◌, Bool-cases}
use steamroids.Prelude.Lists.{All}

unfoldable pub is_key : ℕ → Option ℕ → Bool
is_key id none = false
is_key id (some k) = k == id

is_key-some : (id : ℕ) (k : Option ℕ) → (is_key id k ≡ true) ↔ (k ≡ some id)
unfolding is_key
is_key-some id none = ((λ h. absurd (cc h)), (λ h. absurd (cc h)))
is_key-some id (some k) =
    ((λ h. ap some (ground (arith, h))), (λ h. let here : k ≡ id = cc in ground (arith, here)))

is_key-other : (id : ℕ) (k : Option ℕ) → (is_key id k ≡ false) ↔ (k ≢ some id)
is_key-other id k = elim (Bool-cases (is_key id k)) [
  | inl here ↦
      ((λ h. absurd (cc (sym here ∙ h))), (λ other. absurd (other ((is_key-some id k).0 here))))
  | inr other ↦ ((λ h e. cc (sym other ∙ (is_key-some id k).1 e)), (λ h. other))
]

module _ {A : Type 0} (key : A → Option ℕ) where
  unfoldable pub find_by : ℕ → List A → Option A
  unfolding is_key
  find_by id [] = none
  find_by id (x ∷ xs) = let later = find_by id xs in if is_key id (key x) then some x else later

  unfoldable pub any_by : ℕ → List A → Bool
  unfolding is_key
  any_by id [] = false
  any_by id (x ∷ xs) = is_key id (key x) || any_by id xs

  -- An element without the key, and the first element with it.
  abbrev pub Lacks : ℕ → A → Type 0
  Lacks id x = key x ≢ some id

  abbrev pub FirstWith : ℕ → List A → A → Type 0
  FirstWith id xs found =
      (before after : List A) × (xs ≡ before ++ (found ∷ after))
      × All (Lacks id) before
      × (key found ≡ some id)

  find_by-FirstWith_at :
      (id : ℕ) (xs : List A) (found : A) → find_by id xs ≡ some found → FirstWith id xs found
  unfolding find_by
  find_by-FirstWith_at id [] found h = absurd (cc h)
  find_by-FirstWith_at id (x ∷ xs) found h = elim (Bool-cases (is_key id (key x))) [
    | inl here ↦
        let same : x ≡ found = cc (rw (here, find_by) at h) in
        (
          [],
          xs,
          ap (λ (y : A). y ∷ xs) same,
          tt,
          ap key (sym same) ∙ (is_key-some id (key x)).0 here,
        )
    | inr other ↦
        let (before, after, shape, none_before, k) =
          find_by-FirstWith_at id xs found (rw (other, find_by) at h) in
        (x ∷ before, after, ap (◌∷◌ x) shape, ((is_key-other id (key x)).0 other, none_before), k)
  ]

  FirstWith-find_by :
      (id : ℕ) (before after : List A) (found : A)
      → All (Lacks id) before
      → key found ≡ some id
      → find_by id (before ++ (found ∷ after)) ≡ some found
  unfolding find_by
  FirstWith-find_by id [] after found u k = rw ((is_key-some id (key found)).1 k) refl
  FirstWith-find_by id (x ∷ before) after found (other, rest) k =
      rw ((is_key-other id (key x)).1 other) (FirstWith-find_by id before after found rest k)

  pub find_by-FirstWith :
      (id : ℕ) (xs : List A) (found : A) → (find_by id xs ≡ some found) ↔ FirstWith id xs found
  find_by-FirstWith id xs found = (
    find_by-FirstWith_at id xs found,
    (λ t.
        let (before, after, shape, none_before, k) = t in
        ap (find_by id) shape ∙ FirstWith-find_by id before after found none_before k),
  )

  -- Where some element has the key, there is a first one.
  pub any_by-find_by :
      (id : ℕ) (xs : List A) → any_by id xs ≡ true → (x : A) × (find_by id xs ≡ some x)
  unfolding any_by find_by
  any_by-find_by id [] h = absurd (cc h)
  any_by-find_by id (x ∷ xs) h = elim (Bool-cases (is_key id (key x))) [
    | inl here ↦ (x, rw here refl)
    | inr other ↦ let (y, e) = any_by-find_by id xs (rw other at h) in (y, rw other e)
  ]

  -- A search finds nothing exactly when no element has the key.
  pub find_by-Lacks : (id : ℕ) (xs : List A) → (find_by id xs ≡ none) ↔ All (Lacks id) xs
  unfolding find_by
  find_by-Lacks id [] = ((λ h. tt), (λ h. refl))
  find_by-Lacks id (x ∷ xs) = elim (Bool-cases (is_key id (key x))) [
    | inl here ↦ (
      (λ h. absurd (cc (rw (here, find_by) at h))),
      (λ h. absurd (h.0 ((is_key-some id (key x)).0 here))),
    )
    | inr other ↦ (
      (λ h.
          ((is_key-other id (key x)).0 other, (find_by-Lacks id xs).0 (rw (other, find_by) at h))),
      (λ h. rw (other, find_by) ((find_by-Lacks id xs).1 h.1)),
    )
  ]

  pub any_by-Lacks : (id : ℕ) (xs : List A) → (any_by id xs ≡ false) ↔ All (Lacks id) xs
  unfolding any_by
  any_by-Lacks id [] = ((λ h. tt), (λ h. refl))
  any_by-Lacks id (x ∷ xs) = elim (Bool-cases (is_key id (key x))) [
    | inl here ↦
        ((λ h. absurd (cc (rw here at h))), (λ h. absurd (h.0 ((is_key-some id (key x)).0 here))))
    | inr other ↦ (
      (λ h. ((is_key-other id (key x)).0 other, (any_by-Lacks id xs).0 (rw other at h))),
      (λ h. rw other ((any_by-Lacks id xs).1 h.1)),
    )
  ]
