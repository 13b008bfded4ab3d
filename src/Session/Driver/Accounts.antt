-- ===== src/Session/Driver/Accounts.antt =====
-- Counting the callers that wait for a reply and those that got one.
use steamroids.Prelude.{
  ℕ, ◌+◌, ◌≡◌, refl, sym, subst, ◌∙◌, inl, inr, Bool, List, [], ◌∷◌, ◌++◌, some, none, ◌==◌,
  if◌then◌else◌, Option-cases, ◌⊎◌, arith,
}
use mathlib.Core.Option.{some-injective}
use steamroids.Error.{Text, ok}
use steamroids.Codec.{SteamMessage}
use steamroids.Session.Driver.{
  Pending, Table, Out, Routes, reply, dropped, ack, logoff_ack, broadcast, publish, frame, probe,
  insert, displaced, find, remove, fail_all_pending, swept, sweep_outs, dispatch, waiter, target_of,
  cache,
}

-- 1 if the two callers are the same.
abbrev pub one_if : ℕ → ℕ → ℕ
one_if a b = if a == b then 1 else 0

-- How many entries of the table hold caller `c`.
unfoldable pub held : ℕ → Table → ℕ
held c [] = 0
held c ((k, x) ∷ t) = one_if x.reply c + held c t

-- How often the outputs settle caller `c`, by a result or by dropping its sender.
unfoldable pub settled : ℕ → List Out → ℕ
settled c [] = 0
settled c (reply d r ∷ outs) = one_if d c + settled c outs
settled c (dropped d ∷ outs) = one_if d c + settled c outs
settled c (o ∷ outs) = settled c outs

pub settled-append : (c : ℕ) (xs ys : List Out) → settled c (xs ++ ys) ≡ settled c xs + settled c ys
unfolding settled
settled-append c [] ys = omega arith
settled-append c (reply d r ∷ xs) ys = omega (arith, settled-append c xs ys)
settled-append c (dropped d ∷ xs) ys = omega (arith, settled-append c xs ys)
settled-append c (ack d r ∷ xs) ys = settled-append c xs ys
settled-append c (logoff_ack d ∷ xs) ys = settled-append c xs ys
settled-append c (broadcast m ∷ xs) ys = settled-append c xs ys
settled-append c (publish s ∷ xs) ys = settled-append c xs ys
settled-append c (frame e j b ∷ xs) ys = settled-append c xs ys
settled-append c (probe ∷ xs) ys = settled-append c xs ys

pub held-insert :
    (c j : ℕ) (e : Pending) (t : Table)
    → settled c (displaced j t) + held c (insert j e t) ≡ one_if e.reply c + held c t
unfolding settled displaced held insert
held-insert c j e [] = omega arith
held-insert c j e ((k, x) ∷ t) = ground (arith, held-insert c j e t)

pub held-remove :
    (c j : ℕ) (e : Pending) (t : Table)
    → find j t ≡ some e
    → held c t ≡ one_if e.reply c + held c (remove j t)
unfolding held find remove
held-remove c j e [] h = cc
held-remove c j e ((k, x) ∷ t) h = ground (arith, held-remove c j e t)

pub settled-fail_all_pending :
    (c : ℕ) (t : Table) (why : Text) → settled c (fail_all_pending t why) ≡ held c t
unfolding settled fail_all_pending held
settled-fail_all_pending c [] why = refl
settled-fail_all_pending c ((k, x) ∷ t) why = omega (arith, settled-fail_all_pending c t why)

pub held-swept :
    (c now : ℕ) (closed : ℕ → Bool) (t : Table)
    → settled c (sweep_outs now closed t) + held c (swept now closed t) ≡ held c t
unfolding settled sweep_outs held swept
held-swept c now closed [] = refl
held-swept c now closed ((k, x) ∷ t) = ground (arith, held-swept c now closed t)

-- The two ways of `dispatch`: to the caller that waits for the job, or to everybody.
abbrev pub Delivered : Routes → SteamMessage → Type 0
Delivered r m =
    (j : ℕ) × (e : Pending) × (target_of m.header.jobid_target ≡ some j)
    × (find j r.pending ≡ some e)
    × (dispatch r m ≡ (record r { pending = remove j r.pending }, reply e.reply (ok m) ∷ []))

abbrev pub Unclaimed : Routes → SteamMessage → Type 0
Unclaimed r m =
    ((j : ℕ) → target_of m.header.jobid_target ≡ some j → find j r.pending ≡ none)
    × (dispatch r m ≡ (record r { snapshots = cache m r.snapshots }, broadcast m ∷ []))

pub dispatch-cases : (r : Routes) (m : SteamMessage) → Delivered r m ⊎ Unclaimed r m
unfolding dispatch
dispatch-cases r m = elim (Option-cases (target_of m.header.jobid_target)) [
  | inl no_job ↦ inr (λ j e. cc, rw (no_job, dispatch, waiter))
  | inr (j, job) ↦ elim (Option-cases (find j r.pending)) [
    | inl no_waiter ↦ inr (
      λ k e. subst (λ i. find i r.pending ≡ none) (some-injective j k (sym job ∙ e)) no_waiter,
      rw (job, no_waiter, dispatch, waiter),
    )
    | inr (e, waits) ↦ inl (j, e, job, waits, rw (job, waits, dispatch, waiter))
  ]
]

pub held-dispatch :
    (c : ℕ) (r : Routes) (m : SteamMessage)
    → settled c (dispatch r m).1 + held c (dispatch r m).0.pending ≡ held c r.pending
unfolding settled
held-dispatch c r m = elim (dispatch-cases r m) [
  | inl (j, e, job, waits, out) ↦ rw out (omega (arith, held-remove c j e r.pending waits))
  | inr (_, out) ↦ rw out (omega arith)
]
