-- ===== src/Session/Driver/Routing.antt =====
-- The snapshot cache against what subscribers see, and the classification of a logoff.
pub mod Snapshot
use mathlib.Core.Option.{get_or, some-injective}
use steamroids.Prelude.{
  ℕ, ◌≡◌, refl, sym, ap, ◌∙◌, subst, Bool, true, false, ◌||◌, List, [], ◌∷◌, ◌++◌, Option, some,
  none, Bool-cases, inl, inr, ◌⊎◌, ◌↔◌, ◌==◌, if◌then◌else◌, Option-cases, arith,
}
use steamroids.Prelude.Int.{ℤ, pos, negsuc}
use steamroids.Error.{Result, ok, err}
use steamroids.Error.Eresult
use steamroids.Wire.{Bytes, Proto, LoggedOffMsg}
use steamroids.Codec.{SteamMessage}
use steamroids.Session.Driver.{
  Out, Routes, Table, Snapshots, reply, dropped, ack, logoff_ack, broadcast, publish, frame, probe,
  dispatch, cached, cache, is_snapshot, post_login_snapshot_emsgs, LoopExit, disconnected,
  classify_code, classify_decoded, classify_logoff,
}
use steamroids.Session.Driver.Accounts.{dispatch-cases}

abbrev pub or_else {ℓ} : {A : Type ℓ} → Option A → Option A → Option A
or_else (some a) later = some a
or_else none later = later

pub or_else_assoc {ℓ} :
    {A : Type ℓ} (a b c : Option A) → or_else (or_else a b) c ≡ or_else a (or_else b c)
or_else_assoc (some x) b c = refl
or_else_assoc none b c = refl

pub or_else-none {ℓ} : {A : Type ℓ} (a : Option A) → or_else a none ≡ a
or_else-none (some x) = refl
or_else-none none = refl

-- The body of the first broadcast of message type `e`.
unfoldable pub first_broadcast : ℕ → List Out → Option Bytes
first_broadcast e [] = none
first_broadcast e (broadcast m ∷ outs) = if m.emsg == e then some m.body else first_broadcast e outs
first_broadcast e (o ∷ outs) = first_broadcast e outs

pub first_broadcast-append :
    (e : ℕ) (xs ys : List Out)
    → first_broadcast e (xs ++ ys) ≡ or_else (first_broadcast e xs) (first_broadcast e ys)
unfolding first_broadcast
first_broadcast-append e [] ys = refl
first_broadcast-append e (broadcast m ∷ xs) ys = ground (arith, first_broadcast-append e xs ys)
first_broadcast-append e (publish s ∷ xs) ys = first_broadcast-append e xs ys
first_broadcast-append e (reply d r ∷ xs) ys = first_broadcast-append e xs ys
first_broadcast-append e (dropped d ∷ xs) ys = first_broadcast-append e xs ys
first_broadcast-append e (ack d r ∷ xs) ys = first_broadcast-append e xs ys
first_broadcast-append e (logoff_ack d ∷ xs) ys = first_broadcast-append e xs ys
first_broadcast-append e (frame f j b ∷ xs) ys = first_broadcast-append e xs ys
first_broadcast-append e (probe ∷ xs) ys = first_broadcast-append e xs ys

-- The message types that are cached.
abbrev pub IsSnapshot : ℕ → Type 0
IsSnapshot e = is_snapshot e post_login_snapshot_emsgs ≡ true

cached-cons :
    (e k : ℕ) (b : Bytes) (s : Snapshots)
    → cached e ((k, b) ∷ s) ≡ (if k == e then some b else cached e s)
unfolding cached
cached-cons e k b s = refl

cache_other :
    (m : SteamMessage) (s : Snapshots)
    → is_snapshot m.emsg post_login_snapshot_emsgs ≡ false
    → cache m s ≡ s
unfolding cache
cache_other m s h = rw h

cache_again :
    (m : SteamMessage) (s : Snapshots) (b : Bytes) → cached m.emsg s ≡ some b → cache m s ≡ s
unfolding cache
cache_again m s b h = ground arith

cache_first :
    (m : SteamMessage) (s : Snapshots)
    → IsSnapshot m.emsg
    → cached m.emsg s ≡ none
    → cache m s ≡ (m.emsg, m.body) ∷ s
unfolding cache
cache_first m s h k = ground arith

cached-cache :
    (e : ℕ) (m : SteamMessage) (s : Snapshots)
    → IsSnapshot e
    → cached e (cache m s) ≡ or_else (cached e s) (if m.emsg == e then some m.body else none)
cached-cache e m s h = elim (Bool-cases (is_snapshot m.emsg post_login_snapshot_emsgs)) [
  | inl snap ↦ elim (Option-cases (cached m.emsg s)) [
    | inl fresh ↦ rw (cache_first m s snap fresh) (cached-cons e m.emsg m.body s ∙ first_case fresh)
    | inr (b, old) ↦ rw (cache_again m s b old) (old_case b old)
  ]
  | inr other ↦ rw (cache_other m s other) (other_case other)
]
  where
    first_case :
        cached m.emsg s ≡ none
        → (if m.emsg == e then some m.body else cached e s)
          ≡ or_else (cached e s) (if m.emsg == e then some m.body else none)
    first_case fresh = ground (arith, or_else-none (cached e s))

    old_case :
        (b : Bytes)
        → cached m.emsg s ≡ some b
        → cached e s ≡ or_else (cached e s) (if m.emsg == e then some m.body else none)
    old_case b old = ground (arith, or_else-none (cached e s))

    other_case :
        is_snapshot m.emsg post_login_snapshot_emsgs ≡ false
        → cached e s ≡ or_else (cached e s) (if m.emsg == e then some m.body else none)
    other_case other = ground (arith, or_else-none (cached e s))

pub cached-dispatch :
    (e : ℕ) (r : Routes) (m : SteamMessage)
    → IsSnapshot e
    → cached e (dispatch r m).0.snapshots
      ≡ or_else (cached e r.snapshots) (first_broadcast e (dispatch r m).1)
unfolding first_broadcast
cached-dispatch e r m h = elim (dispatch-cases r m) [
  | inl (j, p, job, waits, out) ↦ rw out (sym (or_else-none (cached e r.snapshots)))
  | inr (_, out) ↦ rw out (cached-cache e m r.snapshots h)
]

-- Whether a code is one of the three that Steam uses to move a session elsewhere.
abbrev pub IsTransient : ℤ → Type 0
IsTransient code =
    (code ≡ pos Eresult.no_connection)
    ⊎ ((code ≡ pos Eresult.service_unavailable) ⊎ (code ≡ pos Eresult.try_another_cm))

classify_code-disconnected : (code : ℤ) → (classify_code code ≡ disconnected) ↔ IsTransient code
unfolding classify_code
classify_code-disconnected (pos n) = (ground arith, ground arith)
classify_code-disconnected (negsuc n) = (ground arith, ground arith)

fail_not-IsTransient : ¬ IsTransient (pos Eresult.fail)
fail_not-IsTransient (inl e) = ground (arith, e)
fail_not-IsTransient (inr (inl e)) = ground (arith, e)
fail_not-IsTransient (inr (inr e)) = ground (arith, e)

code-disconnected :
    (e : Option ℤ)
    → (classify_code (get_or e (pos Eresult.fail)) ≡ disconnected)
      ↔ ((code : ℤ) × (e ≡ some code) × IsTransient code)
code-disconnected none = (
  λ h. absurd (fail_not-IsTransient ((classify_code-disconnected (pos Eresult.fail)).0 h)),
  λ t. absurd (cc (t.1)),
)
code-disconnected (some code) = (
  (λ h. (code, refl, (classify_code-disconnected code).0 h)),
  (λ t.
      (classify_code-disconnected code).1
        (subst IsTransient (some-injective t.0 code (sym t.1)) t.2)),
)

decoded-disconnected :
    (o : Option LoggedOffMsg)
    → (classify_decoded o ≡ disconnected)
      ↔ ((code : ℤ) × (o ≡ some (record { eresult = some code })) × IsTransient code)
unfolding classify_decoded
decoded-disconnected none = (λ h. absurd (cc h), λ t. absurd (cc (t.1)))
decoded-disconnected (some d) = (
  (λ h.
      let (code, e, t) = (code-disconnected d.eresult).0 h in
      (code, ap (λ (x : Option ℤ). some (record { eresult = x })) e, t)),
  (λ t. (code-disconnected d.eresult).1 (
    t.0,
    ap (λ (x : LoggedOffMsg). x.eresult) (some-injective d (record { eresult = some t.0 }) t.1),
    t.2,
  )),
)

-- A logoff makes the driver reconnect exactly when its body decodes and carries one of the three
-- transient codes. A body without a code and an undecodable one are terminal.
pub classify_logoff-disconnected :
    (p : Proto LoggedOffMsg) (m : SteamMessage)
    → (classify_logoff p m ≡ disconnected)
      ↔ ((code : ℤ) × (p.decode m.body ≡ some (record { eresult = some code })) × IsTransient code)
unfolding classify_logoff classify_code
classify_logoff-disconnected p m = decoded-disconnected (p.decode m.body)
