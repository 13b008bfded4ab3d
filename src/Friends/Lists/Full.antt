-- ===== src/Friends/Lists/Full.antt =====
-- Which full list a request returns.
use steamroids.Prelude.{
  ◌⊎◌, ◌≡◌, ◌≢◌, ◌∙◌, sym, ◌↔◌, refl, ap, inl, inr, true, false, List, [], ◌∷◌, ◌++◌, Option, some,
  none, All, ◌==◌, Bool-cases, Option-cases, arith,
}
use steamroids.Error.{ok, msg}
use steamroids.Wire.{Bytes}
use steamroids.Codec.{SteamMessage}
use steamroids.Wait.{Delivery, event, gap, closed, await_event, within, Passed, within-FirstTaken}
use steamroids.Friends.Lists.{ListKind, read_body, take_list, read_cache, request_list}

module _ {L B : Type 0} (k : ListKind L B) where
  -- A message of another type, or a delta.
  abbrev pub IsDelta : Bytes → Type 0
  IsDelta body = (list : L) × (k.proto.decode body ≡ some list) × (k.is_full list ≡ false)

  abbrev pub IsIrrelevant : Delivery SteamMessage → Type 0
  IsIrrelevant (event m) = (m.emsg ≢ k.emsg) ⊎ IsDelta m.body
  IsIrrelevant gap = Unit {0}
  IsIrrelevant closed = ⊥

  abbrev pub IsFullList : Bytes → B → Type 0
  IsFullList body found =
      (list : L) × (k.proto.decode body ≡ some list)
      × (k.is_full list ≡ true)
      × (k.from_list list ≡ found)

  -- The first full list among the deliveries, with only deltas and other messages before it.
  abbrev pub FirstFull : List (Delivery SteamMessage) → B → Type 0
  FirstFull deliveries found =
      (before : List (Delivery SteamMessage)) × (m : SteamMessage) × (after : List
        (Delivery SteamMessage))
      × (deliveries ≡ before ++ (event m ∷ after))
      × All IsIrrelevant before
      × (m.emsg ≡ k.emsg)
      × IsFullList m.body found

  pub read_body-IsFullList :
      (body : Bytes) (found : B) → (read_body k body ≡ some (ok found)) ↔ IsFullList body found
  unfolding read_body
  read_body-IsFullList body found = elim (Option-cases (k.proto.decode body)) [
    | inl bad ↦ (
      (λ h. absurd (cc (rw (bad, read_body) at h))),
      (λ t. let (list, decodes, full, here) = t in absurd (cc (sym bad ∙ decodes))),
    )
    | inr (list, good) ↦ elim (Bool-cases (k.is_full list)) [
      | inl full ↦ (
        (λ h. (list, good, full, cc (rw (good, full, read_body) at h))),
        (λ t.
            let (list', decodes, full', here) = t in
            rw (decodes, full', read_body) (ap (λ (b : B). some (ok b)) here)),
      )
      | inr delta ↦ (
        (λ h. absurd (cc (rw (good, delta, read_body) at h))),
        (λ t.
            let (list', decodes, full', here) = t in
            rw (decodes, full', read_body) (ap (λ (b : B). some (ok b)) here)),
      )
    ]
  ]

  read_body-IsDelta : (body : Bytes) → (read_body k body ≡ none) ↔ IsDelta body
  unfolding read_body
  read_body-IsDelta body = elim (Option-cases (k.proto.decode body)) [
    | inl bad ↦ (
      (λ h. absurd (cc (rw (bad, read_body) at h))),
      (λ t. let (list, decodes, delta) = t in absurd (cc (sym bad ∙ decodes))),
    )
    | inr (list, good) ↦ elim (Bool-cases (k.is_full list)) [
      | inl full ↦ (
        (λ h. absurd (cc (rw (good, full, read_body) at h))),
        (λ t. let (list', decodes, delta') = t in rw (decodes, delta', read_body) refl),
      )
      | inr delta ↦ ((λ h. (list, good, delta)), (λ t. rw (good, delta, read_body) refl))
    ]
  ]

  same_type : (m : SteamMessage) → (m.emsg == k.emsg) ≡ true → m.emsg ≡ k.emsg
  same_type m h = ground arith

  Passed-IsIrrelevant : (d : Delivery SteamMessage) → Passed (take_list k) d ↔ IsIrrelevant d
  unfolding take_list
  Passed-IsIrrelevant gap = ((λ h. h), (λ h. h))
  Passed-IsIrrelevant closed = ((λ h. h), (λ h. h))
  Passed-IsIrrelevant (event m) = elim (Bool-cases (m.emsg == k.emsg)) [
    | inl same ↦ (
      (λ h. inr ((read_body-IsDelta m.body).0 (rw (same, take_list) at h))),
      (λ f. elim f [
        | inl other ↦ absurd (other (same_type m same))
        | inr delta ↦ rw (same, take_list) ((read_body-IsDelta m.body).1 delta)
      ]),
    )
    | inr other ↦
        ((λ h. inl (λ e. absurd (ground (arith, other, e)))), (λ f. rw (other, take_list) refl))
  ]

  All-Passed :
      (ds : List (Delivery SteamMessage)) → All (Passed (take_list k)) ds ↔ All IsIrrelevant ds
  All-Passed [] = ((λ h. h), (λ h. h))
  All-Passed (d ∷ ds) = (
    (λ h. ((Passed-IsIrrelevant d).0 h.0, (All-Passed ds).0 h.1)),
    (λ h. ((Passed-IsIrrelevant d).1 h.0, (All-Passed ds).1 h.1)),
  )

  take_list-full :
      (m : SteamMessage) (found : B)
      → (take_list k m ≡ some (ok found)) ↔ ((m.emsg ≡ k.emsg) × IsFullList m.body found)
  unfolding take_list
  take_list-full m found = elim (Bool-cases (m.emsg == k.emsg)) [
    | inl same ↦ (
      (λ h. (same_type m same, (read_body-IsFullList m.body found).0 (rw (same, take_list) at h))),
      (λ t. rw (same, take_list) ((read_body-IsFullList m.body found).1 t.1)),
    )
    | inr other ↦ (
      (λ h. absurd (cc (rw (other, take_list) at h))),
      (λ t. let (e, full) = t in absurd (ground (arith, other, e))),
    )
  ]

  wait-FirstFull :
      (deliveries : List (Delivery SteamMessage)) (found : B)
      → (within k.what (await_event (msg "session stopped") (take_list k) deliveries) ≡ ok found)
        ↔ FirstFull deliveries found
  wait-FirstFull deliveries found =
      let (forth, back) =
        within-FirstTaken (msg "session stopped") (take_list k) k.what deliveries found in
      (
        (λ h.
            let (before, m, after, shape, passed, hit) = forth h in
            let (type, full) = (take_list-full m found).0 hit in
            (before, m, after, shape, (All-Passed before).0 passed, type, full)),
        (λ first.
            let (before, m, after, shape, passed, type, full) = first in
            back (
              before,
              m,
              after,
              shape,
              (All-Passed before).1 passed,
              (take_list-full m found).1 (type, full),
            )),
      )

  -- The cache has no snapshot, or one that is a delta.
  abbrev pub IsStale : Option Bytes → Type 0
  IsStale none = Unit {0}
  IsStale (some body) = IsDelta body

  -- With no snapshot in the cache, or one that is a delta, a request within its deadline returns
  -- `found` exactly when that is the content of the first full list that the subscription delivers:
  -- every message before it is of another type or a delta, and the subscription has not ended.
  pub request_list-FirstFull :
      (cached : Option Bytes) (deliveries : List (Delivery SteamMessage)) (found : B)
      → IsStale cached
      → (request_list k cached deliveries ≡ ok found) ↔ FirstFull deliveries found
  unfolding request_list read_cache
  request_list-FirstFull none deliveries found stale = wait-FirstFull deliveries found
  request_list-FirstFull (some body) deliveries found stale =
      rw ((read_body-IsDelta body).1 stale, request_list, read_cache)
        (wait-FirstFull deliveries found)
