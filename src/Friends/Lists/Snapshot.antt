-- ===== src/Friends/Lists/Snapshot.antt =====
-- A request for a list against the driver that feeds its subscription and its cache.
use steamroids.Prelude.{
  ◌≡◌, ◌∙◌, sym, refl, inl, inr, Bool-cases, Option-cases, List, [], ◌∷◌, ◌++◌, Option, some, none,
  ◌==◌,
}
use steamroids.Error.{Text, Result, ok, msg}
use steamroids.Wire.{Bytes}
use steamroids.Codec.{SteamMessage}
use steamroids.Wait.{Delivery, event, await_event, within}
use steamroids.Session.Driver.{
  Out, reply, dropped, ack, logoff_ack, broadcast, publish, frame, probe, cached,
}
use steamroids.Session.Driver.Connected.{Services, Driver, Event, connected}
use steamroids.Session.Driver.Routing.{first_broadcast, first_broadcast-append, IsSnapshot}
use steamroids.Session.Driver.Routing.Snapshot.{connected-cached}
use steamroids.Friends.Lists.{ListKind, read_body, take_list, read_cache, request_list}
use steamroids.Friends.Lists.Full.{IsFullList, read_body-IsFullList}

-- What a subscription receives from the outputs of the driver.
unfoldable pub broadcasts : List Out → List (Delivery SteamMessage)
broadcasts [] = []
broadcasts (broadcast m ∷ outs) = event m ∷ broadcasts outs
broadcasts (publish s ∷ outs) = broadcasts outs
broadcasts (reply d r ∷ outs) = broadcasts outs
broadcasts (dropped d ∷ outs) = broadcasts outs
broadcasts (ack d r ∷ outs) = broadcasts outs
broadcasts (logoff_ack d ∷ outs) = broadcasts outs
broadcasts (frame e j b ∷ outs) = broadcasts outs
broadcasts (probe ∷ outs) = broadcasts outs

module _ {L B : Type 0} (k : ListKind L B) where
  await-broadcasts :
      (why : Text) (outs : List Out) (body : Bytes) (r : Result B)
      → first_broadcast k.emsg outs ≡ some body
      → read_body k body ≡ some r
      → await_event why (take_list k) (broadcasts outs) ≡ some r
  unfolding first_broadcast broadcasts await_event take_list
  await-broadcasts why [] body r h hit = absurd (cc h)
  await-broadcasts why (broadcast m ∷ outs) body r h hit =
      let ih = await-broadcasts why outs body r in
      elim (Bool-cases (m.emsg == k.emsg)) [
        | inl same ↦
            let here : m.body ≡ body = cc (rw (same, first_broadcast) at h) in
            rw (same, take_list, await_event, here, hit) refl
        | inr other ↦ rw (other, take_list, await_event) (ih (rw (other, first_broadcast) at h) hit)
      ]
  await-broadcasts why (publish s ∷ outs) body r h hit = await-broadcasts why outs body r h hit
  await-broadcasts why (reply d x ∷ outs) body r h hit = await-broadcasts why outs body r h hit
  await-broadcasts why (dropped d ∷ outs) body r h hit = await-broadcasts why outs body r h hit
  await-broadcasts why (ack d x ∷ outs) body r h hit = await-broadcasts why outs body r h hit
  await-broadcasts why (logoff_ack d ∷ outs) body r h hit = await-broadcasts why outs body r h hit
  await-broadcasts why (frame e j b ∷ outs) body r h hit = await-broadcasts why outs body r h hit
  await-broadcasts why (probe ∷ outs) body r h hit = await-broadcasts why outs body r h hit

  -- The cache after `before`, and the subscription that goes on with `after`.
  request-first_broadcast :
      (before after : List Out) (held : Option Bytes) (body : Bytes) (found : B)
      → held ≡ first_broadcast k.emsg before
      → first_broadcast k.emsg (before ++ after) ≡ some body
      → IsFullList k body found
      → request_list k held (broadcasts after) ≡ ok found
  unfolding request_list read_cache within
  request-first_broadcast before after held body found h first full =
      let split = sym (first_broadcast-append k.emsg before after) ∙ first in
      let hit = (read_body-IsFullList k body found).1 full in
      elim (Option-cases (first_broadcast k.emsg before)) [
        | inl nothing ↦
            rw
              (
                h ∙ nothing,
                request_list,
                read_cache,
                await-broadcasts (msg "session stopped") after body (ok found) (rw nothing at split)
                    hit,
                within,
              )
              refl
        | inr (b, early) ↦
            let here : b ≡ body = cc (rw early at split) in
            rw (h ∙ early, here, request_list, read_cache, hit) refl
      ]

  -- A connected driver starts with no snapshot of the list's type and goes through some events and
  -- then through some more, and the first message of that type that it broadcasts is a full list.
  -- A caller that subscribes and reads the cache between the two is answered with that list, whether
  -- it came before or comes after, if the caller misses no message and its time is not up.
  pub request_list-connected :
      (s : Services) (d : Driver) (es es' : List Event) (body : Bytes) (found : B)
      → IsSnapshot k.emsg
      → cached k.emsg d.routes.snapshots ≡ none
      → first_broadcast k.emsg
          ((connected s d es).outs ++ (connected s (connected s d es).driver es').outs)
        ≡ some body
      → IsFullList k body found
      → request_list k
          (cached k.emsg (connected s d es).driver.routes.snapshots)
          (broadcasts (connected s (connected s d es).driver es').outs)
        ≡ ok found
  request_list-connected s d es es' body found snap fresh first full =
      request-first_broadcast (connected s d es).outs
        (connected s (connected s d es).driver es').outs
        (cached k.emsg (connected s d es).driver.routes.snapshots) body found
        (rw fresh at (connected-cached k.emsg snap s d es)) first full
