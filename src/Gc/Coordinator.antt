-- ===== src/Gc/Coordinator.antt =====
-- src/gc/coordinator.rs: the methods of `GameCoordinator` over a session.
use steamroids.Prelude.{ℕ, Bool, true, List, [], ◌∷◌, Option, some}
use steamroids.Error.{Result, ok, err}
use steamroids.Wire.{Proto}
use steamroids.Session.Remote.{Remote, Sent, tell}
use steamroids.Wait.{Delivery, within}
use steamroids.Gc.{default_gc_header}
use steamroids.Gc.Envelope.{GcMessage, emsg_client_to_gc, wrap}
use steamroids.Gc.Pump.{App, emsg_client_games_played, gc_client_hello, hello_body}
use steamroids.Gc.Requests.{wait_ready, request_matching}

-- The coordinator of an app; the events and the readiness come from its pump.
pub record GameCoordinator : Type 0 where
  pub app : App

unfoldable pub send_gc :
    {Q : Type 0}
    → Remote
    → GameCoordinator
    → ℕ
    → Proto Q
    → Q
    → List Sent
    → Result (Unit {0}) × List Sent
unfolding tell wrap
send_gc env gc msgtype q body =
    tell env gc.app.protos.client emsg_client_to_gc
      (wrap gc.app.protos gc.app.appid msgtype default_gc_header (q.encode body))

unfoldable pub announce : Remote → App → List Sent → Result (Unit {0}) × List Sent
unfolding tell
announce env a =
    tell env a.protos.games emsg_client_games_played (record { games_played = some a.appid ∷ [] })

unfoldable pub attach : Remote → App → List Sent → Result GameCoordinator × List Sent
unfolding announce send_gc hello_body
attach env a sent =
    let gc : GameCoordinator = record { app = a } in
    let (announced, sent') = announce env a sent in
    let (greeted, sent'') = send_gc env gc gc_client_hello a.protos.hello (hello_body a) sent' in
    elim announced [
      | err e ↦ (err e, sent')
      | ok u ↦ (elim greeted [ err e ↦ err e | ok v ↦ ok gc ], sent'')
    ]

-- What the pump shows: the readiness at the start, its changes, and what it delivers after the send.
pub record PumpView : Type 0 where
  pub ready_now : Bool
  pub changes : List (Option Bool)
  pub deliveries : List (Delivery GcMessage)

-- `request_matching`: nothing is sent before the coordinator is ready.
unfoldable pub request_over :
    {Q M : Type 0}
    → Remote
    → GameCoordinator
    → PumpView
    → ℕ
    → Proto Q
    → Q
    → Proto M
    → ℕ
    → (M → Bool)
    → List Sent
    → Result M × List Sent
unfolding send_gc request_matching
request_over env gc view send_type q body p response_type accept sent =
    let (written, sent') = send_gc env gc send_type q body sent in
    let answer = request_matching p response_type accept view.ready_now view.changes in
    elim (within "GC welcome" (wait_ready view.ready_now view.changes)) [
      | err e ↦ (err e, sent)
      | ok u ↦ (answer written view.deliveries, sent')
    ]

-- `request`, which takes any reply of the type.
unfoldable pub request_any :
    {Q M : Type 0}
    → Remote
    → GameCoordinator
    → PumpView
    → ℕ
    → Proto Q
    → Q
    → Proto M
    → ℕ
    → List Sent
    → Result M × List Sent
unfolding request_over
request_any env gc view send_type q body p response_type =
    request_over env gc view send_type q body p response_type (λ reply. true)
