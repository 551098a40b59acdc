-- ===== src/WsHub/Calls.antt =====
-- The public calls of `WSHub`, the events of its sockets and its timers.
use threadbase_streamer.Prelude.{
  ℕ, ◌+◌, List, [], ◌∷◌, Option, none, some, Bool, true, false, not, ◌==◌, ◌||◌, String, str_eq,
  has, if◌then◌else◌,
}
use threadbase_streamer.E2ee.Protocol.{ctx_unknown, device_revoked}
use threadbase_streamer.E2ee.Record.{Aead}
use threadbase_streamer.E2ee.Context.{Context}
use threadbase_streamer.E2ee.Context.Registry.{lookup}
use threadbase_streamer.WsHub.{
  WsHub, terminated, pinged, Transport, without, with_socket, context_of, set_context, emit,
  object_at, destroyed, forget_context, drop_client, close_for_e2ee,
}
use threadbase_streamer.WsHub.Sending.{send_to, receive}

pub is_member : List String → String → Bool
is_member [] id = false
is_member (x ∷ xs) id = str_eq x id || is_member xs id

abbrev pub is_empty : List ℕ → Bool
is_empty [] = true
is_empty (x ∷ xs) = false

pub data Call : Type 0 where
  add_client : ℕ → Option ℕ → Call
  send_all : List ℕ → Call
  send_some : List ℕ → List ℕ → Call
  send_one : ℕ → List ℕ → Call
  frame_in : ℕ → List ℕ → Call
  pong_in socket_gone first_frame_timeout pong_timeout : ℕ → Call
  revoke_contexts : List String → Call
  revoke_device : String → Call
  ping_sweep : List ℕ → ℕ → Call
  shut_down : Call

module _ {Key : Type 0} where
  -- `addClient`, with the deadline of a sealed socket's first frame.
  unfoldable pub attach : ℕ → Option ℕ → WsHub Key → WsHub Key
  attach ws none hub = record hub { clients = with_socket ws hub.clients; pinging = true }
  attach ws (some a) hub = record hub {
    clients = with_socket ws hub.clients;
    pinging = true;
    contexts = set_context hub.contexts ws a;
    ever_sealed = with_socket ws hub.ever_sealed;
    unproven_timers = with_socket ws hub.unproven_timers;
  }

  -- The handlers of "pong", and of "close" and "error".
  unfoldable pub pong : ℕ → WsHub Key → WsHub Key
  pong ws hub = record hub { pong_timers = without ws hub.pong_timers }

  unfoldable pub gone : ℕ → WsHub Key → WsHub Key
  gone ws hub = forget_context ws (drop_client ws (pong ws hub))

  -- A timer that fires. It does nothing once it was cleared.
  unfoldable pub first_frame_deadline : ℕ → WsHub Key → WsHub Key
  first_frame_deadline ws hub =
      if has ws hub.unproven_timers
      then close_for_e2ee ws ctx_unknown
          (record hub { unproven_timers = without ws hub.unproven_timers })
      else hub

  unfoldable pub pong_deadline : ℕ → WsHub Key → WsHub Key
  pong_deadline ws hub =
      if has ws hub.pong_timers
      then emit (terminated ws) (record hub { pong_timers = without ws hub.pong_timers })
      else hub

  -- The loop of `closeContexts` and `closeDevice` over the entries that were there, with the test
  -- of an entry's context.
  unfoldable pub close_where :
      (Context Key → Bool) → List (ℕ × ℕ) → WsHub Key → WsHub Key × ℕ → WsHub Key × ℕ
  close_where test [] start (hub, n) = (hub, n)
  close_where test ((ws, a) ∷ rest) start (hub, n) = elim (object_at start a) [
    | none ↦ close_where test rest start (hub, n)
    | some x ↦
        close_where test rest start
          (if test x then (close_for_e2ee ws device_revoked hub, n + 1) else (hub, n))
  ]

  unfoldable pub close_contexts : List String → WsHub Key → WsHub Key × ℕ
  unfolding is_member
  close_contexts ids hub = close_where (λ x. is_member ids x.ctx_id) hub.contexts hub (hub, 0)

  unfoldable pub close_device : String → WsHub Key → WsHub Key × ℕ
  close_device device hub = close_where (λ x. str_eq x.device_id device) hub.contexts hub (hub, 0)

  unfoldable pub terminate_all : List ℕ → WsHub Key → WsHub Key
  terminate_all [] hub = hub
  terminate_all (ws ∷ rest) hub = terminate_all rest (emit (terminated ws) hub)

  unfoldable pub destroy_all : List (ℕ × ℕ) → WsHub Key → WsHub Key
  destroy_all [] hub = hub
  destroy_all ((ws, a) ∷ rest) hub =
      destroy_all rest (record hub { registry = destroyed hub.registry a })

  unfoldable pub dispose : WsHub Key → WsHub Key
  unfolding terminate_all destroy_all
  dispose hub = record (destroy_all hub.contexts (terminate_all hub.clients hub)) {
    clients = [];
    pinging = false;
    pong_timers = [];
    contexts = [];
    unproven_timers = [];
  }

  abbrev pub kept : ℕ → WsHub Key × Bool → WsHub Key
  kept ws (hub, true) = hub
  kept ws (hub, false) = drop_client ws hub

  -- The end of a client's turn in the sweep.
  unfoldable pub pinged_client : ℕ → WsHub Key × Bool → WsHub Key
  pinged_client ws (hub, false) = drop_client ws hub
  pinged_client ws (hub, true) =
      emit (pinged ws) (record hub { pong_timers = with_socket ws hub.pong_timers })

  -- `contextRegistry().get(context.ctxId) !== context`, with what the lookup does to the registry.
  unfoldable pub looked_up : ℕ → ℕ → WsHub Key → WsHub Key × Bool
  looked_up a now hub = elim (object_at hub a) [
    | none ↦ (hub, false)
    | some x ↦ (
      record hub { registry = (lookup hub.registry x.ctx_id now).0 },
      elim (lookup hub.registry x.ctx_id now).1 [ none ↦ false | some b ↦ b == a ],
    )
  ]

module _ {Key : Type 0} (aead : Aead Key) where
  -- `unicast`.
  unfoldable pub unicast : Transport → ℕ → List ℕ → WsHub Key → WsHub Key
  unicast transport ws json hub = kept ws (send_to aead transport ws json hub)

  -- `broadcastToClients`.
  unfoldable pub broadcast_to_clients : Transport → List ℕ → List ℕ → WsHub Key → WsHub Key
  unfolding unicast
  broadcast_to_clients transport [] json hub = hub
  broadcast_to_clients transport (ws ∷ rest) json hub =
      broadcast_to_clients transport rest json (unicast transport ws json hub)

  -- `broadcast`: a client that was not reached is dropped; when is not observed by the others.
  unfoldable pub broadcast : Transport → List ℕ → WsHub Key → WsHub Key
  unfolding broadcast_to_clients
  broadcast transport json hub = broadcast_to_clients transport hub.clients json hub

  -- One client of the sweep: the context first, then the socket, then the two pings.
  unfoldable pub ping_open : Transport → List ℕ → ℕ → WsHub Key → WsHub Key
  unfolding pinged_client
  ping_open transport json ws hub =
      if transport.is_open ws then pinged_client ws (send_to aead transport ws json hub) else hub

  unfoldable pub ping_checked : Transport → List ℕ → ℕ → WsHub Key × Bool → WsHub Key
  unfolding ping_open
  ping_checked transport json ws (hub, true) = ping_open transport json ws hub
  ping_checked transport json ws (hub, false) = close_for_e2ee ws ctx_unknown hub

  unfoldable pub ping_client : Transport → List ℕ → ℕ → ℕ → WsHub Key → WsHub Key
  unfolding looked_up ping_checked ping_open
  ping_client transport json now ws hub = elim (context_of hub.contexts ws) [
    | none ↦ ping_open transport json ws hub
    | some a ↦ ping_checked transport json ws (looked_up a now hub)
  ]

  unfoldable pub ping_clients : Transport → List ℕ → ℕ → List ℕ → WsHub Key → WsHub Key
  unfolding ping_client
  ping_clients transport json now [] hub = hub
  ping_clients transport json now (ws ∷ rest) hub =
      ping_clients transport json now rest (ping_client transport json now ws hub)

  -- The sweep of `startPing`; it stops where there is no client.
  unfoldable pub sweep : Transport → List ℕ → ℕ → WsHub Key → WsHub Key
  unfolding ping_clients
  sweep transport json now hub =
      if not hub.pinging
      then hub
      else if is_empty hub.clients
      then record hub { pinging = false }
      else ping_clients transport json now hub.clients hub

  -- A call, an event of a socket or a timer, with what `ws` says of the sockets meanwhile.
  unfoldable pub perform : WsHub Key → Transport × Call → WsHub Key
  unfolding attach pong gone first_frame_deadline pong_deadline dispose unicast broadcast sweep
  perform hub (transport, add_client ws context) = attach ws context hub
  perform hub (transport, send_all json) = broadcast transport json hub
  perform hub (transport, send_some clients json) = broadcast_to_clients transport clients json hub
  perform hub (transport, send_one ws json) = unicast transport ws json hub
  perform hub (transport, frame_in ws raw) = receive aead ws raw hub
  perform hub (transport, pong_in ws) = pong ws hub
  perform hub (transport, socket_gone ws) = gone ws hub
  perform hub (transport, first_frame_timeout ws) = first_frame_deadline ws hub
  perform hub (transport, pong_timeout ws) = pong_deadline ws hub
  perform hub (transport, revoke_contexts ids) = (close_contexts ids hub).0
  perform hub (transport, revoke_device device) = (close_device device hub).0
  perform hub (transport, ping_sweep json now) = sweep transport json now hub
  perform hub (transport, shut_down) = dispose hub

  unfoldable pub run : WsHub Key → List (Transport × Call) → WsHub Key
  run hub [] = hub
  run hub (c ∷ cs) = run (perform hub c) cs
