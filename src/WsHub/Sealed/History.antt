-- ===== src/WsHub/Sealed/History.antt =====
-- The calls of the hub keep a socket that was sealed from plain text.
use threadbase_streamer.Prelude.{
  ℕ, ◌≡◌, refl, ◌==◌, List, [], ◌∷◌, ◌++◌, Option, none, some, Bool, true, false, not, has, if_both,
  arith, ==_iff, ◌+◌, str_eq, if◌then◌else◌,
}
use threadbase_streamer.E2ee.Protocol.{ctx_unknown, device_revoked}
use threadbase_streamer.E2ee.Record.{Aead}
use threadbase_streamer.E2ee.Context.{Context}
use threadbase_streamer.E2ee.Context.Registry.{lookup}
use threadbase_streamer.WsHub.{
  WsHub, Transport, terminated, pinged, context_of, object_at, destroyed, drop_client, with_socket,
  without, close_for_e2ee, emit,
}
use threadbase_streamer.WsHub.Sending.{send_to}
use threadbase_streamer.WsHub.Calls.{
  Call, perform, run, attach, pong, gone, first_frame_deadline, pong_deadline, dispose, unicast,
  broadcast, broadcast_to_clients, sweep, terminate_all, destroy_all, close_where, close_contexts,
  close_device, is_member, pinged_client, ping_open, looked_up, ping_checked, ping_client,
  ping_clients, kept, add_client, send_all, send_some, send_one, frame_in, pong_in, socket_gone,
  first_frame_timeout, pong_timeout, revoke_contexts, revoke_device, ping_sweep, shut_down,
  is_empty,
}
use threadbase_streamer.WsHub.Sealed.{
  Safe, plain, has-with_socket, emit-Safe, forget_context-Safe, close_for_e2ee-Safe, send_to-Safe,
  receive-Safe,
}

module _ {Key : Type 0} (ws : ℕ) (texts : List (List ℕ)) where
  attach-Safe :
      (x : ℕ) (o : Option ℕ) (hub : WsHub Key) → Safe ws texts hub → Safe ws texts (attach x o hub)
  unfolding attach
  attach-Safe x none hub s = s
  attach-Safe x (some a) hub s = (has-with_socket ws x hub.ever_sealed s.0, s.1)

  first_frame_deadline-Safe :
      (x : ℕ) (hub : WsHub Key) → Safe ws texts hub → Safe ws texts (first_frame_deadline x hub)
  unfolding first_frame_deadline
  first_frame_deadline-Safe x hub s =
      if_both (λ (h : WsHub Key). Safe ws texts h) (has x hub.unproven_timers) _ _
        (close_for_e2ee-Safe ws texts x ctx_unknown
          (record hub { unproven_timers = without x hub.unproven_timers }) s)
        s

  pong_deadline-Safe :
      (x : ℕ) (hub : WsHub Key) → Safe ws texts hub → Safe ws texts (pong_deadline x hub)
  unfolding pong_deadline
  pong_deadline-Safe x hub s =
      if_both (λ (h : WsHub Key). Safe ws texts h) (has x hub.pong_timers) _ _
        (emit-Safe ws texts (terminated x) (record hub { pong_timers = without x hub.pong_timers })
          refl s)
        s

  close_where-Safe :
      (test : Context Key → Bool) (es : List (ℕ × ℕ)) (start hub : WsHub Key) (n : ℕ)
      → Safe ws texts hub
      → Safe ws texts (close_where test es start (hub, n)).0
  unfolding close_where
  close_where-Safe test [] start hub n s = s
  close_where-Safe test ((x, a) ∷ es) start hub n s =
      elim (object_at start a)
        as (λ o.
          Safe ws texts
            (elim o as (λ _. WsHub Key × ℕ) [
              | none ↦ close_where test es start (hub, n)
              | some c ↦
                  close_where test es start
                    (if test c then (close_for_e2ee x device_revoked hub, n + 1) else (hub, n))
            ]).0) [
              | none ↦ close_where-Safe test es start hub n s
              | some c ↦
                  if_both (λ (m : WsHub Key × ℕ). Safe ws texts (close_where test es start m).0)
                    (test c) _ _
                    (close_where-Safe test es start (close_for_e2ee x device_revoked hub) (n + 1)
                      (close_for_e2ee-Safe ws texts x device_revoked hub s))
                    (close_where-Safe test es start hub n s)
            ]

  terminate_all-Safe :
      (xs : List ℕ) (hub : WsHub Key) → Safe ws texts hub → Safe ws texts (terminate_all xs hub)
  unfolding terminate_all
  terminate_all-Safe [] hub s = s
  terminate_all-Safe (x ∷ xs) hub s =
      terminate_all-Safe xs (emit (terminated x) hub) (emit-Safe ws texts (terminated x) hub refl s)

  destroy_all-Safe :
      (es : List (ℕ × ℕ)) (hub : WsHub Key) → Safe ws texts hub → Safe ws texts (destroy_all es hub)
  unfolding destroy_all
  destroy_all-Safe [] hub s = s
  destroy_all-Safe ((x, a) ∷ es) hub s =
      destroy_all-Safe es (record hub { registry = destroyed hub.registry a }) s

  module _ (aead : Aead Key) (transport : Transport) where
    kept-Safe : (x : ℕ) (m : WsHub Key × Bool) → Safe ws texts m.0 → Safe ws texts (kept x m)
    kept-Safe x (hub, true) s = s
    kept-Safe x (hub, false) s = s

    unicast-Safe :
        (x : ℕ) (json : List ℕ) (hub : WsHub Key)
        → Safe ws texts hub
        → Safe ws texts (unicast aead transport x json hub)
    unfolding unicast
    unicast-Safe x json hub s =
        kept-Safe x (send_to aead transport x json hub)
          (send_to-Safe ws texts aead transport x json hub s)

    broadcast_to_clients-Safe :
        (xs : List ℕ) (json : List ℕ) (hub : WsHub Key)
        → Safe ws texts hub
        → Safe ws texts (broadcast_to_clients aead transport xs json hub)
    unfolding broadcast_to_clients
    broadcast_to_clients-Safe [] json hub s = s
    broadcast_to_clients-Safe (x ∷ xs) json hub s =
        broadcast_to_clients-Safe xs json (unicast aead transport x json hub)
          (unicast-Safe x json hub s)

    pinged_client-Safe :
        (x : ℕ) (m : WsHub Key × Bool) → Safe ws texts m.0 → Safe ws texts (pinged_client x m)
    unfolding pinged_client
    pinged_client-Safe x (hub, true) s =
        emit-Safe ws texts (pinged x) (record hub { pong_timers = with_socket x hub.pong_timers })
          refl s
    pinged_client-Safe x (hub, false) s = s

    ping_open-Safe :
        (json : List ℕ) (x : ℕ) (hub : WsHub Key)
        → Safe ws texts hub
        → Safe ws texts (ping_open aead transport json x hub)
    unfolding ping_open
    ping_open-Safe json x hub s =
        if_both (λ (h : WsHub Key). Safe ws texts h) (transport.is_open x) _ _
          (pinged_client-Safe x (send_to aead transport x json hub)
            (send_to-Safe ws texts aead transport x json hub s))
          s

    looked_up-Safe :
        (a now : ℕ) (hub : WsHub Key) → Safe ws texts hub → Safe ws texts (looked_up a now hub).0
    unfolding looked_up
    looked_up-Safe a now hub s =
        elim (object_at hub a)
          as (λ o.
            Safe ws texts
              (elim o as (λ _. WsHub Key × Bool) [
                | none ↦ (hub, false)
                | some x ↦ (
                  record hub { registry = (lookup hub.registry x.ctx_id now).0 },
                  elim (lookup hub.registry x.ctx_id now).1 [ none ↦ false | some b ↦ b == a ],
                )
              ]).0) [ none ↦ s | some x ↦ s ]

    ping_checked-Safe :
        (json : List ℕ) (x : ℕ) (m : WsHub Key × Bool)
        → Safe ws texts m.0
        → Safe ws texts (ping_checked aead transport json x m)
    unfolding ping_checked
    ping_checked-Safe json x (hub, true) s = ping_open-Safe json x hub s
    ping_checked-Safe json x (hub, false) s = close_for_e2ee-Safe ws texts x ctx_unknown hub s

    ping_client-Safe :
        (json : List ℕ) (now x : ℕ) (hub : WsHub Key)
        → Safe ws texts hub
        → Safe ws texts (ping_client aead transport json now x hub)
    unfolding ping_client
    ping_client-Safe json now x hub s =
        elim (context_of hub.contexts x)
          as (λ o. Safe ws texts (elim o as (λ _. WsHub Key) [
            | none ↦ ping_open aead transport json x hub
            | some a ↦ ping_checked aead transport json x (looked_up a now hub)
          ])) [
            | none ↦ ping_open-Safe json x hub s
            | some a ↦ ping_checked-Safe json x (looked_up a now hub) (looked_up-Safe a now hub s)
          ]

    ping_clients-Safe :
        (json : List ℕ) (now : ℕ) (xs : List ℕ) (hub : WsHub Key)
        → Safe ws texts hub
        → Safe ws texts (ping_clients aead transport json now xs hub)
    unfolding ping_clients
    ping_clients-Safe json now [] hub s = s
    ping_clients-Safe json now (x ∷ xs) hub s =
        ping_clients-Safe json now xs (ping_client aead transport json now x hub)
          (ping_client-Safe json now x hub s)

    sweep-Safe :
        (json : List ℕ) (now : ℕ) (hub : WsHub Key)
        → Safe ws texts hub
        → Safe ws texts (sweep aead transport json now hub)
    unfolding sweep
    sweep-Safe json now hub s =
        if_both (λ (h : WsHub Key). Safe ws texts h) (not hub.pinging) _ _ s
          (if_both (λ (h : WsHub Key). Safe ws texts h) (is_empty hub.clients) _ _ s
            (ping_clients-Safe json now hub.clients hub s))

  module _ (aead : Aead Key) where
    perform-Safe :
        (c : Transport × Call) (hub : WsHub Key)
        → Safe ws texts hub
        → Safe ws texts (perform aead hub c)
    unfolding perform gone pong broadcast dispose close_contexts close_device
    perform-Safe (transport, add_client x o) hub s = attach-Safe x o hub s
    perform-Safe (transport, send_all json) hub s =
        broadcast_to_clients-Safe aead transport hub.clients json hub s
    perform-Safe (transport, send_some xs json) hub s =
        broadcast_to_clients-Safe aead transport xs json hub s
    perform-Safe (transport, send_one x json) hub s = unicast-Safe aead transport x json hub s
    perform-Safe (transport, frame_in x raw) hub s = receive-Safe ws texts aead x raw hub s
    perform-Safe (transport, pong_in x) hub s = s
    perform-Safe (transport, socket_gone x) hub s =
        forget_context-Safe ws texts x (drop_client x (pong x hub)) s
    perform-Safe (transport, first_frame_timeout x) hub s = first_frame_deadline-Safe x hub s
    perform-Safe (transport, pong_timeout x) hub s = pong_deadline-Safe x hub s
    perform-Safe (transport, revoke_contexts ids) hub s =
        close_where-Safe (λ c. is_member ids c.ctx_id) hub.contexts hub hub 0 s
    perform-Safe (transport, revoke_device device) hub s =
        close_where-Safe (λ c. str_eq c.device_id device) hub.contexts hub hub 0 s
    perform-Safe (transport, ping_sweep json now) hub s = sweep-Safe aead transport json now hub s
    perform-Safe (transport, shut_down) hub s =
        destroy_all-Safe hub.contexts (terminate_all hub.clients hub)
          (terminate_all-Safe hub.clients hub s)

    run-Safe :
        (cs : List (Transport × Call)) (hub : WsHub Key)
        → Safe ws texts hub
        → Safe ws texts (run aead hub cs)
    unfolding run
    run-Safe [] hub s = s
    run-Safe (c ∷ cs) hub s = run-Safe cs (perform aead hub c) (perform-Safe c hub s)

has-last : (ws : ℕ) (xs : List ℕ) → has ws (xs ++ ws ∷ []) ≡ true
has-last ws [] = ground (arith, ==_iff ws ws)
has-last ws (x ∷ xs) = ground (arith, has-last ws xs)

has-attached : (ws : ℕ) (xs : List ℕ) → has ws (with_socket ws xs) ≡ true
has-attached ws xs = ground (arith, has-last ws xs)

-- From the call that attaches a socket with a context on, no call, event or timer sends it plain text
-- or hands on plain text of it, also after its context is gone.
pub sealed_stays :
    {Key : Type 0} (aead : Aead Key) (ws a : ℕ) (hub : WsHub Key) (transport : Transport)
    (cs : List (Transport × Call))
    → plain ws (run aead hub ((transport, add_client ws (some a)) ∷ cs)).effects
      ≡ plain ws hub.effects
unfolding run perform attach
sealed_stays aead ws a hub transport cs =
    (run-Safe ws (plain ws hub.effects) aead cs (attach ws (some a) hub)
      (has-attached ws hub.ever_sealed, refl)).1
