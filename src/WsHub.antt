-- ===== src/WsHub.antt =====
-- src/ws-hub.ts, the class `WSHub`: the sockets of the server, those of a legacy client in plain
-- text and those with a context sealed. A socket is a number, a message the bytes of its JSON, and
-- a timer the socket that it runs for. Contexts are addresses of the registry's objects.
pub mod Sending
pub mod Calls
pub mod Sealed
pub mod Revocation
pub mod Tests
use threadbase_streamer.Prelude.{
  ℕ, List, [], ◌∷◌, ◌++◌, Option, none, some, Bool, true, false, not, ◌==◌, String, str_eq, has,
  get_elem?, keep_if, if◌then◌else◌,
}
use threadbase_streamer.E2ee.Protocol.{
  RejectionCode, ctx_unknown, device_revoked, sequence_violation, seal_failed,
}
use threadbase_streamer.E2ee.Record.{RecordState}
use threadbase_streamer.E2ee.Context.{Context}
use threadbase_streamer.E2ee.Context.Registry.{Registry, destroy_owned}

-- What the hub does to the sockets and hands on, in order.
pub data Effect : Type 0 where
  sent_text : ℕ → List ℕ → Effect
  sent_record : ℕ → List ℕ → Effect
  closed : ℕ → RejectionCode → Effect
  terminated : ℕ → Effect
  pinged : ℕ → Effect
  passed_text : ℕ → List ℕ → Effect
  opened_text : ℕ → List ℕ → Effect

pub record WsHub (Key : Type 0) : Type 0 where
  pub clients : List ℕ
  pub pinging : Bool
  pub pong_timers : List ℕ
  pub contexts : List (ℕ × ℕ)
  pub ever_sealed : List ℕ
  pub unproven_timers : List ℕ
  pub registry : Registry Key
  pub effects : List Effect

-- What `ws` says of a socket during a call, and whether its `send` does not throw.
pub record Transport : Type 0 where
  pub is_open : ℕ → Bool
  pub accepts : ℕ → Bool

-- `set.delete(ws)` and `set.add(ws)`.
abbrev pub without : ℕ → List ℕ → List ℕ
without ws = keep_if (λ x. not (x == ws))

abbrev pub with_socket : ℕ → List ℕ → List ℕ
with_socket ws xs = if has ws xs then xs else xs ++ ws ∷ []

-- `contexts.get`, `contexts.set` and `contexts.delete`.
unfoldable pub context_of : List (ℕ × ℕ) → ℕ → Option ℕ
context_of [] ws = none
context_of ((x, a) ∷ rest) ws = if x == ws then some a else context_of rest ws

unfoldable pub set_context : List (ℕ × ℕ) → ℕ → ℕ → List (ℕ × ℕ)
set_context [] ws a = (ws, a) ∷ []
set_context ((x, b) ∷ rest) ws a = if x == ws then (x, a) ∷ rest else (x, b) ∷ set_context rest ws a

unfoldable pub drop_context : List (ℕ × ℕ) → ℕ → List (ℕ × ℕ)
drop_context [] ws = []
drop_context ((x, a) ∷ rest) ws =
    if x == ws then drop_context rest ws else (x, a) ∷ drop_context rest ws

-- `sendCode`: a fault of this side is no claim about the peer.
abbrev pub send_code : RejectionCode → RejectionCode
send_code sequence_violation = seal_failed
send_code code = code

module _ {Key : Type 0} where
  pub new_hub : Registry Key → WsHub Key
  new_hub registry = record {
    clients = [];
    pinging = false;
    pong_timers = [];
    contexts = [];
    ever_sealed = [];
    unproven_timers = [];
    registry = registry;
    effects = [];
  }

  abbrev pub emit : Effect → WsHub Key → WsHub Key
  emit e hub = record hub { effects = hub.effects ++ e ∷ [] }

  abbrev pub object_at : WsHub Key → ℕ → Option (Context Key)
  object_at hub a = get_elem? hub.registry.objects a

  -- `contextRegistry().destroyOwned(context)`.
  abbrev pub destroyed : Registry Key → ℕ → Registry Key
  destroyed registry a = elim (get_elem? registry.objects a) [
    | none ↦ registry
    | some x ↦ (destroy_owned registry a x).0
  ]

  abbrev pub clear_unproven : ℕ → WsHub Key → WsHub Key
  clear_unproven ws hub = record hub { unproven_timers = without ws hub.unproven_timers }

  -- `forgetContext`: the socket's own context is destroyed, and no other.
  unfoldable pub forget_context : ℕ → WsHub Key → WsHub Key
  forget_context ws hub =
      let hub' = clear_unproven ws hub in
      elim (context_of hub.contexts ws) [
        | none ↦ hub'
        | some a ↦ record hub' {
          contexts = drop_context hub.contexts ws;
          registry = destroyed hub.registry a;
        }
      ]

  abbrev pub drop_client : ℕ → WsHub Key → WsHub Key
  drop_client ws hub = record hub { clients = without ws hub.clients }

  -- `closeForE2ee`.
  unfoldable pub close_for_e2ee : ℕ → RejectionCode → WsHub Key → WsHub Key
  unfolding forget_context
  close_for_e2ee ws code hub = forget_context ws (emit (closed ws code) (drop_client ws hub))
