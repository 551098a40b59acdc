-- ===== src/WsHub/Sealed.antt =====
-- A socket that ever had a context gets no plain text, and none of its plain text is handed on.
pub mod History
use threadbase_streamer.Prelude.{
  ℕ, ◌≡◌, ◌≢◌, ◌∙◌, refl, List, [], ◌∷◌, ◌++◌, Option, none, some, Bool, true, false, ◌==◌, arith,
  has, keep_if, if_both, ap, ==_iff, Bool-cases, Option-cases, inl, inr, if◌then◌else◌,
}
use threadbase_streamer.E2ee.Record.{Aead, RecordState}
use threadbase_streamer.E2ee.Context.{Context}
use threadbase_streamer.E2ee.Protocol.{RejectionCode, Result, ok, err, seal_failed, ctx_unknown}
use threadbase_streamer.WsHub.Sending.{
  send_to, receive, sealed_send, handed, unsealed, advance, after_seal, after_unseal, seal_on,
  unseal_on, send_sealed, send_plain,
}
use threadbase_streamer.WsHub.Calls.{
  Call, perform, run, attach, pong, gone, first_frame_deadline, pong_deadline, dispose, unicast,
  broadcast, broadcast_to_clients, sweep, terminate_all, destroy_all, close_where, close_contexts,
  close_device, pinged_client, ping_open, looked_up, ping_checked, ping_client, ping_clients, kept,
  add_client, send_all, send_some, send_one, frame_in, pong_in, socket_gone, first_frame_timeout,
  pong_timeout, revoke_contexts, revoke_device, ping_sweep, shut_down, is_empty,
}
use threadbase_streamer.WsHub.{
  Transport, send_code, drop_client, clear_unproven, destroyed, object_at, without, context_of,
  with_socket, forget_context, close_for_e2ee, emit, WsHub, Effect, sent_text, sent_record, closed,
  terminated, pinged, passed_text, opened_text,
}

-- The plain texts of a socket among the effects: what it was sent, and what it sent that was
-- handed on.
abbrev pub plain : ℕ → List Effect → List (List ℕ)
plain ws [] = []
plain ws (sent_text x json ∷ es) = if x == ws then json ∷ plain ws es else plain ws es
plain ws (passed_text x raw ∷ es) = if x == ws then raw ∷ plain ws es else plain ws es
plain ws (sent_record x frame ∷ es) = plain ws es
plain ws (closed x code ∷ es) = plain ws es
plain ws (terminated x ∷ es) = plain ws es
plain ws (pinged x ∷ es) = plain ws es
plain ws (opened_text x text ∷ es) = plain ws es

abbrev pub is_plain_for : ℕ → Effect → Bool
is_plain_for ws (sent_text x json) = x == ws
is_plain_for ws (passed_text x raw) = x == ws
is_plain_for ws (sent_record x frame) = false
is_plain_for ws (closed x code) = false
is_plain_for ws (terminated x) = false
is_plain_for ws (pinged x) = false
is_plain_for ws (opened_text x text) = false

-- An effect that is no plain text of a socket leaves its plain texts as they are.
plain-append :
    (ws : ℕ) (es : List Effect) (e : Effect)
    → is_plain_for ws e ≡ false
    → plain ws (es ++ e ∷ []) ≡ plain ws es
plain-append ws [] (sent_text x json) h = ground arith
plain-append ws [] (passed_text x raw) h = ground arith
plain-append ws [] (sent_record x frame) h = refl
plain-append ws [] (closed x code) h = refl
plain-append ws [] (terminated x) h = refl
plain-append ws [] (pinged x) h = refl
plain-append ws [] (opened_text x text) h = refl
plain-append ws (sent_text x json ∷ es) e h = ground (arith, plain-append ws es e h)
plain-append ws (passed_text x raw ∷ es) e h = ground (arith, plain-append ws es e h)
plain-append ws (sent_record x frame ∷ es) e h = plain-append ws es e h
plain-append ws (closed x code ∷ es) e h = plain-append ws es e h
plain-append ws (terminated x ∷ es) e h = plain-append ws es e h
plain-append ws (pinged x ∷ es) e h = plain-append ws es e h
plain-append ws (opened_text x text ∷ es) e h = plain-append ws es e h

has-append : (ws y : ℕ) (xs : List ℕ) → has ws xs ≡ true → has ws (xs ++ y ∷ []) ≡ true
has-append ws y [] h = absurd (ground arith)
has-append ws y (x ∷ xs) h = ground (arith, has-append ws y xs)

pub has-with_socket : (ws y : ℕ) (xs : List ℕ) → has ws xs ≡ true → has ws (with_socket y xs) ≡ true
has-with_socket ws y xs h = ground (arith, has-append ws y xs h)

module _ {Key : Type 0} (ws : ℕ) (texts : List (List ℕ)) where
  -- The socket was sealed, and these are its plain texts so far.
  abbrev pub Safe : WsHub Key → Type 0
  Safe hub = (has ws hub.ever_sealed ≡ true) × (plain ws hub.effects ≡ texts)

  pub emit-Safe :
      (e : Effect) (hub : WsHub Key) → is_plain_for ws e ≡ false → Safe hub → Safe (emit e hub)
  emit-Safe e hub h s = (s.0, plain-append ws hub.effects e h ∙ s.1)

  pub forget_context-Safe : (x : ℕ) (hub : WsHub Key) → Safe hub → Safe (forget_context x hub)
  unfolding forget_context
  forget_context-Safe x hub s = ground arith

  pub close_for_e2ee-Safe :
      (x : ℕ) (code : RejectionCode) (hub : WsHub Key) → Safe hub → Safe (close_for_e2ee x code hub)
  unfolding close_for_e2ee
  close_for_e2ee-Safe x code hub s =
      forget_context-Safe x (emit (closed x code) (drop_client x hub))
        (emit-Safe (closed x code) (drop_client x hub) refl s)

  handed-Safe :
      (transport : Transport) (x : ℕ) (frame : List ℕ) (hub : WsHub Key)
      → Safe hub
      → Safe (handed transport x frame hub).0
  unfolding handed
  handed-Safe transport x frame hub s =
      if_both (λ (m : WsHub Key × Bool). Safe m.0) (transport.accepts x) _ _
        (emit-Safe (sent_record x frame) hub refl s) (close_for_e2ee-Safe x seal_failed hub s)

  sealed_send-Safe :
      (transport : Transport) (x a : ℕ) (c : Context Key) (r : Result (List ℕ × RecordState Key))
      (hub : WsHub Key)
      → Safe hub
      → Safe (sealed_send transport x a c r hub).0
  unfolding sealed_send
  sealed_send-Safe transport x a c (err code) hub s = close_for_e2ee-Safe x (send_code code) hub s
  sealed_send-Safe transport x a c (ok (frame, state)) hub s =
      handed-Safe transport x frame (advance hub a (after_seal c state)) s

  unsealed-Safe :
      (x a : ℕ) (c : Context Key) (r : Result (List ℕ × RecordState Key)) (hub : WsHub Key)
      → Safe hub
      → Safe (unsealed x a c r hub)
  unfolding unsealed
  unsealed-Safe x a c (err code) hub s = close_for_e2ee-Safe x code hub s
  unsealed-Safe x a c (ok (text, state)) hub s =
      emit-Safe (opened_text x text) (clear_unproven x (advance hub a (after_unseal c state))) refl
        s

  -- A text is sent in plain, or handed on in plain, only for a socket that was never sealed.
  other : (x : ℕ) (hub : WsHub Key) → Safe hub → has x hub.ever_sealed ≡ false → (x == ws) ≡ false
  other x hub s h = elim (Bool-cases (x == ws)) [
    | inl e ↦
        let same : x ≡ ws = (==_iff x ws).0 e in
        absurd (ground (arith, ap (λ t. has t hub.ever_sealed) same, s.0))
    | inr e ↦ e
  ]

  module _ (aead : Aead Key) where
    send_sealed-Safe :
        (transport : Transport) (x a : ℕ) (json : List ℕ) (hub : WsHub Key)
        → Safe hub
        → Safe (send_sealed aead transport x json a hub).0
    send_sealed-Safe transport x a json hub s =
        if_both (λ (m : WsHub Key × Bool). Safe m.0) (transport.is_open x) _ _
          (elim (object_at hub a)
            as (λ o.
              Safe
                (elim o as (λ _. WsHub Key × Bool) [
                  | none ↦ (close_for_e2ee x seal_failed hub, false)
                  | some c ↦ sealed_send transport x a c (seal_on aead c json) hub
                ]).0) [
                  | none ↦ close_for_e2ee-Safe x seal_failed hub s
                  | some c ↦ sealed_send-Safe transport x a c (seal_on aead c json) hub s
                ])
          (close_for_e2ee-Safe x seal_failed hub s)

    send_plain-Safe :
        (transport : Transport) (x : ℕ) (json : List ℕ) (hub : WsHub Key)
        → Safe hub
        → has x hub.ever_sealed ≡ false
        → Safe (send_plain transport x json hub).0
    send_plain-Safe transport x json hub s h =
        ground (arith, emit-Safe (sent_text x json) hub (other x hub s h) s)

    pub send_to-Safe :
        (transport : Transport) (x : ℕ) (json : List ℕ) (hub : WsHub Key)
        → Safe hub
        → Safe (send_to aead transport x json hub).0
    unfolding send_to
    send_to-Safe transport x json hub s =
        elim (context_of hub.contexts x)
          as (λ o.
            Safe
              (elim o as (λ _. WsHub Key × Bool) [
                | none ↦
                    if has x hub.ever_sealed
                    then (close_for_e2ee x seal_failed hub, false)
                    else send_plain transport x json hub
                | some a ↦ send_sealed aead transport x json a hub
              ]).0) [
                | none ↦ elim (Bool-cases (has x hub.ever_sealed)) [
                  | inl h ↦ rw h (close_for_e2ee-Safe x seal_failed hub s)
                  | inr h ↦ rw h (send_plain-Safe transport x json hub s h)
                ]
                | some a ↦ send_sealed-Safe transport x a json hub s
              ]

    pub receive-Safe :
        (x : ℕ) (raw : List ℕ) (hub : WsHub Key) → Safe hub → Safe (receive aead x raw hub)
    unfolding receive
    receive-Safe x raw hub s =
        elim (context_of hub.contexts x)
          as (λ o. Safe (elim o as (λ _. WsHub Key) [
            | none ↦ if has x hub.ever_sealed then hub else emit (passed_text x raw) hub
            | some a ↦ elim (object_at hub a) [
              | none ↦ close_for_e2ee x ctx_unknown hub
              | some c ↦ unsealed x a c (unseal_on aead c raw) hub
            ]
          ])) [
            | none ↦ elim (Bool-cases (has x hub.ever_sealed)) [
              | inl h ↦ rw h s
              | inr h ↦ rw h (emit-Safe (passed_text x raw) hub (other x hub s h) s)
            ]
            | some a ↦
                elim (object_at hub a)
                  as (λ o. Safe (elim o as (λ _. WsHub Key) [
                    | none ↦ close_for_e2ee x ctx_unknown hub
                    | some c ↦ unsealed x a c (unseal_on aead c raw) hub
                  ])) [
                    | none ↦ close_for_e2ee-Safe x ctx_unknown hub s
                    | some c ↦ unsealed-Safe x a c (unseal_on aead c raw) hub s
                  ]
          ]
