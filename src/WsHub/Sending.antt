-- ===== src/WsHub/Sending.antt =====
-- `sendTo` and `receive` of src/ws-hub.ts: sealing and sending are one step.
use threadbase_streamer.Prelude.{
  ℕ, List, [], ◌∷◌, none, some, Bool, true, false, ◌==◌, has, if◌then◌else◌,
}
use threadbase_streamer.E2ee.Protocol.{Result, ok, err, ctx_unknown, seal_failed, ◌>>=◌}
use threadbase_streamer.E2ee.Record.{Aead, RecordState, channel_ws, seal, unseal}
use threadbase_streamer.E2ee.Context.{Context, send_state, receive_state}
use threadbase_streamer.E2ee.Context.Registry.{write}
use threadbase_streamer.WsHub.{
  WsHub, sent_text, sent_record, passed_text, opened_text, Transport, context_of, send_code, emit,
  object_at, clear_unproven, close_for_e2ee,
}

-- The state of a channel after a record, for every holder of the context.
pub put_state :
    {Key : Type 0} → List (ℕ × RecordState Key) → ℕ → RecordState Key → List (ℕ × RecordState Key)
put_state [] channel s = []
put_state ((c, old) ∷ rest) channel s =
    if c == channel then (c, s) ∷ rest else (c, old) ∷ put_state rest channel s

module _ {Key : Type 0} where
  abbrev pub after_seal : Context Key → RecordState Key → Context Key
  after_seal x s = record x { send = put_state x.send channel_ws s }

  abbrev pub after_unseal : Context Key → RecordState Key → Context Key
  after_unseal x s = record x { receive = put_state x.receive channel_ws s }

  abbrev pub advance : WsHub Key → ℕ → Context Key → WsHub Key
  advance hub a x = record hub { registry = write hub.registry a x }

  -- `ws.send(frame)` of a record, which may throw.
  unfoldable pub handed : Transport → ℕ → List ℕ → WsHub Key → WsHub Key × Bool
  handed transport ws frame hub =
      if transport.accepts ws
      then (emit (sent_record ws frame) hub, true)
      else (close_for_e2ee ws seal_failed hub, false)

  unfoldable pub sealed_send :
      Transport
      → ℕ
      → ℕ
      → Context Key
      → Result (List ℕ × RecordState Key)
      → WsHub Key
      → WsHub Key × Bool
  sealed_send transport ws a x (err code) hub = (close_for_e2ee ws (send_code code) hub, false)
  sealed_send transport ws a x (ok (frame, s)) hub =
      handed transport ws frame (advance hub a (after_seal x s))

  -- A legacy client's send; one that throws is dropped by the caller.
  abbrev pub send_plain : Transport → ℕ → List ℕ → WsHub Key → WsHub Key × Bool
  send_plain transport ws json hub =
      if transport.is_open ws
      then (if transport.accepts ws then (emit (sent_text ws json) hub, true) else (hub, false))
      else (hub, false)

  unfoldable pub unsealed :
      ℕ → ℕ → Context Key → Result (List ℕ × RecordState Key) → WsHub Key → WsHub Key
  unsealed ws a x (err code) hub = close_for_e2ee ws code hub
  unsealed ws a x (ok (plaintext, s)) hub =
      emit (opened_text ws plaintext) (clear_unproven ws (advance hub a (after_unseal x s)))

module _ {Key : Type 0} (aead : Aead Key) where
  -- `context.sendState(CHANNEL_WS).seal(plaintext)`.
  abbrev pub seal_on : Context Key → List ℕ → Result (List ℕ × RecordState Key)
  seal_on x plaintext = do s ← send_state x channel_ws; seal aead s plaintext none

  abbrev pub unseal_on : Context Key → List ℕ → Result (List ℕ × RecordState Key)
  unseal_on x frame = do s ← receive_state x channel_ws; unseal aead s frame none

  abbrev pub send_sealed : Transport → ℕ → List ℕ → ℕ → WsHub Key → WsHub Key × Bool
  send_sealed transport ws json a hub =
      if transport.is_open ws
      then elim (object_at hub a) [
        | none ↦ (close_for_e2ee ws seal_failed hub, false)
        | some x ↦ sealed_send transport ws a x (seal_on x json) hub
      ]
      else (close_for_e2ee ws seal_failed hub, false)

  -- `sendTo`: false where the caller should drop the client.
  unfoldable pub send_to : Transport → ℕ → List ℕ → WsHub Key → WsHub Key × Bool
  unfolding sealed_send handed
  send_to transport ws json hub = elim (context_of hub.contexts ws) [
    | none ↦
        if has ws hub.ever_sealed
        then (close_for_e2ee ws seal_failed hub, false)
        else send_plain transport ws json hub
    | some a ↦ send_sealed transport ws json a hub
  ]

  -- `receive`: the text that is handed on is an effect. Any record that opens stops the deadline.
  unfoldable pub receive : ℕ → List ℕ → WsHub Key → WsHub Key
  unfolding unsealed
  receive ws raw hub = elim (context_of hub.contexts ws) [
    | none ↦ if has ws hub.ever_sealed then hub else emit (passed_text ws raw) hub
    | some a ↦ elim (object_at hub a) [
      | none ↦ close_for_e2ee ws ctx_unknown hub
      | some x ↦ unsealed ws a x (unseal_on x raw) hub
    ]
  ]
