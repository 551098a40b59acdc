-- ===== src/E2ee/Context.antt =====
-- src/e2ee/context.ts, the class `Context`: one device's encrypted context, with its record
-- states, the receive window and the response sealer of a REST context, and its lifetime.
-- The clock is an argument of each call.
pub mod Coupling
pub mod Requests
pub mod History
pub mod Answers
pub mod Registry
pub mod Access
pub mod Tests
use threadbase_streamer.Prelude.{
  ℕ, ◌+◌, List, [], ◌∷◌, Option, none, some, Bool, true, false, ◌==◌, String, min, if◌then◌else◌,
}
use threadbase_streamer.Prelude.Int.{pos}
use threadbase_streamer.E2ee.Protocol.{Result, ok, err, ctx_unknown, ◌>>=◌}
use threadbase_streamer.E2ee.RestWindow
use threadbase_streamer.E2ee.RestWindow.{RestReceiveWindow}
use threadbase_streamer.E2ee.Record
use threadbase_streamer.E2ee.Record.{
  Aead, RecordState, channel_ws, channel_rest_request, direction_c2s, direction_s2c,
}
use threadbase_streamer.E2ee.Record.Sealer
use threadbase_streamer.E2ee.Record.Sealer.{RestResponseSealer}

pub data ContextKind : Type 0 where
  ws rest : ContextKind

abbrev pub ticket_ttl_ms : ℕ
ticket_ttl_ms = 30000

abbrev pub ws_context_ttl_ms : ℕ
ws_context_ttl_ms = 86400000

abbrev pub rest_context_ttl_ms : ℕ
rest_context_ttl_ms = 86400000

unfoldable pub provisional_expires_at : ℕ → ℕ
provisional_expires_at now = now + ticket_ttl_ms

unfoldable pub context_expires_at : ContextKind → ℕ → ℕ
context_expires_at ws now = now + ws_context_ttl_ms
context_expires_at rest now = now + rest_context_ttl_ms

-- The traffic keys that the handshake gives.
pub record TrafficKeys (Key : Type 0) : Type 0 where
  pub client_to_server : Key
  pub server_to_client : Key

-- The maps by channel, which hold at most one state each.
pub record Context (Key : Type 0) : Type 0 where
  pub ctx_id : String
  pub ctx_id_raw : List ℕ
  pub device_id : String
  pub kind : ContextKind
  pub created_at : ℕ
  pub expires_at : ℕ
  pub provisional : Bool
  pub retire_at : Option ℕ
  pub send : List (ℕ × RecordState Key)
  pub receive : List (ℕ × RecordState Key)
  pub responses : Option (RestResponseSealer Key)
  pub window : Option RestReceiveWindow

abbrev earliest : ℕ → Option ℕ → ℕ
earliest expires none = expires
earliest expires (some at) = min expires at

abbrev sooner : Option ℕ → ℕ → ℕ
sooner none at = at
sooner (some old) at = min old at

abbrev or_unknown {ℓ} : {A : Type ℓ} → Option A → Result A
or_unknown none = err ctx_unknown
or_unknown (some a) = ok a

module _ {Key : Type 0} where
  fresh : String → List ℕ → String → ContextKind → ℕ → Context Key
  unfolding provisional_expires_at
  fresh ctx_id raw device_id kind now = record {
    ctx_id = ctx_id;
    ctx_id_raw = raw;
    device_id = device_id;
    kind = kind;
    created_at = now;
    expires_at = provisional_expires_at now;
    provisional = true;
    retire_at = none;
    send = [];
    receive = [];
    responses = none;
    window = none;
  }

  -- The constructor. A socket's context has a state for each way; a REST context has the receiving
  -- state, a window, and a sealer in place of a sending state.
  unfoldable pub create :
      String → List ℕ → String → ContextKind → TrafficKeys Key → ℕ → Result (Context Key)
  unfolding fresh
  create ctx_id raw device_id ws keys now = do
    out ← Record.create keys.server_to_client raw direction_s2c channel_ws none
    inn ← Record.create keys.client_to_server raw direction_c2s channel_ws none
    ok (record (fresh ctx_id raw device_id ws now) {
      send = (channel_ws, out) ∷ [];
      receive = (channel_ws, inn) ∷ [];
    })
  create ctx_id raw device_id rest keys now = do
    inn ← Record.create keys.client_to_server raw direction_c2s channel_rest_request none
    sealer ← Sealer.create keys.server_to_client raw
    ok (record (fresh ctx_id raw device_id rest now) {
      receive = (channel_rest_request, inn) ∷ [];
      window = some RestWindow.init;
      responses = some sealer;
    })

  find_state : List (ℕ × RecordState Key) → ℕ → Result (RecordState Key)
  find_state [] channel = err ctx_unknown
  find_state ((c, s) ∷ states) channel = if c == channel then ok s else find_state states channel

  pub send_state : Context Key → ℕ → Result (RecordState Key)
  unfolding find_state
  send_state x channel = find_state x.send channel

  pub receive_state : Context Key → ℕ → Result (RecordState Key)
  unfolding find_state
  receive_state x channel = find_state x.receive channel

  -- `deadline`: the expiry, or the drain deadline if that is earlier.
  unfoldable pub deadline : Context Key → ℕ
  deadline x = earliest x.expires_at x.retire_at

  unfoldable pub retire : Context Key → ℕ → Context Key
  retire x at = record x { retire_at = some (sooner x.retire_at at) }

  -- `markUsed`: the first use moves the expiry out; a later one changes nothing.
  unfoldable pub mark_used : Context Key → ℕ → Context Key
  unfolding context_expires_at
  mark_used x now =
      if x.provisional
      then record x { provisional = false; expires_at = context_expires_at x.kind now }
      else x

  -- `invalidateContext`: no state is left to seal or open with.
  unfoldable pub invalidate : Context Key → Context Key
  invalidate x = record x { send = []; receive = []; responses = none }

  -- The end of `unsealRequest`, where the window has taken the counter: the sealer accepts it.
  accepted :
      Context Key → ℕ → List ℕ → Result (RestResponseSealer Key) → Context Key × Result (List ℕ)
  unfolding mark_used
  accepted x now plaintext (err e) = (x, err e)
  accepted x now plaintext (ok sealer) =
      (mark_used (record x { responses = some sealer }) now, ok plaintext)

  admitted :
      Context Key
      → RestResponseSealer Key
      → ℕ
      → List ℕ
      → ℕ
      → Result RestReceiveWindow
      → Context Key × Result (List ℕ)
  unfolding accepted
  admitted x sealer now plaintext counter (err e) = (x, err e)
  admitted x sealer now plaintext counter (ok window) =
      accepted (record x { window = some window }) now plaintext (Sealer.accept sealer counter)

  opened :
      Context Key
      → RestResponseSealer Key
      → RestReceiveWindow
      → ℕ
      → Result (List ℕ × ℕ)
      → Context Key × Result (List ℕ)
  unfolding admitted
  opened x sealer window now (err e) = (x, err e)
  opened x sealer window now (ok (plaintext, counter)) =
      admitted x sealer now plaintext counter (RestWindow.admit window (pos counter))

  abbrev rest_parts :
      Context Key → Result (RestResponseSealer Key × RestReceiveWindow × RecordState Key)
  rest_parts x = do
    sealer ← or_unknown x.responses
    window ← or_unknown x.window
    state ← find_state x.receive channel_rest_request
    ok (sealer, window, state)

  unsealed :
      Aead Key
      → Context Key
      → List ℕ
      → List ℕ
      → ℕ
      → ℕ
      → Result (RestResponseSealer Key × RestReceiveWindow × RecordState Key)
      → Context Key × Result (List ℕ)
  unfolding opened
  unsealed aead x frame target limit now (err e) = (x, err e)
  unsealed aead x frame target limit now (ok (sealer, window, state)) =
      opened x sealer window now (Record.unseal_unchecked aead state frame target limit)

  -- `unsealRequest`: authenticate, then the window, then the sealer, then the first use. The
  -- context is returned with what was written before a throw.
  unfoldable pub unseal_request :
      Aead Key → Context Key → List ℕ → List ℕ → ℕ → ℕ → Context Key × Result (List ℕ)
  unfolding unsealed find_state
  unseal_request aead x frame target limit now =
      unsealed aead x frame target limit now (rest_parts x)

  pub responded :
      Context Key → RestResponseSealer Key × Result (List ℕ) → Context Key × Result (List ℕ)
  responded x (sealer, r) = (record x { responses = some sealer }, r)

  -- `sealResponse`.
  unfoldable pub seal_response :
      Aead Key → Context Key → ℕ → List ℕ → List ℕ → Context Key × Result (List ℕ)
  unfolding responded
  seal_response aead x counter plaintext target = elim x.responses [
    | none ↦ (x, err ctx_unknown)
    | some sealer ↦ responded x (Sealer.seal aead sealer counter plaintext target)
  ]
