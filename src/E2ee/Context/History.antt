-- ===== src/E2ee/Context/History.antt =====
-- A REST context from its creation on, through any history of requests and responses.
use threadbase_streamer.Prelude.{ℕ, ◌≡◌, refl, List, [], ◌∷◌, some, arith, length, String}
use threadbase_streamer.Prelude.Int.{negsuc}
use threadbase_streamer.E2ee.Bitmap.{blank}
use threadbase_streamer.E2ee.Protocol.{ok}
use threadbase_streamer.E2ee.Bitmap.Laws.{blank-IsBitmap}
use threadbase_streamer.E2ee.RestWindow
use threadbase_streamer.E2ee.RestWindow.{RestReceiveWindow}
use threadbase_streamer.E2ee.Record
use threadbase_streamer.E2ee.Record.{
  Aead, RecordState, direction_c2s, channel_rest_request, channel_rest_response, is_valid_target,
  seal_with, target_hash_bytes, record_header, record_aad,
}
use threadbase_streamer.E2ee.Record.Sealer
use threadbase_streamer.E2ee.Record.Sealer.{RestResponseSealer, spend, response_header}
use threadbase_streamer.E2ee.Record.Sealer.Once.{seal_cases}
use threadbase_streamer.E2ee.Context.{
  Context, rest, TrafficKeys, create, unseal_request, seal_response, responded,
}
use threadbase_streamer.E2ee.Context.Coupling.{Coupled, spend-Coupled}
use threadbase_streamer.E2ee.Context.Requests.{IsServing, request-IsServing}

-- A call on the context.
pub data Call : Type 0 where
  requests : List ℕ → List ℕ → ℕ → ℕ → Call
  responds : ℕ → List ℕ → List ℕ → Call

module _ {Key : Type 0} where
  abbrev new_sealer : TrafficKeys Key → List ℕ → RestResponseSealer Key
  new_sealer keys raw = record {
    key = keys.server_to_client;
    ctx_id = raw;
    outstanding = [];
    answered_bits = blank;
    accepted_high_water = negsuc 0;
  }

  abbrev new_state : TrafficKeys Key → List ℕ → RecordState Key
  new_state keys raw = record {
    key = keys.client_to_server;
    ctx_id = raw;
    direction = direction_c2s;
    channel = channel_rest_request;
    counter = 0;
  }

  -- What the constructor makes of a handle of 16 bytes; with any other it throws.
  create-eq-ok :
      (id : String) (raw : List ℕ) (device : String) (keys : TrafficKeys Key) (now : ℕ)
      (x : Context Key)
      → create id raw device rest keys now ≡ ok x
      → (length raw ≡ 16)
        × (x.receive ≡ (channel_rest_request, new_state keys raw) ∷ [])
        × (x.window ≡ some RestWindow.init)
        × (x.responses ≡ some (new_sealer keys raw))
  unfolding create Record.create Sealer.create
  create-eq-ok id raw device keys now x e = (ground arith, ground arith, ground arith, ground arith)

  start-Coupled :
      (keys : TrafficKeys Key) (raw : List ℕ) → Coupled RestWindow.init (new_sealer keys raw)
  unfolding RestWindow.init
  start-Coupled keys raw = record {
    marks = refl;
    seen = blank-IsBitmap;
    answered = blank-IsBitmap;
    covered = λ d p q r. r;
    waiting = λ d p. cc;
  }

  pub create-IsServing :
      (id : String) (raw : List ℕ) (device : String) (keys : TrafficKeys Key) (now : ℕ)
      (x : Context Key)
      → create id raw device rest keys now ≡ ok x
      → IsServing x
  create-IsServing id raw device keys now x e =
      let (size, receive, window, responses) = create-eq-ok id raw device keys now x e in
      record {
        at = new_state keys raw;
        seen = RestWindow.init;
        sealer = new_sealer keys raw;
        receive = receive;
        window = window;
        responses = responses;
        coupled = start-Coupled keys raw;
        handle = size;
      }

module _ {Key : Type 0} (aead : Aead Key) where
  unfoldable pub step : Context Key → Call → Context Key
  step x (requests frame target limit now) = (unseal_request aead x frame target limit now).0
  step x (responds c p t) = (seal_response aead x c p t).0

  unfoldable pub run : Context Key → List Call → Context Key
  run x [] = x
  run x (y ∷ ys) = run (step x y) ys

  pub seal_response-some :
      (x : Context Key) (c : ℕ) (p t : List ℕ) (s : RestResponseSealer Key)
      → x.responses ≡ some s
      → seal_response aead x c p t ≡ responded x (Sealer.seal aead s c p t)
  unfolding seal_response
  seal_response-some x c p t s h = rw (h, seal_response)

  pub seal_response-responded :
      (x : Context Key) (c : ℕ) (p t : List ℕ) (v : IsServing x)
      → seal_response aead x c p t ≡ responded x (Sealer.seal aead v.sealer c p t)
  seal_response-responded x c p t v = seal_response-some x c p t v.sealer v.responses

  with_sealer-IsServing :
      (x : Context Key) (v : IsServing x) (s : RestResponseSealer Key)
      → Coupled v.seen s
      → length s.ctx_id ≡ 16
      → IsServing (record x { responses = some s })
  with_sealer-IsServing x v s k h = record {
    at = v.at;
    seen = v.seen;
    sealer = s;
    receive = v.receive;
    window = v.window;
    responses = refl;
    coupled = k;
    handle = h;
  }

  spend-handle :
      (s : RestResponseSealer Key) (c : ℕ) → length s.ctx_id ≡ 16 → length (spend s c).ctx_id ≡ 16
  unfolding spend Sealer.mark_answered
  spend-handle s c h = h

  response-IsServing :
      (x : Context Key) (c : ℕ) (p t : List ℕ)
      → IsServing x
      → IsServing (seal_response aead x c p t).0
  unfolding responded
  response-IsServing x c p t v = rw (seal_response-responded x c p t v) (
      seal_cases aead (λ r. IsServing (responded x r).0) v.sealer c p t
        (λ e. with_sealer-IsServing x v v.sealer v.coupled v.handle)
        (λ h.
          with_sealer-IsServing x v (spend v.sealer c) (spend-Coupled v.seen v.sealer c v.coupled h)
            (spend-handle v.sealer c v.handle)))

  pub step-IsServing : (x : Context Key) (y : Call) → IsServing x → IsServing (step x y)
  unfolding step
  step-IsServing x (requests frame target limit now) v =
      request-IsServing aead x v frame target limit now
  step-IsServing x (responds c p t) v = response-IsServing x c p t v

  pub run-IsServing : (x : Context Key) (ys : List Call) → IsServing x → IsServing (run x ys)
  unfolding run
  run-IsServing x [] v = v
  run-IsServing x (y ∷ ys) v = run-IsServing (step x y) ys (step-IsServing x y v)
