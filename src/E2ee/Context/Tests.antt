-- ===== src/E2ee/Context/Tests.antt =====
-- A REST context on a concrete request, sent by a client that counts from 0.
use threadbase_streamer.Prelude.{ℕ, ◌≡◌, refl, List, [], ◌∷◌, none, some, true, replicate}
use threadbase_streamer.Prelude.Int.{pos, negsuc}
use threadbase_streamer.E2ee.Protocol.{ok, err, RejectionCode, sequence_violation}
use threadbase_streamer.E2ee.Bytes.{be_bytes, be_value}
use threadbase_streamer.E2ee.Bitmap.{test, mark, clear, blank, slide, clear_from}
use threadbase_streamer.E2ee.RestWindow
use threadbase_streamer.E2ee.RestWindow.{RestReceiveWindow, after}
use threadbase_streamer.E2ee.Record
use threadbase_streamer.E2ee.Record.{
  Aead, RecordState, header_of, max_record_bytes, direction_c2s, channel_rest_request,
}
use threadbase_streamer.E2ee.Record.State.{frame_of}
use threadbase_streamer.E2ee.Record.Sealer
use threadbase_streamer.E2ee.Record.Tests.{toy}
use threadbase_streamer.E2ee.Context.{
  Context, rest, TrafficKeys, create, unseal_request, seal_response,
}
use threadbase_streamer.E2ee.Context.History.{Call, requests, responds, run, step}
use threadbase_streamer.E2ee.Context.Answers.{
  Admissible, request_accepted, request_replayed, response_once,
}

abbrev raw : List ℕ
raw = replicate 16 5

abbrev keys : TrafficKeys ℕ
keys = record { client_to_server = 3; server_to_client = 4 }

abbrev client : ℕ → RecordState ℕ
client n = record {
  key = 3;
  ctx_id = raw;
  direction = direction_c2s;
  channel = channel_rest_request;
  counter = n;
}

abbrev target : List ℕ
target = replicate 32 9

abbrev frame : ℕ → List ℕ
frame n = frame_of toy (client n) (1 ∷ 2 ∷ []) (some target)

runs : Unit {0}
unfolding create Record.create Sealer.create unseal_request Record.unseal_unchecked
    Record.open_frame Record.open_with Record.record_nonce Record.record_header Record.record_aad
    Record.equals be_bytes be_value RestWindow.init RestWindow.admit Sealer.accept
    Sealer.is_answered Sealer.advance_to test mark clear blank slide clear_from run step
    seal_response Sealer.seal Sealer.spend Sealer.mark_answered
runs = tt

abbrev start : Context ℕ
start = record {
  ctx_id = "BQUFBQUFBQUFBQUFBQUFBQ";
  ctx_id_raw = raw;
  device_id = "phone";
  kind = rest;
  created_at = 100;
  expires_at = 30100;
  provisional = true;
  retire_at = none;
  send = [];
  receive = (channel_rest_request, record (client 0) { counter = 0 }) ∷ [];
  responses = some (record {
    key = 4;
    ctx_id = raw;
    outstanding = [];
    answered_bits = unfold blank in blank;
    accepted_high_water = negsuc 0;
  });
  window = some RestWindow.init;
}

made : create "BQUFBQUFBQUFBQUFBQUFBQ" raw "phone" rest keys 100 ≡ ok start
unfolding runs
made = refl

-- Request 4 comes first and is answered; request 2 comes late.
abbrev history : List Call
history = requests (frame 4) target max_record_bytes 110 ∷ responds 4 (3 ∷ []) target ∷ []

abbrev window_at : RestReceiveWindow
window_at = after RestWindow.init (RestWindow.admit RestWindow.init (pos 4))

late : Admissible toy (run toy start history) (frame 2) target max_record_bytes (1 ∷ 2 ∷ []) 2
unfolding runs
late = record {
  state = client 0;
  seen = window_at;
  moved = after window_at (RestWindow.admit window_at (pos 2));
  receive = refl;
  window = refl;
  authentic = refl;
  admitted = refl;
}

request_accepted_example :
    (unseal_request toy (run toy start history) (frame 2) target max_record_bytes 120).1
    ≡ ok (1 ∷ 2 ∷ [])
request_accepted_example =
    request_accepted toy "BQUFBQUFBQUFBQUFBQUFBQ" raw "phone" keys 100 start made history (frame 2)
      target max_record_bytes 120 (1 ∷ 2 ∷ []) 2 late

request_replayed_example :
    (unseal_request toy
      (unseal_request toy (run toy start history) (frame 2) target max_record_bytes 120).0
      (frame 2)
      target
      max_record_bytes
      130).1
    ≡ err sequence_violation
request_replayed_example =
    request_replayed toy "BQUFBQUFBQUFBQUFBQUFBQ" raw "phone" keys 100 start made history (frame 2)
      target max_record_bytes 120 (1 ∷ 2 ∷ []) 2 late 130

response_once_example :
    let x = (unseal_request toy (run toy start history) (frame 2) target max_record_bytes 120).0 in
    let answer = seal_response toy x 2 (8 ∷ []) target in
    ((f : List ℕ) × (answer.1 ≡ ok f))
    × ((e : RejectionCode) × ((seal_response toy answer.0 2 (9 ∷ []) target).1 ≡ err e))
response_once_example =
    response_once toy "BQUFBQUFBQUFBQUFBQUFBQ" raw "phone" keys 100 start made history (frame 2)
      target max_record_bytes 120 (1 ∷ 2 ∷ []) 2 late (8 ∷ []) (9 ∷ []) target refl
