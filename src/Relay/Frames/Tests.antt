-- ===== src/Relay/Frames/Tests.antt =====
-- One frame, there and back.
use threadbase_streamer.Prelude.{ℕ, ◌≡◌, List, [], ◌∷◌, arith}
use threadbase_streamer.Relay.Frames.{frame, type_data, encode_frame, decode_frame}
use threadbase_streamer.Relay.Frames.RoundTrip.{decode_frame-encode_frame}

decode_frame-encode_frame_example :
    (bytes : List ℕ) × (encode_frame type_data 258 (7 ∷ 8 ∷ []) ≡ frame bytes)
    × (decode_frame bytes
        ≡ frame (record { frame_type = type_data; stream_id = 258; payload = 7 ∷ 8 ∷ [] }))
decode_frame-encode_frame_example =
    decode_frame-encode_frame type_data 258 (7 ∷ 8 ∷ []) (omega arith) (omega arith)
