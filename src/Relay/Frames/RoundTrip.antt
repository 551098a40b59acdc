-- ===== src/Relay/Frames/RoundTrip.antt =====
-- The two halves of the codec.
use threadbase_streamer.Prelude.{
  ℕ, ◌≤◌, ◌<◌, ◌≡◌, refl, List, ◌∷◌, ◌++◌, some, length, length-append, lt→ltb, arith,
}
use threadbase_streamer.E2ee.Bytes.{
  be_bytes, length-be_bytes, be_value-be_bytes, take-append_length, drop-append_length,
}
use threadbase_streamer.Relay.Frames.{
  FrameType, frame, encode_frame, decode_frame, typed, type_byte, type_of, code, type_open,
  type_head, type_data, type_end, type_reset, type_window,
}

type_of-code : (ty : FrameType) → type_of (code ty) ≡ some ty
type_of-code type_open = refl
type_of-code type_head = refl
type_of-code type_data = refl
type_of-code type_end = refl
type_of-code type_reset = refl
type_of-code type_window = refl

-- A frame whose payload has at most 64 KiB and whose stream number has 32 bits is encoded, and
-- decoding gives back its type, its stream and its payload.
pub decode_frame-encode_frame :
    (ty : FrameType) (stream_id : ℕ) (payload : List ℕ)
    → stream_id < 4294967296
    → length payload ≤ 65536
    → (bytes : List ℕ) × (encode_frame ty stream_id payload ≡ frame bytes)
      × (decode_frame bytes
          ≡ frame (record { frame_type = ty; stream_id = stream_id; payload = payload }))
unfolding encode_frame decode_frame typed type_byte
decode_frame-encode_frame ty stream_id payload hs hp =
    let id = be_bytes 4 stream_id in
    (
      (code ty ∷ id) ++ payload,
      ground (arith, lt→ltb stream_id 4294967296 hs),
      ground (
        arith,
        type_of-code ty,
        length-append id payload,
        length-be_bytes 4 stream_id,
        take-append_length 4 id payload (length-be_bytes 4 stream_id),
        drop-append_length 4 id payload (length-be_bytes 4 stream_id),
        be_value-be_bytes 4 stream_id hs,
      ),
    )
