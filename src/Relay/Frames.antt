-- ===== src/Relay/Frames.antt =====
-- src/relay/frames.ts: the frame codec of the tunnel. The header writers of a Node `Buffer` throw
-- for a number that does not fit; the error is `out_of_range`.
pub mod RoundTrip
pub mod Tests
use threadbase_streamer.Prelude.{
  ℕ, ◌+◌, List, [], ◌∷◌, ◌++◌, Option, none, some, Bool, true, false, ltb, ◌==◌, length, drop,
  if◌then◌else◌,
}
use threadbase_streamer.E2ee.Bytes.{be_bytes, be_value, subarray}

pub data FrameType : Type 0 where
  type_open type_head type_data type_end type_reset type_window : FrameType

abbrev pub code : FrameType → ℕ
code type_open = 1
code type_head = 2
code type_data = 3
code type_end = 4
code type_reset = 5
code type_window = 6

abbrev pub type_of : ℕ → Option FrameType
type_of b =
    if b == 1
    then some type_open
    else if b == 2
    then some type_head
    else if b == 3
    then some type_data
    else if b == 4
    then some type_end
    else if b == 5
    then some type_reset
    else if b == 6
    then some type_window
    else none

abbrev pub frame_header_bytes : ℕ
frame_header_bytes = 5

abbrev pub max_frame_payload_bytes : ℕ
max_frame_payload_bytes = 65536

abbrev pub max_frame_bytes : ℕ
max_frame_bytes = 65541

pub record Frame : Type 0 where
  pub frame_type : FrameType
  pub stream_id : ℕ
  pub payload : List ℕ

pub data FrameError : Type 0 where
  payload_too_large too_short too_large unknown_type out_of_range : FrameError

pub data FrameResult (A : Type 0) : Type 0 where
  frame : A → FrameResult A
  error : FrameError → FrameResult A

unfoldable pub encode_frame : FrameType → ℕ → List ℕ → FrameResult (List ℕ)
encode_frame ty stream_id payload =
    if ltb max_frame_payload_bytes (length payload)
    then error payload_too_large
    else if ltb stream_id 4294967296
    then frame ((code ty ∷ be_bytes 4 stream_id) ++ payload)
    else error out_of_range

typed : Option FrameType → List ℕ → FrameResult Frame
typed none bytes = error unknown_type
typed (some ty) bytes = frame (record {
  frame_type = ty;
  stream_id = be_value (subarray bytes 1 5);
  payload = drop frame_header_bytes bytes;
})

type_byte : List ℕ → Option FrameType
type_byte [] = none
type_byte (b ∷ bytes) = type_of b

unfoldable pub decode_frame : List ℕ → FrameResult Frame
unfolding typed type_byte
decode_frame bytes =
    if ltb (length bytes) frame_header_bytes
    then error too_short
    else if ltb max_frame_bytes (length bytes)
    then error too_large
    else typed (type_byte bytes) bytes
