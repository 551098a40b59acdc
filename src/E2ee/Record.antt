-- ===== src/E2ee/Record.antt =====
-- src/e2ee/record.ts: the framing of sealed records and the strict record state of a socket.
-- ChaCha20-Poly1305 is node's `crypto` and enters as a parameter. A byte is a number, a `Buffer` a
-- list of bytes, and a direction or a channel the number that goes on the wire.
pub mod Framing
pub mod State
pub mod Strict
pub mod Stream
pub mod Frames
pub mod Nonces
pub mod Sealer
pub mod Tests
use threadbase_streamer.Prelude.{
  ℕ, ◌+◌, ◌-◌, ◌^◌, ◌≡◌, List, [], ◌∷◌, ◌++◌, Option, none, some, Bool, true, false, ◌&&◌, ◌||◌,
  ltb, leb, ◌==◌, length, take, drop, if◌then◌else◌,
}
use threadbase_streamer.E2ee.Protocol.{
  Result, ok, err, RejectionCode, ctx_unknown, sequence_violation, seal_failed, require, ◌>>=◌,
  ◌>>◌,
}
use threadbase_streamer.E2ee.Bytes.{be_bytes, be_value, subarray}
use threadbase_streamer.E2ee.RestWindow.{max_counter}

abbrev pub protocol_version : ℕ
protocol_version = 1

abbrev pub direction_c2s : ℕ
direction_c2s = 1

abbrev pub direction_s2c : ℕ
direction_s2c = 2

abbrev pub channel_ws : ℕ
channel_ws = 1

abbrev pub channel_rest_request : ℕ
channel_rest_request = 2

abbrev pub channel_rest_response : ℕ
channel_rest_response = 3

abbrev pub ctx_id_bytes : ℕ
ctx_id_bytes = 16

abbrev pub tag_bytes : ℕ
tag_bytes = 16

abbrev pub header_bytes : ℕ
header_bytes = 30

abbrev pub target_hash_bytes : ℕ
target_hash_bytes = 32

abbrev pub max_record_bytes : ℕ
max_record_bytes = 4194304

-- `chacha20-poly1305` with a key, a nonce and the additional data: the body and the tag of a
-- plaintext, and the plaintext of a body if its tag is right.
pub record Aead (Key : Type 0) : Type 0 where
  pub encrypt : Key → List ℕ → List ℕ → List ℕ → List ℕ × List ℕ
  pub decrypt : Key → List ℕ → List ℕ → List ℕ → List ℕ → Option (List ℕ)

pub record RecordHeader : Type 0 where
  pub version : ℕ
  pub ctx_id : List ℕ
  pub direction : ℕ
  pub counter : ℕ
  pub channel : ℕ

-- `recordNonce`. Its writers throw where a number does not fit; `record_header`, which `seal_with`
-- writes first, refuses such a number, and `open_with` is given what was read from 4 and 8 bytes.
unfoldable pub record_nonce : ℕ → ℕ → List ℕ
record_nonce direction counter = be_bytes 4 direction ++ be_bytes 8 counter

-- `recordHeader`: the handle must be 16 bytes long, and the direction and the counter must fit
-- their 4 and 8 bytes. The `RangeError` of a writer is reported as `seal_failed`.
unfoldable pub record_header : RecordHeader → Result (List ℕ)
record_header h = do
  require (length h.ctx_id == ctx_id_bytes) seal_failed
  require (ltb h.direction (256 ^ 4)) seal_failed
  require (ltb h.counter (256 ^ 8)) seal_failed
  ok (
      h.version
      ∷ (h.ctx_id ++ (be_bytes 4 h.direction ++ (be_bytes 8 h.counter ++ h.channel ∷ []))))

abbrev pub channel_binds_target : ℕ → Bool
channel_binds_target channel = channel == channel_rest_request || channel == channel_rest_response

-- `validateTarget`: a REST channel wants a hash of 32 bytes, the socket's takes none.
abbrev pub is_valid_target : ℕ → Option (List ℕ) → Bool
is_valid_target channel none = if channel_binds_target channel then false else true
is_valid_target channel (some target) =
    if channel_binds_target channel then length target == target_hash_bytes else false

abbrev pub with_target : List ℕ → Option (List ℕ) → List ℕ
with_target wire none = wire
with_target wire (some target) = wire ++ target

-- `recordAad`.
unfoldable pub record_aad : RecordHeader → Option (List ℕ) → Result (List ℕ)
record_aad h target = do
  require (is_valid_target h.channel target) seal_failed
  wire ← record_header h
  ok (with_target wire target)

unfoldable pub equals : List ℕ → List ℕ → Bool
equals [] [] = true
equals [] (y ∷ ys) = false
equals (x ∷ xs) [] = false
equals (x ∷ xs) (y ∷ ys) = x == y && equals xs ys

-- The fields that a frame's first 30 bytes carry.
abbrev pub read_version : List ℕ → ℕ
read_version frame = be_value (subarray frame 0 1)

abbrev pub read_ctx_id : List ℕ → List ℕ
read_ctx_id frame = subarray frame 1 17

abbrev pub read_direction : List ℕ → ℕ
read_direction frame = be_value (subarray frame 17 21)

abbrev pub read_counter : List ℕ → ℕ
read_counter frame = be_value (subarray frame 21 29)

abbrev pub read_channel : List ℕ → ℕ
read_channel frame = be_value (subarray frame 29 30)

-- The header that `openWith` puts together again for the additional data.
abbrev pub read_header : List ℕ → RecordHeader
read_header frame = record {
  version = read_version frame;
  ctx_id = read_ctx_id frame;
  direction = read_direction frame;
  counter = read_counter frame;
  channel = read_channel frame;
}

-- A tag that does not fit is `E2EE_SEAL_FAILED`.
abbrev pub authentic : Option (List ℕ) → Result (List ℕ)
authentic none = err seal_failed
authentic (some plaintext) = ok plaintext

-- The additional data of a frame that is opened.
abbrev pub aad_of : List ℕ → Option (List ℕ) → Result (List ℕ)
aad_of frame none = ok (subarray frame 0 header_bytes)
aad_of frame (some target) = record_aad (read_header frame) (some target)

module _ {Key : Type 0} (aead : Aead Key) where
  -- `sealWith`: header, body and tag.
  unfoldable pub seal_with : Key → RecordHeader → List ℕ → Option (List ℕ) → Result (List ℕ)
  seal_with key h plaintext target = do
    header ← record_header h
    aad ← record_aad h target
    let sealed = aead.encrypt key (record_nonce h.direction h.counter) aad plaintext
    ok (header ++ (sealed.0 ++ sealed.1))

  -- `openWith`: authenticate and decrypt.
  unfoldable pub open_with : Key → ℕ → ℕ → List ℕ → Option (List ℕ) → Result (List ℕ)
  open_with key direction counter frame target = do
    let body = subarray frame header_bytes (length frame - tag_bytes)
    let tag = drop (length frame - tag_bytes) frame
    aad ← aad_of frame target
    authentic (aead.decrypt key (record_nonce direction counter) aad body tag)

pub record RecordState (Key : Type 0) : Type 0 where
  pub key : Key
  pub ctx_id : List ℕ
  pub direction : ℕ
  pub channel : ℕ
  pub counter : ℕ

abbrev first_counter : Option ℕ → ℕ
first_counter none = 0
first_counter (some n) = n

module _ {Key : Type 0} where
  -- `new RecordState(…)`: the handle must be 16 bytes long, and the counter starts at 0 unless
  -- another start is given.
  unfoldable pub create : Key → List ℕ → ℕ → ℕ → Option ℕ → Result (RecordState Key)
  create key ctx_id direction channel initial = do
    require (length ctx_id == ctx_id_bytes) seal_failed
    ok (record {
      key = key;
      ctx_id = ctx_id;
      direction = direction;
      channel = channel;
      counter = first_counter initial;
    })

  abbrev pub header_of : RecordState Key → RecordHeader
  header_of s = record {
    version = protocol_version;
    ctx_id = s.ctx_id;
    direction = s.direction;
    counter = s.counter;
    channel = s.channel;
  }

module _ {Key : Type 0} (aead : Aead Key) where
  -- `seal`: the frame and the state with the next counter.
  unfoldable pub seal :
      RecordState Key → List ℕ → Option (List ℕ) → Result (List ℕ × RecordState Key)
  seal s plaintext target = do
    require (is_valid_target s.channel target) seal_failed
    require (ltb s.counter max_counter) seal_failed
    frame ← seal_with aead s.key (header_of s) plaintext target
    ok (frame, record s { counter = s.counter + 1 })

  -- `openFrame`: every check in order, then the plaintext and the frame's counter.
  unfoldable pub open_frame : RecordState Key → List ℕ → Option (List ℕ) → ℕ → Result (List ℕ × ℕ)
  open_frame s frame target max_frame_bytes = do
    require (is_valid_target s.channel target) seal_failed
    require (leb (header_bytes + tag_bytes) (length frame)) seal_failed
    require (leb (length frame) max_frame_bytes) seal_failed
    require (read_version frame == protocol_version) seal_failed
    require (equals (read_ctx_id frame) s.ctx_id) ctx_unknown
    require (read_direction frame == s.direction) seal_failed
    require (read_channel frame == s.channel) seal_failed
    plaintext ← open_with aead s.key s.direction (read_counter frame) frame target
    ok (plaintext, read_counter frame)

  -- `unseal`: the strict receiver, which takes the expected counter and no other.
  unfoldable pub unseal :
      RecordState Key → List ℕ → Option (List ℕ) → Result (List ℕ × RecordState Key)
  unseal s frame target = do
    opened ← open_frame s frame target max_record_bytes
    require (opened.1 == s.counter) sequence_violation
    ok (opened.0, record s { counter = s.counter + 1 })

  -- `unsealUnchecked`: the REST request channel's, with the counter handed to the window.
  unfoldable pub unseal_unchecked : RecordState Key → List ℕ → List ℕ → ℕ → Result (List ℕ × ℕ)
  unseal_unchecked s frame target max_frame_bytes = do
    require (s.channel == channel_rest_request) seal_failed
    open_frame s frame (some target) max_frame_bytes
