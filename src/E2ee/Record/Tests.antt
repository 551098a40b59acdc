-- ===== src/E2ee/Record/Tests.antt =====
-- The record layer on concrete frames, over a toy cipher that meets the assumptions.
use threadbase_streamer.Prelude.{
  ℕ, ◌≡◌, ◌+◌, refl, List, [], ◌∷◌, none, some, arith, replicate, if◌then◌else◌,
}
use threadbase_streamer.E2ee.Protocol.{ok, err, sequence_violation}
use threadbase_streamer.E2ee.Record.{
  Aead, RecordState, header_of, equals, unseal, direction_s2c, channel_ws,
}
use threadbase_streamer.E2ee.Record.Framing.{IsFramed, equals_refl}
use threadbase_streamer.E2ee.Record.State.{IsAead, next, frame_of, unseal-frame_of}
use threadbase_streamer.E2ee.Record.Strict.{Accepted, unseal-Accepted, unseal_replay}
use threadbase_streamer.E2ee.Record.Stream.{seal_all, unseal_all, unseal_all-seal_all}
use threadbase_streamer.E2ee.Record.Frames.{UnderDistinct}
use threadbase_streamer.E2ee.Record.Nonces.{frames, frames-UnderDistinct}

-- The key is the tag's every byte, and the body is the plaintext.
abbrev pub toy : Aead ℕ
toy = record {
  encrypt = λ k nonce aad p. (p, replicate 16 k);
  decrypt = λ k nonce aad body tag. if equals tag (replicate 16 k) then some body else none;
}

pub toy-IsAead : IsAead toy
toy-IsAead = record {
  opens = λ k nonce aad p. rw (equals_refl (replicate 16 k)) refl;
  tag_length = λ k nonce aad p. refl;
  body_length = λ k nonce aad p. refl;
}

abbrev server : RecordState ℕ
server = record {
  key = 7;
  ctx_id = replicate 16 5;
  direction = direction_s2c;
  channel = channel_ws;
  counter = 0;
}

server-IsFramed : IsFramed (header_of server)
server-IsFramed = record { handle = refl; direction_fits = omega arith; counter_fits = omega arith }

abbrev hello : List ℕ
hello = 104 ∷ 105 ∷ []

opened : unseal toy server (frame_of toy server hello none) none ≡ ok (hello, next toy server)
opened =
    unseal-frame_of toy server hello none server-IsFramed refl toy-IsAead (omega arith)
      (omega arith)

unseal-Accepted_example : Accepted toy server (frame_of toy server hello none) (next toy server)
unseal-Accepted_example =
    unseal-Accepted toy server (frame_of toy server hello none) none hello (next toy server) opened

unseal_replay_example :
    unseal toy (record server { counter = 0 + 1 + 4 }) (frame_of toy server hello none) none
    ≡ err sequence_violation
unseal_replay_example =
    unseal_replay toy server (frame_of toy server hello none) none hello (next toy server) 4 opened

unseal_all-seal_all_example :
    (fs : List (List ℕ)) × (s' : RecordState ℕ) × (seal_all toy server (hello ∷ [] ∷ []) none
      ≡ ok (fs, s'))
    × (unseal_all toy server fs none ≡ ok (hello ∷ [] ∷ [], s'))
    × (s'.counter ≡ 0 + 2)
unseal_all-seal_all_example =
    unseal_all-seal_all toy toy-IsAead server (hello ∷ [] ∷ []) none server-IsFramed refl
      (omega arith, (omega arith, tt)) (omega arith)

-- The second call throws, since the socket's channel takes no target.
frames-UnderDistinct_example :
    UnderDistinct toy 7 (frames toy server ((hello, none) ∷ (hello, some []) ∷ (hello, none) ∷ []))
frames-UnderDistinct_example =
    frames-UnderDistinct toy server ((hello, none) ∷ (hello, some []) ∷ (hello, none) ∷ [])
