-- ===== src/E2ee/Record/Strict.antt =====
-- The strict receiver of a socket (`RecordState.unseal`): which frames it takes, and that it never
-- takes one again.
use threadbase_streamer.Prelude.{ℕ, ◌+◌, ◌≡◌, ◌≢◌, refl, List, Option, arith}
use threadbase_streamer.E2ee.Protocol.{ok, err, sequence_violation}
use threadbase_streamer.E2ee.Record.{
  Aead, RecordState, read_ctx_id, read_direction, read_channel, read_counter, open_frame, unseal,
  max_record_bytes,
}
use threadbase_streamer.E2ee.Record.Framing.{eq_of_equals}
use threadbase_streamer.E2ee.Record.State.{next}

module _ {Key : Type 0} (aead : Aead Key) where
  -- What an accepted frame shows: it carries the context, the direction, the channel and the
  -- counter that the receiver expects, and the receiver moves on by one.
  pub record Accepted (s : RecordState Key) (frame : List ℕ) (s' : RecordState Key) : Type 0 where
    pub ctx_id : read_ctx_id frame ≡ s.ctx_id
    pub direction : read_direction frame ≡ s.direction
    pub channel : read_channel frame ≡ s.channel
    pub counter : read_counter frame ≡ s.counter
    pub moved : s' ≡ next aead s

  open_frame-eq-ok :
      (s : RecordState Key) (frame : List ℕ) (target : Option (List ℕ)) (limit : ℕ) {p : List ℕ}
      {c : ℕ}
      → open_frame aead s frame target limit ≡ ok (p, c)
      → (read_ctx_id frame ≡ s.ctx_id)
        × (read_direction frame ≡ s.direction)
        × (read_channel frame ≡ s.channel)
        × (read_counter frame ≡ c)
  unfolding open_frame
  open_frame-eq-ok s frame target limit h =
      (eq_of_equals _ _ (ground arith), ground arith, ground arith, ground arith)

  unseal-eq-ok :
      (s : RecordState Key) (frame : List ℕ) (target : Option (List ℕ)) {p : List ℕ}
      {s' : RecordState Key}
      → unseal aead s frame target ≡ ok (p, s')
      → (open_frame aead s frame target max_record_bytes ≡ ok (p, s.counter)) × (s' ≡ next aead s)
  unfolding unseal
  unseal-eq-ok s frame target h = ground arith

  -- The strict receiver accepts a frame only if it carries the receiver's own context, direction,
  -- channel and expected counter, and it then expects the next counter.
  pub unseal-Accepted :
      (s : RecordState Key) (frame : List ℕ) (target : Option (List ℕ)) (p : List ℕ)
      (s' : RecordState Key)
      → unseal aead s frame target ≡ ok (p, s')
      → Accepted s frame s'
  unseal-Accepted s frame target p s' h =
      let (opened, moved) = unseal-eq-ok s frame target h in
      let (c, d, ch, n) = open_frame-eq-ok s frame target max_record_bytes opened in
      record { ctx_id = c; direction = d; channel = ch; counter = n; moved = moved }

  -- The checks of a frame do not look at the receiver's counter.
  open_frame_counter :
      (s : RecordState Key) (m : ℕ) (frame : List ℕ) (target : Option (List ℕ)) (limit : ℕ)
      → open_frame aead (record s { counter = m }) frame target limit
        ≡ open_frame aead s frame target limit
  unfolding open_frame
  open_frame_counter s m frame target limit = refl

  unseal_unexpected :
      (s : RecordState Key) (m : ℕ) (frame : List ℕ) (target : Option (List ℕ)) (p : List ℕ) (c : ℕ)
      → open_frame aead s frame target max_record_bytes ≡ ok (p, c)
      → c ≢ m
      → unseal aead (record s { counter = m }) frame target ≡ err sequence_violation
  unfolding unseal
  unseal_unexpected s m frame target p c opened h =
      rw (open_frame_counter s m frame target max_record_bytes) (rw opened (ground arith))

  -- A frame that the strict receiver has accepted is refused as a sequence violation for good:
  -- right after, and after any number `n` of further records.
  pub unseal_replay :
      (s : RecordState Key) (frame : List ℕ) (target : Option (List ℕ)) (p : List ℕ)
      (s' : RecordState Key) (n : ℕ)
      → unseal aead s frame target ≡ ok (p, s')
      → unseal aead (record s' { counter = s'.counter + n }) frame target ≡ err sequence_violation
  unseal_replay s frame target p s' n h =
      let (opened, moved) = unseal-eq-ok s frame target h in
      rw moved
        (unseal_unexpected s (s.counter + 1 + n) frame target p s.counter opened (omega arith))
