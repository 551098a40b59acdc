-- ===== src/E2ee/Record/State.antt =====
-- The record state of a socket: what is sealed is opened in order, and nothing is opened twice.
use threadbase_streamer.Prelude.{
  ℕ, ◌+◌, ◌-◌, ◌≤◌, ◌<◌, ◌≡◌, refl, ap, ◌∙◌, List, ◌++◌, Option, none, some, true, lt→ltb, arith,
  length, drop,
}
use threadbase_streamer.E2ee.Protocol.{ok}
use threadbase_streamer.E2ee.Bytes.{subarray}
use threadbase_streamer.E2ee.RestWindow.{max_counter}
use threadbase_streamer.E2ee.Record.{
  Aead, RecordState, header_of, record_aad, with_target, is_valid_target, read_header, record_nonce,
  seal_with, open_with, seal, open_frame, unseal, header_bytes, tag_bytes, max_record_bytes, aad_of,
}
use threadbase_streamer.E2ee.Record.Framing.{
  IsFramed, wire, equals_refl, record_header-wire, read_header-wire, header-wire, body-frame,
  tag-frame, length-frame,
}

-- What the code relies on of ChaCha20-Poly1305: it opens what it sealed, the tag has 16 bytes, and
-- the body is as long as the plaintext.
pub record IsAead {Key : Type 0} (aead : Aead Key) : Type 0 where
  pub opens :
      (k : Key) (nonce aad p : List ℕ)
      → aead.decrypt k nonce aad (aead.encrypt k nonce aad p).0 (aead.encrypt k nonce aad p).1
        ≡ some p
  pub tag_length : (k : Key) (nonce aad p : List ℕ) → length (aead.encrypt k nonce aad p).1 ≡ 16
  pub body_length :
      (k : Key) (nonce aad p : List ℕ) → length (aead.encrypt k nonce aad p).0 ≡ length p

module _ {Key : Type 0} (aead : Aead Key) where
  -- The frame that `seal` returns when no check fails.
  abbrev pub frame_of : RecordState Key → List ℕ → Option (List ℕ) → List ℕ
  frame_of s p target =
      let sealed =
        aead.encrypt s.key (record_nonce s.direction s.counter)
          (with_target (wire (header_of s)) target) p in
      wire (header_of s) ++ (sealed.0 ++ sealed.1)

  abbrev pub next : RecordState Key → RecordState Key
  next s = record s { counter = s.counter + 1 }

  open_with_of_parts :
      (k : Key) (direction counter : ℕ) (frame : List ℕ) (target : Option (List ℕ))
      (body tag aad p : List ℕ)
      → subarray frame header_bytes (length frame - tag_bytes) ≡ body
      → drop (length frame - tag_bytes) frame ≡ tag
      → aad_of frame target ≡ ok aad
      → aead.decrypt k (record_nonce direction counter) aad body tag ≡ some p
      → open_with aead k direction counter frame target ≡ ok p
  unfolding open_with
  open_with_of_parts k direction counter frame target body tag aad p b t e d = rw (e, b, t, d)

  open_frame_of_parts :
      (s : RecordState Key) (frame : List ℕ) (target : Option (List ℕ)) (p : List ℕ) (limit : ℕ)
      → is_valid_target s.channel target ≡ true
      → header_bytes + tag_bytes ≤ length frame
      → length frame ≤ limit
      → read_header frame ≡ header_of s
      → open_with aead s.key s.direction s.counter frame target ≡ ok p
      → open_frame aead s frame target limit ≡ ok (p, s.counter)
  unfolding open_frame
  open_frame_of_parts s frame target p limit valid low high e o =
      ground (arith, valid, o, e, equals_refl s.ctx_id)

  module _ (s : RecordState Key) (p : List ℕ) (target : Option (List ℕ))
      (f : IsFramed (header_of s)) (valid : is_valid_target s.channel target ≡ true) where
    record_aad-wire : record_aad (header_of s) target ≡ ok (with_target (wire (header_of s)) target)
    unfolding record_aad
    record_aad-wire = rw valid (rw (record_header-wire (header_of s) f))

    pub seal-frame_of :
        s.counter < max_counter → seal aead s p target ≡ ok (frame_of s p target, next s)
    unfolding seal seal_with
    seal-frame_of h =
        rw (valid, lt→ltb s.counter max_counter h)
          (rw (record_header-wire (header_of s) f) (rw record_aad-wire refl))

    aad_of-frame :
        (rest : List ℕ)
        → aad_of (wire (header_of s) ++ rest) target ≡ ok (with_target (wire (header_of s)) target)
    aad_of-frame rest = aad_of_cases target record_aad-wire
      where
        aad_of_cases :
            (t : Option (List ℕ))
            → record_aad (header_of s) t ≡ ok (with_target (wire (header_of s)) t)
            → aad_of (wire (header_of s) ++ rest) t ≡ ok (with_target (wire (header_of s)) t)
        aad_of_cases none e = ap ok (header-wire (header_of s) f rest)
        aad_of_cases (some t) e =
            ap (λ h. record_aad h (some t)) (read_header-wire (header_of s) f rest) ∙ e

    open_with-frame_of :
        IsAead aead → open_with aead s.key s.direction s.counter (frame_of s p target) target ≡ ok p
    open_with-frame_of a =
        open_with_of_parts _ _ _ _ _ _ _ _ p (body-frame (header_of s) f _ _ (a.tag_length _ _ _ _))
          (tag-frame (header_of s) f _ _ (a.tag_length _ _ _ _)) (aad_of-frame _)
          (a.opens s.key _ _ p)

    -- The receiver in the sender's state opens the frame and moves on with the sender.
    pub unseal-frame_of :
        IsAead aead
        → s.counter < max_counter
        → length p + header_bytes + tag_bytes ≤ max_record_bytes
        → unseal aead s (frame_of s p target) target ≡ ok (p, next s)
    unfolding unseal open_frame
    unseal-frame_of a h k =
        rw
          (open_frame_of_parts s (frame_of s p target) target p max_record_bytes valid
            (omega (arith, size)) (omega (arith, size, a.body_length s.key nonce aad p))
            (read_header-wire (header_of s) f _) (open_with-frame_of a))
          (ground arith)
      where
        nonce : List ℕ
        nonce = record_nonce s.direction s.counter

        aad : List ℕ
        aad = with_target (wire (header_of s)) target

        size :
            length (frame_of s p target)
            ≡ header_bytes + length (aead.encrypt s.key nonce aad p).0 + tag_bytes
        size = length-frame (header_of s) f _ _ (a.tag_length _ _ _ _)

    pub next-IsFramed : s.counter < max_counter → IsFramed (header_of (next s))
    next-IsFramed h = record {
      handle = f.handle;
      direction_fits = f.direction_fits;
      counter_fits = omega arith;
    }
