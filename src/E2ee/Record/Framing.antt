-- ===== src/E2ee/Record/Framing.antt =====
-- The 30-byte header: its layout, and a frame read back.
use mathlib.Core.List.{append_assoc}
use threadbase_streamer.Prelude.{
  ℕ, ◌+◌, ◌-◌, ◌^◌, ◌<◌, ◌≡◌, refl, ap, ◌∙◌, List, [], ◌∷◌, ◌++◌, Option, true, ==_iff, lt→ltb,
  arith, length, drop, length-append,
}
use threadbase_streamer.E2ee.Protocol.{ok}
use threadbase_streamer.E2ee.Bytes.{
  be_bytes, be_value, subarray, length-be_bytes, be_value-be_bytes, take-append_length,
  drop-append_length,
}
use threadbase_streamer.E2ee.Record.{
  Aead, seal_with, RecordHeader, record_header, record_aad, with_target, is_valid_target, equals,
  read_ctx_id, read_direction, read_counter, read_channel, read_header, record_nonce, header_bytes,
  tag_bytes,
}

one_byte : (v : ℕ) → be_value (v ∷ []) ≡ v
unfolding be_value
one_byte v = omega arith

-- Every field fits its place in the header.
pub record IsFramed (h : RecordHeader) : Type 0 where
  pub handle : length h.ctx_id ≡ 16
  pub direction_fits : h.direction < 256 ^ 4
  pub counter_fits : h.counter < 256 ^ 8

abbrev pub wire : RecordHeader → List ℕ
wire h =
    h.version ∷ (h.ctx_id ++ (be_bytes 4 h.direction ++ (be_bytes 8 h.counter ++ h.channel ∷ [])))

subarray-middle :
    (xs ys zs : List ℕ) (from to : ℕ)
    → length xs ≡ from
    → from + length ys ≡ to
    → subarray (xs ++ (ys ++ zs)) from to ≡ ys
subarray-middle xs ys zs from to h k =
    rw (drop-append_length from xs (ys ++ zs) h)
      (take-append_length (to - from) ys zs (omega arith))

drop-last : (xs ys zs : List ℕ) (n : ℕ) → length xs + length ys ≡ n → drop n (xs ++ (ys ++ zs)) ≡ zs
drop-last xs ys zs n h =
    rw (← append_assoc) (drop-append_length n (xs ++ ys) zs (omega (arith, length-append xs ys)))

pub equals_refl : (xs : List ℕ) → equals xs xs ≡ true
unfolding equals
equals_refl [] = refl
equals_refl (x ∷ xs) = ground (arith, equals_refl xs)

pub eq_of_equals : (xs ys : List ℕ) → equals xs ys ≡ true → xs ≡ ys
unfolding equals
eq_of_equals [] [] h = refl
eq_of_equals [] (y ∷ ys) h = cc
eq_of_equals (x ∷ xs) [] h = cc
eq_of_equals (x ∷ xs) (y ∷ ys) h = ground (arith, eq_of_equals xs ys)

module _ (h : RecordHeader) (f : IsFramed h) where
  pub record_header-wire : record_header h ≡ ok (wire h)
  unfolding record_header
  record_header-wire =
      rw
        (
          (==_iff (length h.ctx_id) 16).1 f.handle,
          lt→ltb h.direction (256 ^ 4) f.direction_fits,
          lt→ltb h.counter (256 ^ 8) f.counter_fits,
        )
        refl

  pub length-wire : length (wire h) ≡ header_bytes
  length-wire = omega (
    arith,
    f.handle,
    length-append h.ctx_id (be_bytes 4 h.direction ++ (be_bytes 8 h.counter ++ h.channel ∷ [])),
    length-append (be_bytes 4 h.direction) (be_bytes 8 h.counter ++ h.channel ∷ []),
    length-append (be_bytes 8 h.counter) (h.channel ∷ []),
    length-be_bytes 4 h.direction,
    length-be_bytes 8 h.counter,
  )

  module _ (rest : List ℕ) where
    read_ctx_id-wire : read_ctx_id (wire h ++ rest) ≡ h.ctx_id
    read_ctx_id-wire =
        simp append_assoc
          (subarray-middle (h.version ∷ []) h.ctx_id _ 1 17 refl (omega (arith, f.handle)))

    read_direction-wire : read_direction (wire h ++ rest) ≡ h.direction
    read_direction-wire = simp append_assoc (
        ap be_value (
          subarray-middle (h.version ∷ h.ctx_id) (be_bytes 4 h.direction) _ 17 21
            (omega (arith, f.handle)) (omega (arith, length-be_bytes 4 h.direction)))
        ∙ be_value-be_bytes 4 h.direction f.direction_fits)

    read_counter-wire : read_counter (wire h ++ rest) ≡ h.counter
    read_counter-wire = simp append_assoc (
        ap be_value (
          simp append_assoc at (
            subarray-middle (h.version ∷ (h.ctx_id ++ be_bytes 4 h.direction))
              (be_bytes 8 h.counter) (h.channel ∷ rest) 21 29
              (omega (
                arith,
                f.handle,
                length-append h.ctx_id (be_bytes 4 h.direction),
                length-be_bytes 4 h.direction,
              ))
              (omega (arith, length-be_bytes 8 h.counter))))
        ∙ be_value-be_bytes 8 h.counter f.counter_fits)

    read_channel-wire : read_channel (wire h ++ rest) ≡ h.channel
    read_channel-wire = simp append_assoc (
        ap be_value (
          simp append_assoc at (
            subarray-middle
              (h.version ∷ (h.ctx_id ++ (be_bytes 4 h.direction ++ be_bytes 8 h.counter)))
              (h.channel ∷ []) rest 29 30
              (omega (
                arith,
                f.handle,
                length-append h.ctx_id (be_bytes 4 h.direction ++ be_bytes 8 h.counter),
                length-append (be_bytes 4 h.direction) (be_bytes 8 h.counter),
                length-be_bytes 4 h.direction,
                length-be_bytes 8 h.counter,
              ))
              refl))
        ∙ one_byte h.channel)

    pub header-wire : subarray (wire h ++ rest) 0 header_bytes ≡ wire h
    header-wire = take-append_length header_bytes (wire h) rest length-wire

    -- The header of a frame is read back field by field.
    pub read_header-wire : read_header (wire h ++ rest) ≡ h
    read_header-wire = λ i. record {
      version = one_byte h.version i;
      ctx_id = read_ctx_id-wire i;
      direction = read_direction-wire i;
      counter = read_counter-wire i;
      channel = read_channel-wire i;
    }

  -- The body and the tag of a frame.
  module _ (body tag : List ℕ) (t : length tag ≡ tag_bytes) where
    pub length-frame : length (wire h ++ (body ++ tag)) ≡ header_bytes + length body + tag_bytes
    length-frame =
        omega (arith, length-append (wire h) (body ++ tag), length-append body tag, length-wire)

    pub body-frame :
        subarray
          (wire h ++ (body ++ tag))
          header_bytes
          (length (wire h ++ (body ++ tag)) - tag_bytes)
        ≡ body
    body-frame =
        subarray-middle (wire h) body tag header_bytes _ length-wire (omega (arith, length-frame))

    pub tag-frame :
        drop (length (wire h ++ (body ++ tag)) - tag_bytes) (wire h ++ (body ++ tag)) ≡ tag
    tag-frame =
        drop-last (wire h) body tag _
          (omega (arith, length-append (wire h) (body ++ tag), length-append body tag, length-wire))

-- Sealing fails on no other ground than the header's fields and the target.
module _ {Key : Type 0} (aead : Aead Key) where
  pub seal_with-total :
      (key : Key) (h : RecordHeader) (p : List ℕ) (target : Option (List ℕ))
      → IsFramed h
      → is_valid_target h.channel target ≡ true
      → (f : List ℕ) × (seal_with aead key h p target ≡ ok f)
  unfolding seal_with record_aad
  seal_with-total key h p target f valid =
      let sealed =
        aead.encrypt key (record_nonce h.direction h.counter) (with_target (wire h) target) p in
      (wire h ++ (sealed.0 ++ sealed.1), rw (valid, record_header-wire h f) refl)
