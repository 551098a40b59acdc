-- ===== src/E2ee/Record/Frames.antt =====
-- Frames and the nonces that the cipher was given for them.
use threadbase_streamer.Prelude.{
  ℕ, ◌^◌, ◌<◌, ◌≡◌, ◌≢◌, refl, sym, ap, subst, ◌∙◌, List, [], ◌∷◌, ◌++◌, Option, true, arith,
  length, drop, All,
}
use threadbase_streamer.E2ee.Protocol.{ok}
use threadbase_streamer.E2ee.Bytes.{
  be_bytes, be_value, length-be_bytes, be_value-be_bytes, drop-append_length,
}
use threadbase_streamer.E2ee.Record.{
  Aead, RecordHeader, record_header, record_aad, is_valid_target, with_target, read_direction,
  read_counter, record_nonce, seal_with, header_bytes,
}
use threadbase_streamer.E2ee.Record.Framing.{
  IsFramed, wire, length-wire, read_header-wire, record_header-wire,
}

-- Nonces of one direction differ where the counters do.
pub record_nonce-injective :
    (direction c d : ℕ)
    → c < 256 ^ 8
    → d < 256 ^ 8
    → record_nonce direction c ≡ record_nonce direction d
    → c ≡ d
unfolding record_nonce
record_nonce-injective direction c d hc hd e =
    sym (counter_of c hc) ∙ ap (λ n. be_value (drop 4 n)) e ∙ counter_of d hd
  where
    counter_of :
        (n : ℕ) → n < 256 ^ 8 → be_value (drop 4 (be_bytes 4 direction ++ be_bytes 8 n)) ≡ n
    counter_of n h =
        ap be_value
          (drop-append_length 4 (be_bytes 4 direction) (be_bytes 8 n) (length-be_bytes 4 direction))
        ∙ be_value-be_bytes 8 n h

-- The nonce that a receiver takes for a frame: its header carries the direction and the counter.
abbrev pub nonce_of : List ℕ → List ℕ
nonce_of frame = record_nonce (read_direction frame) (read_counter frame)

module _ {Key : Type 0} (aead : Aead Key) where
  -- A 30-byte header, then what the cipher made of a plaintext under this key and nonce.
  pub record IsUnder (key : Key) (nonce frame : List ℕ) : Type 0 where
    pub header : List ℕ
    pub aad : List ℕ
    pub plaintext : List ℕ
    pub header_size : length header ≡ header_bytes
    pub layout :
        frame
        ≡ header
          ++ ((aead.encrypt key nonce aad plaintext).0 ++ (aead.encrypt key nonce aad plaintext).1)

  -- Every frame was encrypted under the nonce that its header tells, and no two under one nonce.
  abbrev pub UnderDistinct : Key → List (List ℕ) → Type 0
  UnderDistinct key [] = Unit
  UnderDistinct key (f ∷ fs) =
      IsUnder key (nonce_of f) f × All (λ g. nonce_of f ≢ nonce_of g) fs × UnderDistinct key fs

  -- What a frame from `seal_with` tells of its header.
  pub record IsSealed (key : Key) (h : RecordHeader) (f : List ℕ) : Type 0 where
    pub framed : IsFramed h
    pub nonce : nonce_of f ≡ record_nonce h.direction h.counter
    pub under : IsUnder key (nonce_of f) f

  seal_with-checks :
      (key : Key) (h : RecordHeader) (p : List ℕ) (t : Option (List ℕ)) {f : List ℕ}
      → seal_with aead key h p t ≡ ok f
      → (is_valid_target h.channel t ≡ true) × IsFramed h
  unfolding seal_with record_header record_aad
  seal_with-checks key h p t e = (
    ground arith,
    record { handle = ground arith; direction_fits = ground arith; counter_fits = ground arith },
  )

  seal_with-frame :
      (key : Key) (h : RecordHeader) (p : List ℕ) (t : Option (List ℕ))
      → is_valid_target h.channel t ≡ true
      → IsFramed h
      → let made =
          aead.encrypt key (record_nonce h.direction h.counter) (with_target (wire h) t) p in
        seal_with aead key h p t ≡ ok (wire h ++ (made.0 ++ made.1))
  unfolding seal_with record_aad
  seal_with-frame key h p t valid f = rw (valid, record_header-wire h f) refl

  pub seal_with-IsSealed :
      (key : Key) (h : RecordHeader) (p : List ℕ) (t : Option (List ℕ)) (f : List ℕ)
      → seal_with aead key h p t ≡ ok f
      → IsSealed key h f
  seal_with-IsSealed key h p t f e = subst (IsSealed key h) same (record {
    framed = framed;
    nonce = told;
    under = record {
      header = wire h;
      aad = with_target (wire h) t;
      plaintext = p;
      header_size = length-wire h framed;
      layout = rw told refl;
    };
  })
    where
      framed : IsFramed h
      framed = (seal_with-checks key h p t e).1

      made : List ℕ × List ℕ
      made = aead.encrypt key (record_nonce h.direction h.counter) (with_target (wire h) t) p

      same : wire h ++ (made.0 ++ made.1) ≡ f
      same = ground (arith, e, seal_with-frame key h p t (seal_with-checks key h p t e).0 framed)

      told : nonce_of (wire h ++ (made.0 ++ made.1)) ≡ record_nonce h.direction h.counter
      told =
          ap (λ (r : RecordHeader). record_nonce r.direction r.counter)
            (read_header-wire h framed _)
