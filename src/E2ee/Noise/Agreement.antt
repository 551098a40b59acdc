-- ===== src/E2ee/Noise/Agreement.antt =====
-- The two sides of a handshake end with the same keys.
use threadbase_streamer.Prelude.{
  ℕ, ◌+◌, ◌-◌, ◌≤◌, ◌≡◌, refl, ap, ◌∙◌, List, ◌++◌, some, String, str_eq, arith, length, take, drop,
  length-append, drop-drop, take-append_length, drop-append_length, Bool-cases, Option-cases, inl,
  inr,
}
use threadbase_streamer.E2ee.Record.State.{IsAead}
use threadbase_streamer.E2ee.Noise.{
  NoiseCrypto, done, KeyPair, key_pair_from, public_key_from_raw, protocol_name_for, pattern_of,
}
use threadbase_streamer.E2ee.Noise.Symmetric.{
  SymmetricState, initialize_key, new_symmetric_state, mix_hash, mix_key, mix_key_and_hash,
  encrypt_with_ad, decrypt_with_ad, encrypt_and_hash, decrypt_and_hash, chacha_nonce,
}
use threadbase_streamer.E2ee.Noise.Steps.{
  started_lem, write_message1_lem, read_message1_lem, write_message2_lem, read_message2_lem,
}
use threadbase_streamer.E2ee.Noise.Handshake.{
  Terms, InitiatorState, ResponderState, HandshakeKeys, dh, mix_ephemeral, mix_psk, finish,
  write_message1, read_message2, read_message1, respond,
}

-- What the handshake relies on: the cipher opens what it sealed, a raw public key has 32 bytes and is
-- imported back, and two honest key pairs share a secret.
pub record IsNoiseCrypto {PrivateKey PublicKey : Type 0} (crypto : NoiseCrypto PrivateKey PublicKey)
    : Type 0 where
  pub sealed : IsAead crypto.aead
  pub raw_length : (p : PublicKey) → length (crypto.raw_public_key p) ≡ 32
  pub imported : (p : PublicKey) → crypto.import_public (crypto.raw_public_key p) ≡ some p
  pub shares :
      (a b : PrivateKey)
      → (secret : List ℕ) × (crypto.diffie_hellman a (crypto.public_of b) ≡ some secret)
        × (crypto.diffie_hellman b (crypto.public_of a) ≡ some secret)

module _ {PrivateKey PublicKey : Type 0} (crypto : NoiseCrypto PrivateKey PublicKey)
    (ok : IsNoiseCrypto crypto) where
  -- A text sealed under a new key, as the other side opens it: both sides go on in one state.
  record Sealed (s : SymmetricState) (plaintext : List ℕ) : Type 0 where
    ciphertext : List ℕ
    next : SymmetricState
    encrypted : encrypt_and_hash crypto s plaintext ≡ done (ciphertext, next)
    decrypted : decrypt_and_hash crypto s ciphertext ≡ done (plaintext, next)
    size : length ciphertext ≡ length plaintext + 16

  seal_keyed :
      (s : SymmetricState) (key plaintext : List ℕ)
      → s.cipher ≡ initialize_key (some key)
      → Sealed s plaintext
  unfolding encrypt_and_hash decrypt_and_hash encrypt_with_ad decrypt_with_ad
  seal_keyed s key plaintext e =
      let sealed = crypto.aead.encrypt key (chacha_nonce 0) s.h plaintext in
      let body = ok.sealed.body_length key (chacha_nonce 0) s.h plaintext in
      let tag = ok.sealed.tag_length key (chacha_nonce 0) s.h plaintext in
      let whole : length (sealed.0 ++ sealed.1) ≡ length plaintext + 16 =
        omega (arith, length-append sealed.0 sealed.1) in
      record {
        ciphertext = sealed.0 ++ sealed.1;
        next =
            mix_hash crypto (record s { cipher = record { k = some key; n = 1 } })
              (sealed.0 ++ sealed.1);
        encrypted = ground arith;
        decrypted = ground (
          arith,
          take-append_length (length (sealed.0 ++ sealed.1) - 16) sealed.0 sealed.1 (omega arith),
          drop-append_length (length (sealed.0 ++ sealed.1) - 16) sealed.0 sealed.1 (omega arith),
          ok.sealed.opens key (chacha_nonce 0) s.h plaintext,
        );
        size = whole;
      }

  seal_mixed :
      (s : SymmetricState) (ikm plaintext : List ℕ) → Sealed (mix_key crypto s ikm) plaintext
  unfolding mix_key
  seal_mixed s ikm plaintext = seal_keyed (mix_key crypto s ikm) _ plaintext refl

  -- The token `psk` goes through where the protocol's name does, and leaves a new key.
  record Mixed (terms : Terms) (s : SymmetricState) : Type 0 where
    next : SymmetricState
    key : List ℕ
    mixed : mix_psk crypto terms s ≡ done next
    keyed : next.cipher ≡ initialize_key (some key)

  psk-Mixed :
      (terms : Terms) (s : SymmetricState) (ikm : List ℕ) (name : String)
      → protocol_name_for (pattern_of terms.pattern) terms.psk ≡ done name
      → Mixed terms (mix_key crypto s ikm)
  unfolding mix_psk protocol_name_for mix_key mix_key_and_hash
  psk-Mixed terms s ikm name h = elim (Bool-cases (str_eq (pattern_of terms.pattern) "IKpsk1")) [
    | inl strong ↦ elim (Option-cases terms.psk) [
      | inl absent ↦ absurd (ground arith)
      | inr (psk, e) ↦ record {
        next = mix_key_and_hash crypto (mix_key crypto s ikm) psk;
        key = _;
        mixed = ground arith;
        keyed = refl;
      }
    ]
    | inr weak ↦ record { next = mix_key crypto s ikm; key = _; mixed = rw weak; keyed = refl }
  ]

  raw_imported : (p : PublicKey) → public_key_from_raw crypto (crypto.raw_public_key p) ≡ done p
  unfolding public_key_from_raw
  raw_imported p = ground (arith, ok.raw_length p, ok.imported p)

  shared :
      (a b : PrivateKey)
      → (secret : List ℕ) × (dh crypto a (crypto.public_of b) ≡ done secret)
        × (dh crypto b (crypto.public_of a) ≡ done secret)
  shared a b = let (secret, one, two) = ok.shares a b in (secret, rw one, rw two)

  module _ (i r ei er : PrivateKey) (terms : Terms) (prologue payload : List ℕ) (name : String)
      (build_payload : List ℕ → List ℕ → List ℕ) where
    abbrev pair : PrivateKey → KeyPair PrivateKey PublicKey
    pair k = key_pair_from crypto k

    abbrev raw : PrivateKey → List ℕ
    raw k = crypto.raw_public_key (crypto.public_of k)

    -- Both messages are written and read, the responder has learned the initiator's key and payload,
    -- the initiator has the reply, and both have the same keys.
    pub record Completed : Type 0 where
      pub message1 : List ℕ
      pub initiator : InitiatorState PrivateKey PublicKey
      pub message2 : List ℕ
      pub keys : HandshakeKeys
      pub written :
          write_message1 crypto terms (pair i) (raw r) payload (pair ei)
          ≡ done (message1, initiator)
      pub answered :
          respond crypto terms (pair r) message1 build_payload (pair er)
          ≡ done (record {
            initiator_static_pub = raw i;
            payload = payload;
            message2 = message2;
            keys = keys;
          })
      pub finished :
          read_message2 crypto initiator message2 ≡ done (build_payload (raw i) payload, keys)

    abbrev s0 : SymmetricState
    s0 = mix_hash crypto (new_symmetric_state crypto name) prologue

    -- What message 1 seals, and the state behind it.
    record First : Type 0 where
      message : List ℕ
      next : SymmetricState
      written :
          write_message1 crypto terms (pair i) (raw r) payload (pair ei)
          ≡ done
              (message, record { symmetric = next; ephemeral = pair ei; static_key_pair = pair i })
      read :
          read_message1 crypto terms (pair r) message
          ≡ done (record {
            symmetric = next;
            initiator_static_pub = raw i;
            payload = payload;
            initiator_ephemeral = crypto.public_of ei;
            initiator_static = crypto.public_of i;
          })

    module _ (named : protocol_name_for (pattern_of terms.pattern) terms.psk ≡ done name)
        (given : terms.prologue ≡ some prologue) (short : length payload ≤ 4000) where
      first_agrees : First
      first_agrees =
          let s1 = mix_ephemeral crypto (mix_hash crypto s0 (raw r)) (raw ei) in
          let (es, es_i, es_r) = shared ei r in
          let (ss, ss_i, ss_r) = shared i r in
          let a = seal_mixed s1 es (raw i) in
          let m = psk-Mixed terms a.next ss name named in
          let b = seal_keyed m.next m.key payload m.keyed in
          let n_e = ok.raw_length (crypto.public_of ei) in
          let n_i = ok.raw_length (crypto.public_of i) in
          let message = raw ei ++ (a.ciphertext ++ b.ciphertext) in
          let size : length message ≡ length payload + 96 = omega (
            arith,
            length-append (raw ei) (a.ciphertext ++ b.ciphertext),
            length-append a.ciphertext b.ciphertext,
            a.size,
            b.size,
          ) in
          let begun = started_lem crypto terms name prologue named given in
          let rest = drop-append_length 32 (raw ei) (a.ciphertext ++ b.ciphertext) n_e in
          record {
            message = message;
            next = b.next;
            written =
                write_message1_lem crypto terms (pair i) (pair ei) (raw r) payload es ss
                  a.ciphertext b.ciphertext (crypto.public_of r) s0 a.next m.next b.next begun
                  (raw_imported (crypto.public_of r)) es_i a.encrypted ss_i m.mixed b.encrypted;
            read =
                read_message1_lem crypto terms (pair r) (pair ei) message (raw ei) a.ciphertext
                  b.ciphertext es ss (raw i) payload (crypto.public_of ei) (crypto.public_of i) s0
                  a.next m.next b.next (ground arith, ground arith)
                  (take-append_length 32 (raw ei) (a.ciphertext ++ b.ciphertext) n_e)
                  (ap (take 48) rest
                    ∙ take-append_length 48 a.ciphertext b.ciphertext (omega (arith, a.size)))
                  (drop-drop 32 48 message
                    ∙ (ap (drop 48) rest
                        ∙ drop-append_length 48 a.ciphertext b.ciphertext (omega (arith, a.size))))
                  begun (raw_imported (crypto.public_of ei)) es_r a.decrypted
                  (raw_imported (crypto.public_of i)) ss_r m.mixed b.decrypted;
          }

      -- With a coherent pattern and psk, a prologue on both sides and texts that fit, an honest
      -- handshake completes.
      pub handshake-Completed : length (build_payload (raw i) payload) ≤ 4048 → Completed
      unfolding respond
      handshake-Completed fits =
          let first = first_agrees in
          let reply = build_payload (raw i) payload in
          let (ee, ee_r, ee_i) = shared er ei in
          let (se, se_r, se_i) = shared er i in
          let s1 = mix_ephemeral crypto first.next (raw er) in
          let c = seal_mixed (mix_key crypto s1 ee) se reply in
          let n_e = ok.raw_length (crypto.public_of er) in
          let message2 = raw er ++ c.ciphertext in
          let keys = finish crypto c.next in
          let answering : ResponderState PrivateKey PublicKey = record {
            symmetric = first.next;
            initiator_static_pub = raw i;
            payload = payload;
            initiator_ephemeral = crypto.public_of ei;
            initiator_static = crypto.public_of i;
          } in
          let size : length message2 ≡ length reply + 48 =
            omega (arith, length-append (raw er) c.ciphertext, c.size) in
          record {
            message1 = first.message;
            initiator = record {
              symmetric = first.next;
              ephemeral = pair ei;
              static_key_pair = pair i;
            };
            message2 = message2;
            keys = keys;
            written = first.written;
            answered = rw (
              first.read,
              write_message2_lem crypto (pair er) answering reply ee se c.ciphertext c.next ee_r
                  se_r c.encrypted,
            );
            finished =
                read_message2_lem crypto _ message2 (raw er) c.ciphertext ee se reply
                  (crypto.public_of er) c.next (ground arith, ground arith)
                  (take-append_length 32 (raw er) c.ciphertext n_e)
                  (drop-append_length 32 (raw er) c.ciphertext n_e)
                  (raw_imported (crypto.public_of er)) ee_i se_i c.decrypted;
          }
