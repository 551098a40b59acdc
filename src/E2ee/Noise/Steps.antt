-- ===== src/E2ee/Noise/Steps.antt =====
-- The messages of a handshake, from what each of their steps gives.
use threadbase_streamer.Prelude.{ℕ, ◌≡◌, List, ◌++◌, some, arith, String, length, drop, leb, true}
use threadbase_streamer.E2ee.Bytes.{subarray}
use threadbase_streamer.E2ee.Noise.{
  NoiseCrypto, done, KeyPair, public_key_from_raw, protocol_name_for, pattern_of,
  noise_message_1_overhead, noise_message_2_overhead, noise_max_message_bytes,
}
use threadbase_streamer.E2ee.Noise.Symmetric.{
  SymmetricState, new_symmetric_state, mix_hash, mix_key, encrypt_and_hash, decrypt_and_hash,
}
use threadbase_streamer.E2ee.Noise.Handshake.{
  Terms, InitiatorState, ResponderState, dh, started, mix_ephemeral, mix_psk, finish,
  write_message1, read_message2, read_message1, write_message2,
}

-- The size that `assertMessageSize` lets through.
abbrev pub Fits : List ℕ → ℕ → Type 0
Fits message minimum =
    (leb minimum (length message) ≡ true) × (leb (length message) noise_max_message_bytes ≡ true)

module _ {PrivateKey PublicKey : Type 0} (crypto : NoiseCrypto PrivateKey PublicKey) where
  pub started_lem :
      (terms : Terms) (name : String) (prologue : List ℕ)
      → protocol_name_for (pattern_of terms.pattern) terms.psk ≡ done name
      → terms.prologue ≡ some prologue
      → started crypto terms ≡ done (mix_hash crypto (new_symmetric_state crypto name) prologue)
  unfolding started
  started_lem terms name prologue h k = ground arith

  module _ (terms : Terms) (static_pair e : KeyPair PrivateKey PublicKey) where
    pub write_message1_lem :
        (remote payload es ss c c' : List ℕ) (rs : PublicKey) (s0 s1 s2 s3 : SymmetricState)
        → started crypto terms ≡ done s0
        → public_key_from_raw crypto remote ≡ done rs
        → dh crypto e.private_key rs ≡ done es
        → encrypt_and_hash crypto
            (mix_key crypto (mix_ephemeral crypto (mix_hash crypto s0 remote) e.public_key_raw) es)
            static_pair.public_key_raw
          ≡ done (c, s1)
        → dh crypto static_pair.private_key rs ≡ done ss
        → mix_psk crypto terms (mix_key crypto s1 ss) ≡ done s2
        → encrypt_and_hash crypto s2 payload ≡ done (c', s3)
        → write_message1 crypto terms static_pair remote payload e
          ≡ done (
            e.public_key_raw ++ (c ++ c'),
            record { symmetric = s3; ephemeral = e; static_key_pair = static_pair },
          )
    unfolding write_message1
    write_message1_lem remote payload es ss c c' rs s0 s1 s2 s3 h1 h2 h3 h4 h5 h6 h7 =
        rw (h1, h2, h3, h4, h5, h6, h7)

    pub read_message1_lem :
        (message raw c c' es ss pub_raw payload : List ℕ) (re rs : PublicKey)
        (s0 s1 s2 s3 : SymmetricState)
        → Fits message noise_message_1_overhead
        → subarray message 0 32 ≡ raw
        → subarray message 32 80 ≡ c
        → drop 80 message ≡ c'
        → started crypto terms ≡ done s0
        → public_key_from_raw crypto raw ≡ done re
        → dh crypto static_pair.private_key re ≡ done es
        → decrypt_and_hash crypto
            (mix_key crypto
              (mix_ephemeral crypto (mix_hash crypto s0 static_pair.public_key_raw) raw)
              es)
            c
          ≡ done (pub_raw, s1)
        → public_key_from_raw crypto pub_raw ≡ done rs
        → dh crypto static_pair.private_key rs ≡ done ss
        → mix_psk crypto terms (mix_key crypto s1 ss) ≡ done s2
        → decrypt_and_hash crypto s2 c' ≡ done (payload, s3)
        → read_message1 crypto terms static_pair message
          ≡ done (record {
            symmetric = s3;
            initiator_static_pub = pub_raw;
            payload = payload;
            initiator_ephemeral = re;
            initiator_static = rs;
          })
    unfolding read_message1
    read_message1_lem message raw c c' es ss pub_raw payload re rs s0 s1 s2 s3 (p, q) a1 a2 a3 h1 h2
          h3 h4 h5 h6 h7 h8 =
        rw (p, q, a1, a2, a3, h1, h2, h3, h4, h5, h6, h7, h8)

  module _ (e : KeyPair PrivateKey PublicKey) where
    pub write_message2_lem :
        (state : ResponderState PrivateKey PublicKey) (reply ee se c : List ℕ) (s1 : SymmetricState)
        → dh crypto e.private_key state.initiator_ephemeral ≡ done ee
        → dh crypto e.private_key state.initiator_static ≡ done se
        → encrypt_and_hash crypto
            (mix_key crypto
              (mix_key crypto (mix_ephemeral crypto state.symmetric e.public_key_raw) ee)
              se)
            reply
          ≡ done (c, s1)
        → write_message2 crypto state reply e ≡ done (e.public_key_raw ++ c, finish crypto s1)
    unfolding write_message2
    write_message2_lem state reply ee se c s1 h1 h2 h3 = rw (h1, h2, h3)

  pub read_message2_lem :
      (state : InitiatorState PrivateKey PublicKey) (message raw c ee se reply : List ℕ)
      (re : PublicKey) (s1 : SymmetricState)
      → Fits message noise_message_2_overhead
      → subarray message 0 32 ≡ raw
      → drop 32 message ≡ c
      → public_key_from_raw crypto raw ≡ done re
      → dh crypto state.ephemeral.private_key re ≡ done ee
      → dh crypto state.static_key_pair.private_key re ≡ done se
      → decrypt_and_hash crypto
          (mix_key crypto (mix_key crypto (mix_ephemeral crypto state.symmetric raw) ee) se)
          c
        ≡ done (reply, s1)
      → read_message2 crypto state message ≡ done (reply, finish crypto s1)
  unfolding read_message2
  read_message2_lem state message raw c ee se reply re s1 (p, q) a1 a2 h1 h2 h3 h4 =
      rw (p, q, a1, a2, h1, h2, h3, h4)
