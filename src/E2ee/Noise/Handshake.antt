-- ===== src/E2ee/Noise/Handshake.antt =====
-- The messages of the handshakes of src/e2ee/noise.ts, on both sides. A fresh ephemeral key pair is
-- an argument.
use threadbase_streamer.Prelude.{
  ℕ, List, ◌++◌, Option, none, some, String, str_eq, drop, if◌then◌else◌,
}
use threadbase_streamer.E2ee.Bytes.{subarray}
use threadbase_streamer.E2ee.Noise.{
  NoiseCrypto, Outcome, done, thrown, ◌>>=◌, ◌>>◌, defined, KeyPair, public_key_from_raw,
  protocol_name_for, pattern_of, assert_message_size, noise_message_1_overhead,
  noise_message_2_overhead, dh_len, prologue_required, psk_required, crypto_failed,
  already_consumed,
}
use threadbase_streamer.E2ee.Noise.Symmetric.{
  SymmetricState, new_symmetric_state, mix_hash, mix_key, mix_key_and_hash, encrypt_and_hash,
  decrypt_and_hash, split,
}

-- A key that was imported and its bytes wiped is the bytes themselves, until it is consumed.
pub record HandshakeKeys : Type 0 where
  pub client_to_server : Option (List ℕ)
  pub server_to_client : Option (List ℕ)
  pub handshake_hash : List ℕ

pub record TrafficKeys : Type 0 where
  pub client_to_server : List ℕ
  pub server_to_client : List ℕ
  pub handshake_hash : List ℕ

taken : HandshakeKeys → Option (List ℕ) → Option (List ℕ) → Outcome TrafficKeys × HandshakeKeys
taken keys (some c2s) (some s2c) = (
  done (record {
    client_to_server = c2s;
    server_to_client = s2c;
    handshake_hash = keys.handshake_hash;
  }),
  record keys { client_to_server = none; server_to_client = none },
)
taken keys _ _ = (thrown already_consumed, keys)

-- `consume`.
unfoldable pub consume : HandshakeKeys → Outcome TrafficKeys × HandshakeKeys
unfolding taken
consume keys = taken keys keys.client_to_server keys.server_to_client

-- The arguments of the two reading and writing calls that the sides share; an absent one is none.
pub record Terms : Type 0 where
  pub pattern : Option String
  pub psk : Option (List ℕ)
  pub prologue : Option (List ℕ)

module _ (PrivateKey PublicKey : Type 0) where
  pub record InitiatorState : Type 0 where
    pub symmetric : SymmetricState
    pub ephemeral : KeyPair PrivateKey PublicKey
    pub static_key_pair : KeyPair PrivateKey PublicKey

  pub record ResponderState : Type 0 where
    pub symmetric : SymmetricState
    pub initiator_static_pub : List ℕ
    pub payload : List ℕ
    pub initiator_ephemeral : PublicKey
    pub initiator_static : PublicKey

pub record ResponderResult : Type 0 where
  pub initiator_static_pub : List ℕ
  pub payload : List ℕ
  pub message2 : List ℕ
  pub keys : HandshakeKeys

module _ {PrivateKey PublicKey : Type 0} (crypto : NoiseCrypto PrivateKey PublicKey) where
  -- `dh`.
  abbrev pub dh : PrivateKey → PublicKey → Outcome (List ℕ)
  dh private_key public_key = defined crypto_failed (crypto.diffie_hellman private_key public_key)

  -- The state after the protocol's name and the prologue.
  unfoldable pub started : Terms → Outcome SymmetricState
  started terms = do
    name ← protocol_name_for (pattern_of terms.pattern) terms.psk
    prologue ← defined prologue_required terms.prologue
    done (mix_hash crypto (new_symmetric_state crypto name) prologue)

  -- The token `e`.
  abbrev pub mix_ephemeral : SymmetricState → List ℕ → SymmetricState
  mix_ephemeral s raw = mix_key crypto (mix_hash crypto s raw) raw

  mixed_psk : SymmetricState → Option (List ℕ) → Outcome SymmetricState
  mixed_psk s none = thrown psk_required
  mixed_psk s (some psk) = done (mix_key_and_hash crypto s psk)

  -- The token `psk`, which only the stronger pattern has.
  unfoldable pub mix_psk : Terms → SymmetricState → Outcome SymmetricState
  unfolding mixed_psk
  mix_psk terms s =
      if str_eq (pattern_of terms.pattern) "IKpsk1" then mixed_psk s terms.psk else done s

  -- `finish`.
  unfoldable pub finish : SymmetricState → HandshakeKeys
  finish s =
      let keys = split crypto s in
      record {
        client_to_server = some keys.0;
        server_to_client = some keys.1;
        handshake_hash = s.h;
      }

  -- `writeMessage1`.
  unfoldable pub write_message1 :
      Terms
      → KeyPair PrivateKey PublicKey
      → List ℕ
      → List ℕ
      → KeyPair PrivateKey PublicKey
      → Outcome (List ℕ × InitiatorState PrivateKey PublicKey)
  write_message1 terms static_pair responder_static_pub payload e = do
    s0 ← started terms
    rs ← public_key_from_raw crypto responder_static_pub
    let s1 = mix_ephemeral (mix_hash crypto s0 responder_static_pub) e.public_key_raw
    es ← dh e.private_key rs
    sealed ← encrypt_and_hash crypto (mix_key crypto s1 es) static_pair.public_key_raw
    ss ← dh static_pair.private_key rs
    s2 ← mix_psk terms (mix_key crypto sealed.1 ss)
    body ← encrypt_and_hash crypto s2 payload
    done (
      e.public_key_raw ++ (sealed.0 ++ body.0),
      record { symmetric = body.1; ephemeral = e; static_key_pair = static_pair },
    )

  -- `readMessage2`.
  unfoldable pub read_message2 :
      InitiatorState PrivateKey PublicKey → List ℕ → Outcome (List ℕ × HandshakeKeys)
  read_message2 state message = do
    assert_message_size message noise_message_2_overhead
    let raw = subarray message 0 dh_len
    re ← public_key_from_raw crypto raw
    ee ← dh state.ephemeral.private_key re
    se ← dh state.static_key_pair.private_key re
    let s1 = mix_key crypto (mix_key crypto (mix_ephemeral state.symmetric raw) ee) se
    opened ← decrypt_and_hash crypto s1 (drop dh_len message)
    done (opened.0, finish opened.1)

  -- `readMessage1`.
  unfoldable pub read_message1 :
      Terms → KeyPair PrivateKey PublicKey → List ℕ → Outcome (ResponderState PrivateKey PublicKey)
  read_message1 terms static_pair message1 = do
    assert_message_size message1 noise_message_1_overhead
    s0 ← started terms
    let raw = subarray message1 0 dh_len
    re ← public_key_from_raw crypto raw
    let s1 = mix_ephemeral (mix_hash crypto s0 static_pair.public_key_raw) raw
    es ← dh static_pair.private_key re
    opened ← decrypt_and_hash crypto (mix_key crypto s1 es) (subarray message1 32 80)
    rs ← public_key_from_raw crypto opened.0
    ss ← dh static_pair.private_key rs
    s2 ← mix_psk terms (mix_key crypto opened.1 ss)
    body ← decrypt_and_hash crypto s2 (drop 80 message1)
    done (record {
      symmetric = body.1;
      initiator_static_pub = opened.0;
      payload = body.0;
      initiator_ephemeral = re;
      initiator_static = rs;
    })

  -- `writeMessage2`.
  unfoldable pub write_message2 :
      ResponderState PrivateKey PublicKey
      → List ℕ
      → KeyPair PrivateKey PublicKey
      → Outcome (List ℕ × HandshakeKeys)
  write_message2 state response_payload e = do
    ee ← dh e.private_key state.initiator_ephemeral
    se ← dh e.private_key state.initiator_static
    let s1 = mix_key crypto (mix_key crypto (mix_ephemeral state.symmetric e.public_key_raw) ee) se
    sealed ← encrypt_and_hash crypto s1 response_payload
    done (e.public_key_raw ++ sealed.0, finish sealed.1)

  -- `respond`: the payload of message 2 is built from what message 1 authenticated.
  unfoldable pub respond :
      Terms
      → KeyPair PrivateKey PublicKey
      → List ℕ
      → (List ℕ → List ℕ → List ℕ)
      → KeyPair PrivateKey PublicKey
      → Outcome ResponderResult
  respond terms static_pair message1 build_payload e = do
    state ← read_message1 terms static_pair message1
    reply ← write_message2 state (build_payload state.initiator_static_pub state.payload) e
    done (record {
      initiator_static_pub = state.initiator_static_pub;
      payload = state.payload;
      message2 = reply.0;
      keys = reply.1;
    })
