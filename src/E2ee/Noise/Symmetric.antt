-- ===== src/E2ee/Noise/Symmetric.antt =====
-- `CipherState` and `SymmetricState` of src/e2ee/noise.ts.
use mathlib.Core.List.{reverse}
use threadbase_streamer.Prelude.{
  ℕ, ◌+◌, ◌-◌, ◌*◌, List, [], ◌++◌, Option, none, some, Bool, true, false, String, length, take,
  drop, ltb, leb, replicate, if◌then◌else◌,
}
use threadbase_streamer.E2ee.Bytes.{be_bytes, subarray}
use threadbase_streamer.E2ee.Record.{Aead}
use threadbase_streamer.E2ee.Noise.{
  NoiseCrypto, Outcome, done, thrown, ◌>>◌, assert, defined, hash_len, tag_len, utf8,
  ciphertext_too_short, decryption_failed, crypto_failed,
}

-- 2^64, from which on the nonce cannot be written.
abbrev pub nonce_end : ℕ
nonce_end = 18446744073709551616

-- `chachaNonce`: 4 zero bytes and the number, the lowest byte first.
pub chacha_nonce : ℕ → List ℕ
chacha_nonce n = replicate 4 0 ++ reverse (be_bytes 8 n)

pub record CipherState : Type 0 where
  pub k : Option (List ℕ)
  pub n : ℕ

-- `initializeKey`.
abbrev pub initialize_key : Option (List ℕ) → CipherState
initialize_key key = record { k = key; n = 0 }

pub has_key : CipherState → Bool
has_key c = elim c.k [ none ↦ false | some key ↦ true ]

-- What a call returns or throws, and the state it leaves.
abbrev advanced : CipherState → Outcome (List ℕ) → Outcome (List ℕ) × CipherState
advanced c (done out) = (done out, record c { n = c.n + 1 })
advanced c (thrown error) = (thrown error, c)

module _ (aead : Aead (List ℕ)) where
  abbrev encrypt_under : List ℕ → ℕ → List ℕ → List ℕ → Outcome (List ℕ)
  encrypt_under key n ad plaintext = do
    assert (ltb n nonce_end) crypto_failed
    let sealed = aead.encrypt key (chacha_nonce n) ad plaintext
    done (sealed.0 ++ sealed.1)

  abbrev decrypt_under : List ℕ → ℕ → List ℕ → List ℕ → Outcome (List ℕ)
  decrypt_under key n ad ciphertext = do
    assert (leb tag_len (length ciphertext)) ciphertext_too_short
    assert (ltb n nonce_end) crypto_failed
    defined decryption_failed (
        aead.decrypt key (chacha_nonce n) ad (take (length ciphertext - tag_len) ciphertext)
          (drop (length ciphertext - tag_len) ciphertext))

  -- `encryptWithAd` and `decryptWithAd`: without a key the text passes as it is.
  unfoldable pub encrypt_with_ad : CipherState → List ℕ → List ℕ → Outcome (List ℕ) × CipherState
  encrypt_with_ad c ad plaintext = elim c.k [
    | none ↦ (done plaintext, c)
    | some key ↦ advanced c (encrypt_under key c.n ad plaintext)
  ]

  unfoldable pub decrypt_with_ad : CipherState → List ℕ → List ℕ → Outcome (List ℕ) × CipherState
  decrypt_with_ad c ad ciphertext = elim c.k [
    | none ↦ (done ciphertext, c)
    | some key ↦ advanced c (decrypt_under key c.n ad ciphertext)
  ]

pub record SymmetricState : Type 0 where
  pub ck : List ℕ
  pub h : List ℕ
  pub cipher : CipherState

-- A handshake whose step throws is over, so the state that a throw leaves is not kept.
abbrev hashed :
    Outcome (List ℕ) × CipherState
    → (List ℕ → CipherState → SymmetricState)
    → Outcome (List ℕ × SymmetricState)
hashed (thrown error, c) next = thrown error
hashed (done out, c) next = done (out, next out c)

module _ {PrivateKey PublicKey : Type 0} (crypto : NoiseCrypto PrivateKey PublicKey) where
  -- `new SymmetricState(protocolName)`.
  pub new_symmetric_state : String → SymmetricState
  new_symmetric_state protocol_name =
      let name = utf8 protocol_name in
      let h =
        (if leb (length name) hash_len
          then name ++ replicate (hash_len - length name) 0
          else crypto.sha256 name) in
      record { ck = h; h = h; cipher = initialize_key none }

  -- The `i`th of the `outputs` keys of 32 bytes that `hkdf` derives.
  abbrev pub hkdf_output : SymmetricState → List ℕ → ℕ → ℕ → List ℕ
  hkdf_output s ikm outputs i =
      subarray (crypto.hkdf ikm s.ck (hash_len * outputs)) (i * hash_len) ((i + 1) * hash_len)

  unfoldable pub mix_key : SymmetricState → List ℕ → SymmetricState
  mix_key s ikm = record s {
    ck = hkdf_output s ikm 2 0;
    cipher = initialize_key (some (hkdf_output s ikm 2 1));
  }

  pub mix_hash : SymmetricState → List ℕ → SymmetricState
  mix_hash s bytes = record s { h = crypto.sha256 (s.h ++ bytes) }

  unfoldable pub mix_key_and_hash : SymmetricState → List ℕ → SymmetricState
  unfolding mix_hash
  mix_key_and_hash s ikm = record (mix_hash s (hkdf_output s ikm 3 1)) {
    ck = hkdf_output s ikm 3 0;
    cipher = initialize_key (some (hkdf_output s ikm 3 2));
  }

  -- The ciphertext is hashed on both sides.
  unfoldable pub encrypt_and_hash : SymmetricState → List ℕ → Outcome (List ℕ × SymmetricState)
  encrypt_and_hash s plaintext =
      hashed (encrypt_with_ad crypto.aead s.cipher s.h plaintext)
        (λ ciphertext c. mix_hash (record s { cipher = c }) ciphertext)

  unfoldable pub decrypt_and_hash : SymmetricState → List ℕ → Outcome (List ℕ × SymmetricState)
  decrypt_and_hash s ciphertext =
      hashed (decrypt_with_ad crypto.aead s.cipher s.h ciphertext)
        (λ plaintext c. mix_hash (record s { cipher = c }) ciphertext)

  -- `split`: the two keys of the two directions.
  pub split : SymmetricState → List ℕ × List ℕ
  split s = (hkdf_output s [] 2 0, hkdf_output s [] 2 1)
