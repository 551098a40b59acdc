-- ===== src/E2ee/Noise/Tests.antt =====
-- The handshakes over a toy group: a key is a number, a secret their product, and the cipher shows
-- its plaintext.
use native.Mathlib.Nat.{mul_comm}
use threadbase_streamer.Prelude.{
  ℕ, ◌*◌, refl, ap, List, [], ◌∷◌, none, some, arith, replicate, get_or, if◌then◌else◌,
}
use threadbase_streamer.E2ee.Record.{equals}
use threadbase_streamer.E2ee.Record.Framing.{equals_refl}
use threadbase_streamer.E2ee.Noise.{
  NoiseCrypto, key_pair_from, protocol_name_for, noise_protocol_name, pair_prologue,
}
use threadbase_streamer.E2ee.Noise.Handshake.{Terms}
use threadbase_streamer.E2ee.Noise.Agreement.{IsNoiseCrypto, Completed, handshake-Completed}
use threadbase_streamer.E2ee.Noise.Patterns.{IsBound, respond-IsBound}

abbrev toy : NoiseCrypto ℕ ℕ
toy = record {
  sha256 = λ bytes. replicate 32 1;
  hkdf = λ ikm salt n. replicate n (get_or ikm 0 0);
  aead = record {
    encrypt = λ k nonce aad p. (p, replicate 16 (get_or k 0 0));
    decrypt = λ k nonce aad body tag.
        if equals tag (replicate 16 (get_or k 0 0)) then some body else none;
  };
  diffie_hellman = λ a b. some (a * b ∷ []);
  public_of = λ k. k;
  raw_public_key = λ p. replicate 32 p;
  import_public = λ bytes. some (get_or bytes 0 0);
}

toy-IsNoiseCrypto : IsNoiseCrypto toy
toy-IsNoiseCrypto = record {
  sealed = record {
    opens = λ k nonce aad p. rw (equals_refl (replicate 16 (get_or k 0 0))) refl;
    tag_length = λ k nonce aad p. refl;
    body_length = λ k nonce aad p. refl;
  };
  raw_length = λ p. refl;
  imported = λ p. refl;
  shares = λ a b. (a * b ∷ [], refl, ap (λ (n : ℕ). some (n ∷ [])) (mul_comm b a));
}

abbrev pairing : Terms
pairing = record { pattern = none; psk = some (replicate 32 9); prologue = some pair_prologue }

abbrev reply : List ℕ → List ℕ → List ℕ
reply remote payload = 4 ∷ payload

handshake-Completed_example :
    Completed toy toy-IsNoiseCrypto 2 3 5 11 pairing pair_prologue
      (1 ∷ 2 ∷ [])
      noise_protocol_name
      reply
unfolding protocol_name_for
handshake-Completed_example =
    handshake-Completed toy toy-IsNoiseCrypto 2 3 5 11 pairing pair_prologue (1 ∷ 2 ∷ [])
      noise_protocol_name reply refl refl (omega arith) (omega arith)

abbrev message1 : List ℕ
message1 = handshake-Completed_example.message1

respond-IsBound_example : IsBound pairing message1
respond-IsBound_example =
    respond-IsBound toy pairing (key_pair_from toy 3) (key_pair_from toy 11) message1 reply _
      handshake-Completed_example.answered
