-- ===== src/E2ee/Noise.antt =====
-- src/e2ee/noise.ts: the Noise handshakes IKpsk1 (pairing) and IK (opening a context). X25519,
-- SHA-256, HKDF and ChaCha20-Poly1305 are node's `crypto` and enter as a parameter.
pub mod Symmetric
pub mod Handshake
pub mod Steps
pub mod Agreement
pub mod Patterns
pub mod Tests
use Prim.Native.Char.{code}
use threadbase_streamer.Prelude.{
  ℕ, List, [], ◌∷◌, ◌++◌, Option, none, some, Bool, true, false, ◌==◌, String, str_eq, length, ltb,
  leb, if◌then◌else◌,
}
use threadbase_streamer.E2ee.Bytes.{subarray}
use threadbase_streamer.E2ee.Record.{Aead}

-- What a call may throw: a `NoiseError` for each of its messages, and the errors of `crypto`.
pub data NoiseError : Type 0 where
  prologue_required unknown_pattern psk_required psk_forbidden wrong_key_length invalid_key
        ciphertext_too_short decryption_failed already_consumed message_too_short message_too_large
        crypto_failed :
      NoiseError

pub data Outcome {ℓ} (Value : Type ℓ) : Type ℓ where
  done : Value → Outcome Value
  thrown : NoiseError → Outcome Value

infixl 5 ◌>>=◌
abbrev pub ◌>>=◌ {ℓ κ} :
    {Value : Type ℓ} {Next : Type κ} → Outcome Value → (Value → Outcome Next) → Outcome Next
thrown error >>= rest = thrown error
done value >>= rest = rest value

infixl 5 ◌>>◌
abbrev pub ◌>>◌ {κ} : {Next : Type κ} → Outcome (Unit {0}) → Outcome Next → Outcome Next
thrown error >> rest = thrown error
done value >> rest = rest

-- `if (!test) throw error`.
abbrev pub assert : Bool → NoiseError → Outcome (Unit {0})
assert true error = done tt
assert false error = thrown error

abbrev pub defined {ℓ} : {Value : Type ℓ} → NoiseError → Option Value → Outcome Value
defined error none = thrown error
defined error (some value) = done value

-- A key object of the other library is a value of `PrivateKey` or `PublicKey`; the import of a raw
-- public key and the Diffie-Hellman function may throw, as none. `hkdf` takes the key material, the
-- salt and the length, with an empty info.
pub record NoiseCrypto (PrivateKey PublicKey : Type 0) : Type 0 where
  pub sha256 : List ℕ → List ℕ
  pub hkdf : List ℕ → List ℕ → ℕ → List ℕ
  pub aead : Aead (List ℕ)
  pub diffie_hellman : PrivateKey → PublicKey → Option (List ℕ)
  pub public_of : PrivateKey → PublicKey
  pub raw_public_key : PublicKey → List ℕ
  pub import_public : List ℕ → Option PublicKey

abbrev pub dh_len : ℕ
dh_len = 32

abbrev pub hash_len : ℕ
hash_len = 32

abbrev pub tag_len : ℕ
tag_len = 16

abbrev pub noise_message_1_overhead : ℕ
noise_message_1_overhead = 96

abbrev pub noise_message_2_overhead : ℕ
noise_message_2_overhead = 48

abbrev pub noise_max_message_bytes : ℕ
noise_max_message_bytes = 4096

-- The bytes of an ASCII text.
abbrev pub utf8 : String → List ℕ
utf8 String.[] = []
utf8 (String.◌∷◌ c s) = code c ∷ utf8 s

abbrev pub noise_protocol_name : String
noise_protocol_name = "Noise_IKpsk1_25519_ChaChaPoly_SHA256"

abbrev pub noise_ik_protocol_name : String
noise_ik_protocol_name = "Noise_IK_25519_ChaChaPoly_SHA256"

abbrev pub pair_prologue : List ℕ
pair_prologue = utf8 "threadbase-e2ee/1 pair"

abbrev pub open_prologue : List ℕ
open_prologue = utf8 "threadbase-e2ee/1 open"

-- `isBytes(psk, HASHLEN)`.
abbrev is_psk : Option (List ℕ) → Bool
is_psk none = false
is_psk (some psk) = length psk == hash_len

abbrev is_absent : Option (List ℕ) → Bool
is_absent none = true
is_absent (some psk) = false

-- `protocolNameFor`: any text but the two is refused.
unfoldable pub protocol_name_for : String → Option (List ℕ) → Outcome String
protocol_name_for pattern psk =
    if str_eq pattern "IKpsk1"
    then (if is_psk psk then done noise_protocol_name else thrown psk_required)
    else if str_eq pattern "IK"
    then (if is_absent psk then done noise_ik_protocol_name else thrown psk_forbidden)
    else thrown unknown_pattern

-- `Object.hasOwn(args, "pattern") ? args.pattern : "IKpsk1"`.
abbrev pub pattern_of : Option String → String
pattern_of none = "IKpsk1"
pattern_of (some pattern) = pattern

-- `messageEphemeral`.
pub message_ephemeral : List ℕ → Option (List ℕ)
message_ephemeral message1 =
    if ltb (length message1) noise_message_1_overhead
    then none
    else some (subarray message1 0 dh_len)

-- `assertMessageSize`.
abbrev pub assert_message_size : List ℕ → ℕ → Outcome (Unit {0})
assert_message_size message minimum = do
  assert (leb minimum (length message)) message_too_short
  assert (leb (length message) noise_max_message_bytes) message_too_large

pub record KeyPair (PrivateKey PublicKey : Type 0) : Type 0 where
  pub public_key : PublicKey
  pub private_key : PrivateKey
  pub public_key_raw : List ℕ

module _ {PrivateKey PublicKey : Type 0} (crypto : NoiseCrypto PrivateKey PublicKey) where
  -- `keyPairFrom`.
  abbrev pub key_pair_from : PrivateKey → KeyPair PrivateKey PublicKey
  key_pair_from private_key = record {
    public_key = crypto.public_of private_key;
    private_key = private_key;
    public_key_raw = crypto.raw_public_key (crypto.public_of private_key);
  }

  -- `publicKeyFromRaw`.
  unfoldable pub public_key_from_raw : List ℕ → Outcome PublicKey
  public_key_from_raw raw = do
    assert (length raw == dh_len) wrong_key_length
    defined invalid_key (crypto.import_public raw)

  -- `pskFromPairToken`.
  pub psk_from_pair_token : List ℕ → List ℕ
  psk_from_pair_token token = crypto.sha256 (utf8 "threadbase-e2ee/1 psk" ++ token)
