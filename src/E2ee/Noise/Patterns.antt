-- ===== src/E2ee/Noise/Patterns.antt =====
-- A missing argument never selects the weaker handshake.
use threadbase_streamer.Prelude.{
  ℕ, ◌≡◌, ◌≤◌, ◌⊎◌, inl, inr, refl, List, Option, none, some, true, String, str_eq, arith, eq_iff,
  length, Bool-cases, Option-cases,
}
use threadbase_streamer.E2ee.Noise.{
  NoiseCrypto, Outcome, done, thrown, ◌>>=◌, ◌>>◌, defined, KeyPair, protocol_name_for, pattern_of,
  assert_message_size, prologue_required, noise_message_1_overhead, noise_max_message_bytes,
}
use threadbase_streamer.E2ee.Noise.Handshake.{
  Terms, ResponderState, ResponderResult, started, read_message1, respond,
}

>>=-eq-done {ℓ κ} :
    {Value : Type ℓ} {Next : Type κ} (m : Outcome Value) (rest : Value → Outcome Next) {b : Next}
    → (m >>= rest) ≡ done b
    → (a : Value) × (m ≡ done a) × (rest a ≡ done b)
>>=-eq-done (thrown error) rest h = absurd (ground arith)
>>=-eq-done (done a) rest h = (a, refl, h)

>>-eq-done {κ} :
    {Next : Type κ} (m : Outcome (Unit {0})) (rest : Outcome Next) {b : Next}
    → (m >> rest) ≡ done b
    → (m ≡ done tt) × (rest ≡ done b)
>>-eq-done (thrown error) rest h = absurd (ground arith)
>>-eq-done (done tt) rest h = (refl, h)

-- The pattern that binds a psk of 32 bytes, or the weaker one where it is named and no psk given.
abbrev pub IsNamed : Terms → Type 0
IsNamed terms =
    ((pattern_of terms.pattern ≡ "IKpsk1")
      × (psk : List ℕ) × (terms.psk ≡ some psk)
      × (length psk ≡ 32))
    ⊎ ((terms.pattern ≡ some "IK") × (terms.psk ≡ none))

-- What a responder that answers has been given.
pub record IsBound (terms : Terms) (message1 : List ℕ) : Type 0 where
  pub least : noise_message_1_overhead ≤ length message1
  pub most : length message1 ≤ noise_max_message_bytes
  pub prologue : (p : List ℕ) × (terms.prologue ≡ some p)
  pub pattern : IsNamed terms

named_weak : (p : Option String) → str_eq (pattern_of p) "IK" ≡ true → p ≡ some "IK"
named_weak none h = absurd (ground arith)
named_weak (some t) h = ground (arith, eq_iff t "IK")

name-IsNamed :
    (terms : Terms) (name : String)
    → protocol_name_for (pattern_of terms.pattern) terms.psk ≡ done name
    → IsNamed terms
unfolding protocol_name_for
name-IsNamed terms name h = elim (Bool-cases (str_eq (pattern_of terms.pattern) "IKpsk1")) [
  | inl strong ↦ elim (Option-cases terms.psk) [
    | inl absent ↦ absurd (ground arith)
    | inr (psk, e) ↦
        inl (ground (arith, eq_iff (pattern_of terms.pattern) "IKpsk1"), psk, e, ground arith)
  ]
  | inr other ↦ inr (named_weak terms.pattern (ground arith), ground arith)
]

size_checked :
    (message : List ℕ) (minimum : ℕ)
    → assert_message_size message minimum ≡ done tt
    → (minimum ≤ length message) × (length message ≤ noise_max_message_bytes)
size_checked message minimum h = (ground arith, ground arith)

prologue_given :
    (prologue : Option (List ℕ)) (p : List ℕ)
    → defined prologue_required prologue ≡ done p
    → prologue ≡ some p
prologue_given none p h = absurd (ground arith)
prologue_given (some q) p h = ground arith

module _ {PrivateKey PublicKey : Type 0} (crypto : NoiseCrypto PrivateKey PublicKey) where
  read-IsBound :
      (terms : Terms) (static_pair : KeyPair PrivateKey PublicKey) (message1 : List ℕ)
      {state : ResponderState PrivateKey PublicKey}
      → read_message1 crypto terms static_pair message1 ≡ done state
      → IsBound terms message1
  unfolding read_message1 started
  read-IsBound terms static_pair message1 h =
      let (sized, begun) = >>-eq-done (assert_message_size message1 noise_message_1_overhead) _ h in
      let (s0, opened, _) = >>=-eq-done (started crypto terms) _ begun in
      let (name, named, later) =
        >>=-eq-done (protocol_name_for (pattern_of terms.pattern) terms.psk) _ opened in
      let (p, present, _) = >>=-eq-done (defined prologue_required terms.prologue) _ later in
      record {
        least = (size_checked message1 noise_message_1_overhead sized).0;
        most = (size_checked message1 noise_message_1_overhead sized).1;
        prologue = (p, prologue_given terms.prologue p present);
        pattern = name-IsNamed terms name named;
      }

  -- A responder that answers message 1 was given a message of 96 to 4096 bytes and a prologue; and
  -- either its pattern is IKpsk1, which is also what an absent pattern means, with a psk of 32 bytes,
  -- or IK was asked for by its name with no psk.
  pub respond-IsBound :
      (terms : Terms) (static_pair e : KeyPair PrivateKey PublicKey) (message1 : List ℕ)
      (build_payload : List ℕ → List ℕ → List ℕ) (result : ResponderResult)
      → respond crypto terms static_pair message1 build_payload e ≡ done result
      → IsBound terms message1
  unfolding respond
  respond-IsBound terms static_pair e message1 build_payload result h =
      let (state, read, _) = >>=-eq-done (read_message1 crypto terms static_pair message1) _ h in
      read-IsBound terms static_pair message1 read
