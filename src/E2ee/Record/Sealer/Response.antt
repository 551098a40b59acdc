-- ===== src/E2ee/Record/Sealer/Response.antt =====
-- The one response that an accepted counter is owed.
use threadbase_streamer.Prelude.{
  ℕ, ◌<◌, ◌^◌, ◌≡◌, refl, List, some, true, false, not, ◌==◌, ==_iff, has, arith, length,
  Bool-cases, inl, inr,
}
use threadbase_streamer.E2ee.Protocol.{ok, err, RejectionCode, seal_failed}
use threadbase_streamer.E2ee.Record.{
  Aead, is_valid_target, channel_rest_response, target_hash_bytes,
}
use threadbase_streamer.E2ee.Record.Framing.{seal_with-total}
use threadbase_streamer.E2ee.Record.Sealer.{
  RestResponseSealer, response_header, mark_answered, spend, seal, refusal,
}
use threadbase_streamer.E2ee.Record.Sealer.Invariant.{has-keep_if}

module _ {Key : Type 0} (aead : Aead Key) (s : RestResponseSealer Key) (c : ℕ) (p t : List ℕ) where
  -- A waiting counter is answered, over any 32-byte target.
  pub seal_waiting :
      has c s.outstanding ≡ true
      → length t ≡ target_hash_bytes
      → length s.ctx_id ≡ 16
      → c < 256 ^ 8
      → (f : List ℕ) × (seal aead s c p t ≡ (spend s c, ok f))
  unfolding seal
  seal_waiting waits size handle fits =
      let (f, sealed) =
        seal_with-total aead s.key (response_header s c) p (some t)
          (record { handle = handle; direction_fits = omega arith; counter_fits = fits })
          ((==_iff (length t) target_hash_bytes).1 size) in
      (f, rw ((==_iff (length t) target_hash_bytes).1 size, waits, sealed) refl)

  has-spend : has c (spend s c).outstanding ≡ false
  unfolding spend mark_answered
  has-spend = ground (arith, has-keep_if (λ d. not (d == c)) c s.outstanding, ==_iff c c)

  -- A counter that was spent is never answered again.
  pub seal_spent : (e : RejectionCode) × (seal aead (spend s c) c p t ≡ (spend s c, err e))
  unfolding seal
  seal_spent = elim (Bool-cases (is_valid_target channel_rest_response (some t))) [
    | inl valid ↦ (refusal (spend s c) c, rw (valid, has-spend) refl)
    | inr invalid ↦ (seal_failed, rw invalid refl)
  ]
