-- ===== src/E2ee/Protocol.antt =====
-- src/e2ee/protocol.ts: the rejection codes, and the result of an operation that may throw one.
use threadbase_streamer.Prelude.{Bool, true, false}

-- The frozen codes of a `RecordError`.
pub data RejectionCode : Type 0 where
  ctx_unknown device_revoked sequence_violation seal_failed : RejectionCode

-- A value, or the code of the `RecordError` that is thrown in its place.
pub data Result {ℓ} (Value : Type ℓ) : Type ℓ where
  ok : Value → Result Value
  err : RejectionCode → Result Value

-- `if (!test) throw new RecordError(code, …)`.
abbrev pub require : Bool → RejectionCode → Result (Unit {0})
require test code = elim test [ true ↦ ok tt | false ↦ err code ]

infixl 5 ◌>>=◌
abbrev pub ◌>>=◌ {ℓ κ} :
    {Value : Type ℓ} {Next : Type κ} → Result Value → (Value → Result Next) → Result Next
err code >>= rest = err code
ok value >>= rest = rest value

infixl 5 ◌>>◌
abbrev pub ◌>>◌ {κ} : {Next : Type κ} → Result (Unit {0}) → Result Next → Result Next
err code >> rest = err code
ok value >> rest = rest
