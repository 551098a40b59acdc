-- ===== src/E2ee/Context/Access.antt =====
-- src/e2ee/context.ts, the end: `refuseUnsealedIfPinned` and `authenticateContext`. The store of
-- devices is a parameter: each read of it may throw, and a column of a row may be absent.
pub mod Verdicts
pub mod Tests
use threadbase_streamer.Prelude.{
  ℕ, zero, suc, Option, none, some, Bool, true, false, String, str_eq, if◌then◌else◌,
}

-- A read that may throw.
pub data Reading {ℓ} (A : Type ℓ) : Type ℓ where
  threw : Reading A
  gave : A → Reading A

-- A column of a row: not the row's own, or an accessor, which may throw.
pub data Column (A : Type 0) : Type 0 where
  missing : Column A
  column : Reading A → Column A

pub record DeviceRow : Type 0 where
  pub device_id : Reading String
  pub capabilities : Reading String
  pub revoked_at : Column (Option ℕ)
  pub e2ee_required : Column ℕ

-- `authenticate` gives the device that the credential names.
pub record DeviceLookup : Type 0 where
  pub get : String → Reading (Option DeviceRow)
  pub authenticate : String → Reading (Option String)

pub data Principal : Type 0 where
  legacy : Principal
  device : (device_id : String) (capabilities : String) → Principal

-- Allowed is the `null` of `refuseUnsealedIfPinned`; `failed` a throw that leaves it.
pub data Unsealed : Type 0 where
  allowed refused failed : Unsealed

is_zero : ℕ → Unsealed
is_zero zero = allowed
is_zero (suc n) = refused

pinned_column : Column ℕ → Unsealed
unfolding is_zero
pinned_column missing = refused
pinned_column (column threw) = failed
pinned_column (column (gave n)) = is_zero n

pinned_row : Reading (Option DeviceRow) → Unsealed
unfolding pinned_column
pinned_row threw = refused
pinned_row (gave none) = refused
pinned_row (gave (some row)) = pinned_column row.e2ee_required

pinned_device : Option DeviceLookup → String → Unsealed
unfolding pinned_row
pinned_device none id = refused
pinned_device (some repo) id = pinned_row (repo.get id)

-- An empty device id is no device.
unfoldable pub refuse_unsealed_if_pinned : Option Principal → Option DeviceLookup → Bool → Unsealed
unfolding pinned_device
refuse_unsealed_if_pinned principal repo true = allowed
refuse_unsealed_if_pinned none repo false = allowed
refuse_unsealed_if_pinned (some legacy) repo false = allowed
refuse_unsealed_if_pinned (some (device id capabilities)) repo false =
    if str_eq id "" then allowed else pinned_device repo id

pub data Refusal : Type 0 where
  no_device_store device_revoked credential_mismatch : Refusal

pub data ContextAuth : Type 0 where
  authenticated : (device_id : String) (capabilities : String) → ContextAuth
  rejected : Refusal → ContextAuth

-- The columns that are read of a live row, its capabilities last.
live_columns : DeviceRow → Reading (Option String)
live_columns row = elim row.device_id [
  | threw ↦ threw
  | gave id ↦ elim row.capabilities [ threw ↦ threw | gave c ↦ gave (some c) ]
]

-- What the row of a live device says of its capabilities; nothing for one that is not live.
live_row : DeviceRow → Reading (Option String)
unfolding live_columns
live_row row = elim row.revoked_at [
  | missing ↦ gave none
  | column threw ↦ threw
  | column (gave (some at)) ↦ gave none
  | column (gave none) ↦ live_columns row
]

live : Reading (Option DeviceRow) → Reading (Option String)
unfolding live_row
live threw = threw
live (gave none) = gave none
live (gave (some row)) = live_row row

-- The check of a presented credential against the context's device.
named : String → String → Reading (Option String) → ContextAuth
named id capabilities threw = rejected no_device_store
named id capabilities (gave none) = rejected credential_mismatch
named id capabilities (gave (some name)) =
    if str_eq name id then authenticated id capabilities else rejected credential_mismatch

admitted : DeviceLookup → String → Option String → Reading (Option String) → ContextAuth
unfolding named
admitted repo id presented threw = rejected no_device_store
admitted repo id presented (gave none) = rejected device_revoked
admitted repo id none (gave (some capabilities)) = authenticated id capabilities
admitted repo id (some credential) (gave (some capabilities)) =
    named id capabilities (repo.authenticate credential)

-- `authenticateContext`, for the device of the context. The text of the capabilities is returned as
-- it stands in the row.
unfoldable pub authenticate_context : String → Option DeviceLookup → Option String → ContextAuth
unfolding live admitted
authenticate_context id none presented = rejected no_device_store
authenticate_context id (some repo) presented = admitted repo id presented (live (repo.get id))
