-- ===== src/E2ee/Context/Access/Verdicts.antt =====
-- What the two gates let through.
use threadbase_streamer.Prelude.{
  ◌≡◌, refl, Option, none, some, false, String, str_eq, eq_iff, arith,
}
use threadbase_streamer.E2ee.Context.Access.{
  Reading, threw, gave, column, DeviceRow, DeviceLookup, device, allowed, is_zero, pinned_column,
  pinned_row, pinned_device, refuse_unsealed_if_pinned, authenticated, live_columns, live_row, live,
  named, admitted, authenticate_context,
}

abbrev pub IsUnpinned : Reading (Option DeviceRow) → Type 0
IsUnpinned r = (row : DeviceRow) × ((r ≡ gave (some row)) × (row.e2ee_required ≡ column (gave 0)))

unpinned : (r : Reading (Option DeviceRow)) → pinned_row r ≡ allowed → IsUnpinned r
unfolding pinned_row pinned_column is_zero
unpinned threw h = absurd (ground arith)
unpinned (gave none) h = absurd (ground arith)
unpinned (gave (some row)) h = (row, (refl, ground arith))

IsUnpinned-device :
    (repo : Option DeviceLookup) (id : String)
    → pinned_device repo id ≡ allowed
    → (store : DeviceLookup) × ((repo ≡ some store) × IsUnpinned (store.get id))
unfolding pinned_device
IsUnpinned-device none id h = absurd (ground arith)
IsUnpinned-device (some store) id h = (store, (refl, unpinned (store.get id) h))

-- An unsealed request of a device is let through only where there is a store of devices, it gives the
-- row of that device, and the row says that it is not pinned.
pub allowed-IsUnpinned :
    (id capabilities : String) (repo : Option DeviceLookup)
    → str_eq id "" ≡ false
    → refuse_unsealed_if_pinned (some (device id capabilities)) repo false ≡ allowed
    → (store : DeviceLookup) × ((repo ≡ some store) × IsUnpinned (store.get id))
unfolding refuse_unsealed_if_pinned
allowed-IsUnpinned id capabilities repo h allows = IsUnpinned-device repo id (ground arith)

abbrev pub Presented : DeviceLookup → String → Option String → Type 0
Presented repo id none = Unit
Presented repo id (some credential) = repo.authenticate credential ≡ gave (some id)

-- What an authenticated context has shown: there is a store, its row of the device is not revoked and
-- gives the device's name and the capabilities, and a presented credential names the device.
pub record IsLive (repo : Option DeviceLookup) (id capabilities : String)
    (presented : Option String) : Type 0 where
  pub store : DeviceLookup
  pub is_there : repo ≡ some store
  pub row : DeviceRow
  pub found : store.get id ≡ gave (some row)
  pub unrevoked : row.revoked_at ≡ column (gave none)
  pub named_row : (name : String) × (row.device_id ≡ gave name)
  pub allowed_to : row.capabilities ≡ gave capabilities
  pub names : Presented store id presented

-- The reads of a live row all succeed.
abbrev IsRead : Reading (Option DeviceRow) → String → Type 0
IsRead r capabilities =
    (row : DeviceRow) × (r ≡ gave (some row))
    × (row.revoked_at ≡ column (gave none))
    × ((name : String) × (row.device_id ≡ gave name))
    × (row.capabilities ≡ gave capabilities)

live_columns-read :
    (row : DeviceRow) (capabilities : String)
    → live_columns row ≡ gave (some capabilities)
    → ((name : String) × (row.device_id ≡ gave name)) × (row.capabilities ≡ gave capabilities)
unfolding live_columns
live_columns-read row capabilities =
    elim row.device_id
      as (λ d.
        (elim d [
          | threw ↦ threw
          | gave id ↦ elim row.capabilities [ threw ↦ threw | gave c ↦ gave (some c) ]
        ])
          ≡ gave (some capabilities)
        → ((name : String) × (d ≡ gave name)) × (row.capabilities ≡ gave capabilities)) [
          | threw ↦ λ h. absurd (ground arith)
          | gave name ↦ λ h. ((name, refl), ground arith)
        ]

live-IsRead :
    (r : Reading (Option DeviceRow)) (capabilities : String)
    → live r ≡ gave (some capabilities)
    → IsRead r capabilities
unfolding live live_row
live-IsRead threw capabilities h = absurd (ground arith)
live-IsRead (gave none) capabilities h = absurd (ground arith)
live-IsRead (gave (some row)) capabilities h =
    let (name, allowed_to) = live_columns-read row capabilities (ground arith) in
    (row, refl, ground arith, name, allowed_to)

admitted_lem :
    (repo : DeviceLookup) (id : String) (presented : Option String) (r : Reading (Option String))
    (principal capabilities : String)
    → admitted repo id presented r ≡ authenticated principal capabilities
    → (principal ≡ id) × (r ≡ gave (some capabilities)) × Presented repo id presented
unfolding admitted named
admitted_lem repo id presented threw principal capabilities h = absurd (ground arith)
admitted_lem repo id presented (gave none) principal capabilities h = absurd (ground arith)
admitted_lem repo id none (gave (some c)) principal capabilities h =
    (ground arith, ground arith, tt)
admitted_lem repo id (some credential) (gave (some c)) principal capabilities h =
    elim (repo.authenticate credential)
        as (λ n.
          named id c n ≡ authenticated principal capabilities
          → (principal ≡ id) × (gave (some c) ≡ gave (some capabilities)) × (n ≡ gave (some id))) [
            | threw ↦ λ k. absurd (ground arith)
            | gave none ↦ λ k. absurd (ground arith)
            | gave (some name) ↦ λ k. (ground arith, ground arith, ground (arith, eq_iff name id))
          ]
      h

-- A context is authenticated only as its own device, where a store of devices gives a row of that
-- device that is not revoked and whose columns can be read, with the capabilities of the row, and
-- where a presented credential names that device.
pub authenticated-IsLive :
    (id : String) (repo : Option DeviceLookup) (presented : Option String)
    (principal capabilities : String)
    → authenticate_context id repo presented ≡ authenticated principal capabilities
    → (principal ≡ id) × IsLive repo id capabilities presented
unfolding authenticate_context
authenticated-IsLive id none presented principal capabilities h = absurd (ground arith)
authenticated-IsLive id (some store) presented principal capabilities h =
    let (same, lives, names) =
      admitted_lem store id presented (live (store.get id)) principal capabilities h in
    let (row, found, unrevoked, named_row, allowed_to) =
      live-IsRead (store.get id) capabilities lives in
    (
      same,
      record {
        store = store;
        is_there = refl;
        row = row;
        found = found;
        unrevoked = unrevoked;
        named_row = named_row;
        allowed_to = allowed_to;
        names = names;
      },
    )
