-- ===== src/E2ee/Context/Access/Tests.antt =====
-- The gates on a store with one live, unpinned device.
use threadbase_streamer.Prelude.{◌≡◌, refl, none, some, str_eq, String, if◌then◌else◌}
use threadbase_streamer.E2ee.Context.Access.{
  DeviceRow, DeviceLookup, gave, column, authenticate_context, refuse_unsealed_if_pinned,
}
use threadbase_streamer.E2ee.Context.Access.Verdicts.{
  IsUnpinned, IsLive, allowed-IsUnpinned, authenticated-IsLive,
}

abbrev row : DeviceRow
row = record {
  device_id = gave "phone";
  capabilities = gave "sessions";
  revoked_at = column (gave none);
  e2ee_required = column (gave 0);
}

abbrev repo : DeviceLookup
repo = record {
  get = λ id. if str_eq id "phone" then gave (some row) else gave none;
  authenticate = λ c. if str_eq c "secret" then gave (some "phone") else gave none;
}

allowed-IsUnpinned_example :
    (store : DeviceLookup) × ((some repo ≡ some store) × IsUnpinned (store.get "phone"))
unfolding refuse_unsealed_if_pinned
allowed-IsUnpinned_example = allowed-IsUnpinned "phone" "sessions" (some repo) refl refl

authenticated-IsLive_example :
    (◌≡◌ {A = String} "phone" "phone") × IsLive (some repo) "phone" "sessions" (some "secret")
unfolding authenticate_context
authenticated-IsLive_example =
    authenticated-IsLive "phone" (some repo) (some "secret") "phone" "sessions" refl
