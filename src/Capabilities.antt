-- ===== src/Capabilities.antt =====
-- src/services/security/capabilities.ts: what a principal may do, and what a route asks for.
pub mod Longest
pub mod Tests
use Prim.Native.String.{len}
use text.Mathlib.Text.{find?}
use threadbase_streamer.Prelude.{
  ℕ, zero, suc, List, [], ◌∷◌, Option, none, some, Bool, true, false, not, ◌&&◌, ◌||◌, ◌==◌, ltb,
  String, str_eq, if◌then◌else◌,
}

pub data Capability : Type 0 where
  history_read session_control fs_browse fs_upload notifications admin : Capability

unfoldable pub is_capability : String → Bool
is_capability value =
    str_eq value "history:read"
    || str_eq value "session:control"
    || str_eq value "fs:browse"
    || str_eq value "fs:upload"
    || str_eq value "notifications"
    || str_eq value "admin"

abbrev pub full_capabilities : List Capability
full_capabilities =
    history_read ∷ session_control ∷ fs_browse ∷ fs_upload ∷ notifications ∷ admin ∷ []

abbrev pub read_only_capabilities : List Capability
read_only_capabilities = history_read ∷ []

pub data CapabilityPreset : Type 0 where
  full read_only : CapabilityPreset

abbrev pub capabilities_for_preset : CapabilityPreset → List Capability
capabilities_for_preset full = full_capabilities
capabilities_for_preset read_only = read_only_capabilities

abbrev code : Capability → ℕ
code history_read = 0
code session_control = 1
code fs_browse = 2
code fs_upload = 3
code notifications = 4
code admin = 5

abbrev pub same : Capability → Capability → Bool
same a b = code a == code b

pub data Principal : Type 0 where
  device : (device_id : String) (capabilities : List Capability) → Principal
  legacy : (capabilities : List Capability) → Principal

abbrev pub legacy_principal : Principal
legacy_principal = legacy full_capabilities

abbrev capabilities_of : Principal → List Capability
capabilities_of (device id cs) = cs
capabilities_of (legacy cs) = cs

abbrev includes : List Capability → Capability → Bool
includes [] c = false
includes (x ∷ xs) c = same x c || includes xs c

unfoldable pub has_capability : Principal → Capability → Bool
has_capability principal required = includes (capabilities_of principal) required

abbrev pub route_capabilities : List (String × Capability)
route_capabilities =
    ("/api/sessions/", session_control)
    ∷ ("/api/sessions", history_read)
    ∷ ("/api/conversations", history_read)
    ∷ ("/api/projects", history_read)
    ∷ ("/api/search", history_read)
    ∷ ("/api/providers", history_read)
    ∷ ("/api/browse", fs_browse)
    ∷ ("/api/recent-dirs", fs_browse)
    ∷ ("/api/upload", fs_upload)
    ∷ ("/api/push", notifications)
    ∷ ("/api/saved-items", history_read)
    ∷ ("/api/devices", admin)
    ∷ ("/api/config", admin)
    ∷ ("/api/auth/rotate", admin)
    ∷ ("/api/backup", admin)
    ∷ ("/api/info", history_read)
    ∷ ("/api/profiles", history_read)
    ∷ ("/api/diagnostics", history_read)
    ∷ ("/api/cache/alert", history_read)
    ∷ ("/api/__client-log", history_read)
    ∷ ("/api/logs", admin)
    ∷ ("/api/pair", admin)
    ∷ ("/api/e2ee", admin)
    ∷ ("/ws", history_read)
    ∷ ("/internal/sessions", admin)
    ∷ []

-- `path.startsWith(prefix)`.
unfoldable pub starts_with : String → String → Bool
starts_with path prefix = elim (find? path prefix) [
  | none ↦ false
  | some zero ↦ true
  | some (suc n) ↦ false
]

abbrev beaten : Option (ℕ × Capability) → ℕ → Bool
beaten none n = true
beaten (some (best, c)) n = ltb best n

-- The loop over the table, with the best match so far.
unfoldable pub best_match :
    String → List (String × Capability) → Option (ℕ × Capability) → Option (ℕ × Capability)
best_match path [] best = best
best_match path ((prefix, c) ∷ table) best =
    best_match path table
      (if starts_with path prefix && beaten best (len prefix) then some (len prefix, c) else best)

abbrev is_read : String → Bool
is_read method = str_eq method "GET" || str_eq method "HEAD"

abbrev capability_of : Option (ℕ × Capability) → Option Capability
capability_of none = none
capability_of (some (n, c)) = some c

unfoldable pub required_capability : String → String → Option Capability
unfolding starts_with best_match
required_capability path method =
    if starts_with path "/api/sessions" && is_read method
    then some history_read
    else if starts_with path "/api/saved-items" && not (is_read method)
    then some session_control
    else capability_of (best_match path route_capabilities none)
