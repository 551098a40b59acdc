-- ===== src/E2ee/ReplayCache.antt =====
-- src/e2ee/replay-cache.ts: the ephemeral keys of handshake messages that were already seen. The
-- base64 text of the key is the key of the `Map`; the clock is an argument.
pub mod Laws
pub mod Tests
use threadbase_streamer.Prelude.{
  ℕ, zero, suc, ◌+◌, ◌-◌, List, [], ◌∷◌, Option, none, some, Bool, true, false, leb, ltb, String,
  length, if◌then◌else◌,
}
use threadbase_streamer.Prelude.Dict.{Dict, get, put, remove}

abbrev pub msg1_replay_cache_entries : ℕ
msg1_replay_cache_entries = 65536

abbrev pub max_prune_per_call : ℕ
max_prune_per_call = 128

pub record ReplayCache : Type 0 where
  pub seen : Dict ℕ
  pub capacity : ℕ
  pub ttl_ms : ℕ

pub create : Option ℕ → ℕ → ReplayCache
create none ttl = record { seen = []; capacity = msg1_replay_cache_entries; ttl_ms = ttl }
create (some capacity) ttl = record { seen = []; capacity = capacity; ttl_ms = ttl }

-- `has`: an expired entry is dropped on the way.
pub has_seen : ReplayCache → String → ℕ → ReplayCache × Bool
has_seen c key now = elim (get c.seen key) [
  | none ↦ (c, false)
  | some expires ↦
      if leb expires now then (record c { seen = remove c.seen key }, false) else (c, true)
]

-- The first loop of `record`: expired entries at the front go, `budget` at most.
prune : ℕ → ℕ → Dict ℕ → Dict ℕ
prune zero now m = m
prune (suc budget) now [] = []
prune (suc budget) now ((k, expires) ∷ m) =
    if ltb now expires then (k, expires) ∷ m else prune budget now m

-- The second loop: the oldest go until one place is free. (With a capacity of 0 it ends on the
-- empty map.)
make_room : ℕ → Dict ℕ → Dict ℕ
make_room capacity [] = []
make_room capacity ((k, expires) ∷ m) =
    if leb capacity (length m + 1) then make_room capacity m else (k, expires) ∷ m

-- `record`.
pub record_key : ReplayCache → String → ℕ → ReplayCache
unfolding prune make_room
record_key c key now = record c {
  seen = put (make_room c.capacity (prune max_prune_per_call now c.seen)) key (now + c.ttl_ms);
}

pub clear : ReplayCache → ReplayCache
clear c = record c { seen = [] }
