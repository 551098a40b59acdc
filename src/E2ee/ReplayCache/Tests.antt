-- ===== src/E2ee/ReplayCache/Tests.antt =====
-- The replay cache with room for two keys.
use threadbase_streamer.Prelude.{◌≤◌, [], ◌∷◌, length, arith}
use threadbase_streamer.E2ee.ReplayCache.{ReplayCache, record_key}
use threadbase_streamer.E2ee.ReplayCache.Laws.{record_key-Bounded}

abbrev full : ReplayCache
full = record { seen = ("a", 10) ∷ ("b", 20) ∷ []; capacity = 2; ttl_ms = 60 }

record_key-Bounded_example : length (record_key full "c" 5).seen ≤ 2
record_key-Bounded_example = record_key-Bounded full "c" 5 (omega arith)
