-- ===== src/Sessions/Dedupe.antt =====
-- src/agent/dedupe.ts: a bounded memory of the progress events of a session.
use threadbase_streamer.Prelude.{
  ℕ, List, [], ◌∷◌, ◌++◌, Option, none, some, Bool, true, false, not, ◌||◌, String, str_eq, length,
  ltb, keep_if, if◌then◌else◌,
}

-- The keys of the map, the oldest first.
pub record ProgressDedupeLru : Type 0 where
  pub capacity : ℕ
  pub seen : List String

-- Throws, as none, for a capacity below 1.
unfoldable pub create_progress_dedupe_lru : ℕ → Option ProgressDedupeLru
create_progress_dedupe_lru capacity =
    if ltb capacity 1 then none else some (record { capacity = capacity; seen = [] })

abbrev pub holds : String → List String → Bool
holds id [] = false
holds id (x ∷ xs) = str_eq x id || holds id xs

-- `map.delete(id)`.
abbrev without : String → List String → List String
without id = keep_if (λ x. not (str_eq x id))

-- `map.delete(map.keys().next().value)`.
abbrev drop_oldest : List String → List String
drop_oldest [] = []
drop_oldest (x ∷ xs) = xs

-- `hasSeen`: a known event becomes the newest, and a new one may push the oldest out.
unfoldable pub has_seen_event : ProgressDedupeLru → String → ProgressDedupeLru × Bool
has_seen_event lru id =
    if holds id lru.seen
    then (record lru { seen = without id lru.seen ++ id ∷ [] }, true)
    else (let grown = lru.seen ++ id ∷ [] in
        (
          record lru {
            seen = if ltb lru.capacity (length grown) then drop_oldest grown else grown;
          },
          false,
        ))
