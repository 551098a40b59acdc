-- ===== src/Sessions/Idempotency.antt =====
-- src/services/sessions/idempotency.ts: the outcomes of accepted writes, by session and key. The
-- clock is an argument.
pub mod Replay
use threadbase_streamer.Prelude.{
  ℕ, ◌+◌, ◌-◌, List, [], ◌∷◌, ◌++◌, Option, none, some, Bool, true, false, not, ◌&&◌, leb, ltb,
  ◌==◌, String, str_eq, length, drop, keep_if, if◌then◌else◌,
}
use threadbase_streamer.Prelude.Dict.{Dict, get, put, remove}

abbrev idempotency_ttl_ms : ℕ
idempotency_ttl_ms = 600000

abbrev idempotency_max_keys : ℕ
idempotency_max_keys = 200

-- The result's type is the body that the caller replays.
pub record Entry (A : Type 0) : Type 0 where
  pub key : String
  pub at : ℕ
  pub result : A

pub record IdempotencyStore (A : Type 0) : Type 0 where
  pub by_session : Dict (List (Entry A))
  pub ttl_ms : ℕ
  pub max_keys : ℕ

module _ {A : Type 0} where
  unfoldable pub find_entry : List (Entry A) → String → Option (Entry A)
  find_entry [] key = none
  find_entry (e ∷ es) key = if str_eq e.key key then some e else find_entry es key

  -- `entries.filter((e) => e !== hit)`, where `hit` is the first with its key.
  without_hit : List (Entry A) → String → List (Entry A)
  without_hit [] key = []
  without_hit (e ∷ es) key = if str_eq e.key key then es else e ∷ without_hit es key

  -- `xs.slice(-n)`: the last `n`, and all of them for `n` = 0.
  unfoldable pub last_of : ℕ → List (Entry A) → List (Entry A)
  last_of n xs = if n == 0 then xs else drop (length xs - n) xs

  abbrev pub entries_of : IdempotencyStore A → String → List (Entry A)
  entries_of s session = elim (get s.by_session session) [ none ↦ [] | some es ↦ es ]

  -- `get`: an expired entry is dropped on the way. A session without entries has no hit.
  unfoldable pub recall : IdempotencyStore A → String → String → ℕ → IdempotencyStore A × Option A
  unfolding without_hit
  recall s session key now = elim (find_entry (entries_of s session) key) [
    | none ↦ (s, none)
    | some hit ↦
        if ltb (hit.at + s.ttl_ms) now
        then (
          record s {
            by_session = put s.by_session session (without_hit (entries_of s session) key);
          },
          none,
        )
        else (s, some hit.result)
  ]

  -- Entries of other keys that have not expired.
  unfoldable pub pruned : IdempotencyStore A → String → String → ℕ → List (Entry A)
  pruned s session key now =
      keep_if (λ e. not (str_eq e.key key) && leb now (e.at + s.ttl_ms)) (entries_of s session)

  -- `set`.
  unfoldable pub remember : IdempotencyStore A → String → String → A → ℕ → IdempotencyStore A
  remember s session key result now = record s {
    by_session = put s.by_session session (
        last_of s.max_keys
          (pruned s session key now ++ (record { key = key; at = now; result = result }) ∷ []));
  }

  unfoldable pub clear : IdempotencyStore A → String → IdempotencyStore A
  clear s session = record s { by_session = remove s.by_session session }

  pub size : IdempotencyStore A → String → ℕ
  size s session = length (entries_of s session)
