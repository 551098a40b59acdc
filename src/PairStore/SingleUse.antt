-- ===== src/PairStore/SingleUse.antt =====
-- A pairing token is spent once, and asking about it spends nothing.
use threadbase_streamer.Prelude.{
  ℕ, ◌+◌, ◌≤◌, ◌≡◌, ◌≢◌, List, [], ◌∷◌, none, some, true, ltb, String, str_eq, eq_iff, eq_refl,
  arith, if◌then◌else◌, ltb→lt,
}
use threadbase_streamer.PairStore.{
  PairTokenStore, ok, expired, mint, check, spend, mark_used, would_consume, consume, clear, sweep,
}

pub data Op : Type 0 where
  mints : String → ℕ → Op
  asks : String → ℕ → Op
  consumes : String → ℕ → Op
  sweeps : ℕ → Op
  clears : Op

unfoldable pub step : PairTokenStore → Op → PairTokenStore
step s (mints token now) = mint s token now
step s (asks token now) = (would_consume s token now).0
step s (consumes token now) = (consume s token now).0
step s (sweeps now) = sweep s now
step s clears = clear s

unfoldable pub run : PairTokenStore → List Op → PairTokenStore
run s [] = s
run s (op ∷ ops) = run (step s op) ops

-- No call mints this token again.
abbrev pub Unminted : String → List Op → Type 0
Unminted token [] = Unit
Unminted token (mints other now ∷ ops) = (other ≢ token) × Unminted token ops
Unminted token (asks other now ∷ ops) = Unminted token ops
Unminted token (consumes other now ∷ ops) = Unminted token ops
Unminted token (sweeps now ∷ ops) = Unminted token ops
Unminted token (clears ∷ ops) = Unminted token ops

-- The token is not current, or it is marked.
abbrev Spent : String → PairTokenStore → Type 0
Spent token s = elim s.current [
  | none ↦ Unit
  | some r ↦ str_eq r.token token ≡ true → r.used ≡ true
]

Spent-consume :
    (s : PairTokenStore) (token : String) (now : ℕ)
    → (consume s token now).1 ≡ ok
    → Spent token (consume s token now).0
unfolding consume check spend mark_used
Spent-consume s token now h = ground (arith, eq_iff token token)

Spent-asks :
    (s : PairTokenStore) (token other : String) (now : ℕ)
    → Spent token s
    → Spent token (would_consume s other now).0
unfolding would_consume check
Spent-asks s token other now h = ground arith

Spent-consumes :
    (s : PairTokenStore) (token other : String) (now : ℕ)
    → Spent token s
    → Spent token (consume s other now).0
unfolding consume check spend mark_used
Spent-consumes s token other now h = ground arith

Spent-sweep :
    (s : PairTokenStore) (token : String) (now : ℕ) → Spent token s → Spent token (sweep s now)
unfolding sweep
Spent-sweep s token now h = ground arith

Spent-refused :
    (s : PairTokenStore) (token : String) (now : ℕ) → Spent token s → (consume s token now).1 ≢ ok
unfolding consume check spend
Spent-refused s token now h = ground (arith)

Spent-run :
    (s : PairTokenStore) (token : String) (ops : List Op)
    → Spent token s
    → Unminted token ops
    → Spent token (run s ops)
unfolding run step mint clear
Spent-run s token [] h fresh = h
Spent-run s token (mints other now ∷ ops) h fresh =
    Spent-run (mint s other now) token ops (λ e. absurd (fresh.0 ((eq_iff other token).0 e)))
      fresh.1
Spent-run s token (asks other now ∷ ops) h fresh =
    Spent-run (would_consume s other now).0 token ops (Spent-asks s token other now h) fresh
Spent-run s token (consumes other now ∷ ops) h fresh =
    Spent-run (consume s other now).0 token ops (Spent-consumes s token other now h) fresh
Spent-run s token (sweeps now ∷ ops) h fresh =
    Spent-run (sweep s now) token ops (Spent-sweep s token now h) fresh
Spent-run s token (clears ∷ ops) h fresh = Spent-run (clear s) token ops tt fresh

-- A token that was consumed is never consumed again, whatever calls come in between, as long as
-- none mints that token anew.
pub spent_once :
    (s : PairTokenStore) (token : String) (now later : ℕ) (ops : List Op)
    → (consume s token now).1 ≡ ok
    → Unminted token ops
    → (consume (run (consume s token now).0 ops) token later).1 ≢ ok
spent_once s token now later ops h fresh =
    Spent-refused (run (consume s token now).0 ops) token later
      (Spent-run (consume s token now).0 token ops (Spent-consume s token now h) fresh)

-- A minted token can be consumed through its last millisecond and is expired after it, and a check
-- of it in between, before it expires, spends nothing.
minted_window :
    (s : PairTokenStore) (token : String) (now between later : ℕ)
    → between ≤ now + s.ttl_ms
    → (consume (would_consume (mint s token now) token between).0 token later).1
      ≡ (if ltb (now + s.ttl_ms) later then expired else ok)
unfolding consume would_consume check spend mint
minted_window s token now between later h =
    ground (arith, eq_refl token, ltb→lt (now + s.ttl_ms) between)
