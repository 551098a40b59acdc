-- ===== src/Api/RateLimit.antt =====
-- src/api/rate-limit.ts: a sliding-window budget for each key, and the limiter that charges each
-- call it lets through. Times are the clock's readings, arguments of each call; a reading may lie
-- before an earlier one.
pub mod Window
pub mod Tests
use threadbase_streamer.Prelude.{
  ℕ, ◌+◌, ◌-◌, ◌/◌, List, [], ◌∷◌, ◌++◌, Option, none, some, Bool, true, false, leb, ltb, String,
  length, get_elem?, keep_if, max, if◌then◌else◌,
}
use threadbase_streamer.Prelude.Dict.{Dict, get, put, remove}

abbrev pub sweep_after_keys : ℕ
sweep_after_keys = 1024

pub record Options : Type 0 where
  pub limit : ℕ
  pub window_ms : ℕ

-- `now - t < windowMs`, where `now` may lie before `t`.
abbrev pub is_recent : Options → ℕ → ℕ → Bool
is_recent o now t = ltb now (t + o.window_ms)

-- `times.every((t) => now - t >= windowMs)`.
all_stale : Options → ℕ → List ℕ → Bool
all_stale o now [] = true
all_stale o now (t ∷ ts) = if is_recent o now t then false else all_stale o now ts

sweep : Options → ℕ → Dict (List ℕ) → Dict (List ℕ)
unfolding all_stale
sweep o now [] = []
sweep o now ((k, ts) ∷ m) =
    if all_stale o now ts then remove (sweep o now m) k else (k, ts) ∷ sweep o now m

abbrev pub or_empty : Option (List ℕ) → List ℕ
or_empty none = []
or_empty (some ts) = ts

-- `recentFor`: the map afterwards and the key's recent hits.
pub recent_for : Options → Dict (List ℕ) → String → ℕ → Dict (List ℕ) × List ℕ
unfolding sweep
recent_for o hits key now =
    let swept = if ltb sweep_after_keys (length hits) then sweep o now hits else hits in
    let recent = keep_if (is_recent o now) (or_empty (get swept key)) in
    (put swept key recent, recent)

-- `check` charges nothing.
pub check : Options → Dict (List ℕ) → String → ℕ → Dict (List ℕ) × Bool
check o hits key now =
    let (hits', recent) = recent_for o hits key now in (hits', ltb (length recent) o.limit)

-- `charge` pushes onto the list that the map holds.
pub charge : Options → Dict (List ℕ) → String → ℕ → Dict (List ℕ)
charge o hits key now =
    let (hits', recent) = recent_for o hits key now in put hits' key (recent ++ now ∷ [])

-- `recent[recent.length - limit] ?? now`: an index before the first gives nothing.
pub freeing : Options → List ℕ → ℕ → ℕ
freeing o recent now =
    if ltb (length recent) o.limit
    then now
    else (elim (get_elem? recent (length recent - o.limit)) [ none ↦ now | some t ↦ t ])

-- `Math.max(1, Math.ceil((freeing + windowMs - now) / 1000))`. Where the numerator is negative the
-- maximum is 1, as it is for 0.
pub retry_after_seconds : Options → Dict (List ℕ) → String → ℕ → Dict (List ℕ) × ℕ
unfolding freeing
retry_after_seconds o hits key now =
    let (hits', recent) = recent_for o hits key now in
    (hits', max 1 ((freeing o recent now + o.window_ms - now + 999) / 1000))

-- `createRateLimiter`: check at one reading of the clock, charge at the next.
pub limiter : Options → Dict (List ℕ) → String → ℕ → ℕ → Dict (List ℕ) × Bool
limiter o hits key now later =
    let (hits', room) = check o hits key now in
    if room then (charge o hits' key later, true) else (hits', false)
