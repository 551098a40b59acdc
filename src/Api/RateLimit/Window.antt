-- ===== src/Api/RateLimit/Window.antt =====
-- The limiter against a log of all charged hits that forgets nothing: the map that is pruned and
-- swept answers every history of calls as the log does.
use threadbase_streamer.Prelude.{
  ℕ, ◌+◌, ◌-◌, ◌/◌, ◌≤◌, ◌≡◌, refl, ap, List, [], ◌∷◌, ◌++◌, Bool, true, ltb, lt→ltb, ltb→lt,
  String, str_eq, eq_iff, arith, length, keep_if, max, if◌then◌else◌,
}
use threadbase_streamer.Prelude.Dict.{Dict, get, get-put, get-remove}
use threadbase_streamer.Api.RateLimit.{
  Options, is_recent, all_stale, sweep, or_empty, recent_for, check, charge, freeing,
  retry_after_seconds, sweep_after_keys,
}

pub data Call : Type 0 where
  checks charges asks : String → ℕ → Call

pub data Answer : Type 0 where
  room : Bool → Answer
  seconds : ℕ → Answer
  charged : Answer

unfoldable pub step : Options → Dict (List ℕ) → Call → Dict (List ℕ) × Answer
step o hits (checks key now) = let (h, b) = check o hits key now in (h, room b)
step o hits (charges key now) = (charge o hits key now, charged)
step o hits (asks key now) = let (h, n) = retry_after_seconds o hits key now in (h, seconds n)

unfoldable pub answers : Options → Dict (List ℕ) → List Call → List Answer
answers o hits [] = []
answers o hits (c ∷ cs) = (step o hits c).1 ∷ answers o (step o hits c).0 cs

-- The charged hits of a key.
unfoldable pub times : String → List (String × ℕ) → List ℕ
times key [] = []
times key ((k, t) ∷ log) = if str_eq key k then t ∷ times key log else times key log

unfoldable pub in_window : Options → List (String × ℕ) → String → ℕ → List ℕ
in_window o log key now = keep_if (is_recent o now) (times key log)

unfoldable pub judge : Options → List (String × ℕ) → Call → List (String × ℕ) × Answer
judge o log (checks key now) = (log, room (ltb (length (in_window o log key now)) o.limit))
judge o log (charges key now) = (log ++ (key, now) ∷ [], charged)
judge o log (asks key now) = (
  log,
  seconds (max 1 ((freeing o (in_window o log key now) now + o.window_ms - now + 999) / 1000)),
)

unfoldable pub log_answers : Options → List (String × ℕ) → List Call → List Answer
log_answers o log [] = []
log_answers o log (c ∷ cs) = (judge o log c).1 ∷ log_answers o (judge o log c).0 cs

abbrev pub time : Call → ℕ
time (checks key now) = now
time (charges key now) = now
time (asks key now) = now

-- The clock does not go back.
abbrev pub Ordered : ℕ → List Call → Type 0
Ordered t [] = Unit
Ordered t (c ∷ cs) = (t ≤ time c) × Ordered (time c) cs

abbrev Agrees : Options → ℕ → Dict (List ℕ) → List (String × ℕ) → Type 0
Agrees o t hits log =
    (key : String) (now : ℕ)
    → t ≤ now
    → keep_if (is_recent o now) (or_empty (get hits key)) ≡ in_window o log key now

recent_mono :
    (o : Options) (t now x : ℕ) → t ≤ now → is_recent o now x ≡ true → is_recent o t x ≡ true
recent_mono o t now x le h =
    lt→ltb t (x + o.window_ms) (omega (arith, ltb→lt now (x + o.window_ms) h))

keep_if-keep_if :
    (o : Options) (t now : ℕ) (xs : List ℕ)
    → t ≤ now
    → keep_if (is_recent o now) (keep_if (is_recent o t) xs) ≡ keep_if (is_recent o now) xs
keep_if-keep_if o t now [] le = refl
keep_if-keep_if o t now (x ∷ xs) le =
    ground (arith, keep_if-keep_if o t now xs le, recent_mono o t now x le)

keep_if-append :
    (p : ℕ → Bool) (xs : List ℕ) (y : ℕ)
    → keep_if p (xs ++ y ∷ []) ≡ keep_if p xs ++ keep_if p (y ∷ [])
keep_if-append p [] y = refl
keep_if-append p (x ∷ xs) y = ground (arith, keep_if-append p xs y)

keep_if-stale :
    (o : Options) (t now : ℕ) (xs : List ℕ)
    → t ≤ now
    → all_stale o t xs ≡ true
    → keep_if (is_recent o now) xs ≡ []
unfolding all_stale
keep_if-stale o t now [] le h = refl
keep_if-stale o t now (x ∷ xs) le h =
    ground (arith, keep_if-stale o t now xs le, recent_mono o t now x le)

-- Sweeping loses no hit that a later window holds.
keep_if-sweep :
    (o : Options) (t now : ℕ) (m : Dict (List ℕ)) (key : String)
    → t ≤ now
    → keep_if (is_recent o now) (or_empty (get (sweep o t m) key))
      ≡ keep_if (is_recent o now) (or_empty (get m key))
unfolding sweep get
keep_if-sweep o t now [] key le = refl
keep_if-sweep o t now ((k, ts) ∷ m) key le = ground (
  arith,
  keep_if-sweep o t now m key le,
  keep_if-stale o t now ts le,
  get-remove (sweep o t m) k key,
)

times-append :
    (key k : String) (t : ℕ) (log : List (String × ℕ))
    → times key (log ++ (k, t) ∷ [])
      ≡ (if str_eq key k then times key log ++ t ∷ [] else times key log)
unfolding times
times-append key k t [] = ground arith
times-append key k t ((j, u) ∷ log) = ground (arith, times-append key k t log)

-- The window that `recentFor` computes and stores is the log's.
recent_for-window :
    (o : Options) (t now : ℕ) (hits : Dict (List ℕ)) (log : List (String × ℕ)) (key : String)
    → Agrees o t hits log
    → t ≤ now
    → (recent_for o hits key now).1 ≡ in_window o log key now
unfolding recent_for
recent_for-window o t now hits log key agrees le =
    ground (arith, agrees key now le, keep_if-sweep o now now hits key)

recent_for-Agrees :
    (o : Options) (t now : ℕ) (hits : Dict (List ℕ)) (log : List (String × ℕ)) (key : String)
    → Agrees o t hits log
    → t ≤ now
    → Agrees o now (recent_for o hits key now).0 log
unfolding recent_for in_window
recent_for-Agrees o t now hits log key agrees le asked later le' =
    let swept = if ltb sweep_after_keys (length hits) then sweep o now hits else hits in
    let recent = keep_if (is_recent o now) (or_empty (get swept key)) in
    ground (
      arith,
      get-put swept key recent asked,
      eq_iff asked key,
      agrees asked later,
      keep_if-keep_if o now later (or_empty (get swept key)) le',
      keep_if-sweep o now later hits asked le',
    )

charge-Agrees :
    (o : Options) (t now : ℕ) (hits : Dict (List ℕ)) (log : List (String × ℕ)) (key : String)
    → Agrees o t hits log
    → t ≤ now
    → Agrees o now (charge o hits key now) (log ++ (key, now) ∷ [])
unfolding charge in_window
charge-Agrees o t now hits log key agrees le asked later le' =
    let (hits', recent) = recent_for o hits key now in
    ground (
      arith,
      get-put (recent_for o hits key now).0 key ((recent_for o hits key now).1 ++ now ∷ []) asked,
      times-append asked key now log,
      recent_for-window o t now hits log key agrees le,
      recent_for-Agrees o t now hits log key agrees le asked later le',
      keep_if-append (is_recent o later) (in_window o log key now) now,
      keep_if-append (is_recent o later) (times asked log) now,
      keep_if-keep_if o now later (times key log) le',
      eq_iff asked key,
    )

step-Agrees :
    (o : Options) (t : ℕ) (hits : Dict (List ℕ)) (log : List (String × ℕ)) (c : Call)
    → Agrees o t hits log
    → t ≤ time c
    → Agrees o (time c) (step o hits c).0 (judge o log c).0
unfolding step judge check retry_after_seconds
step-Agrees o t hits log (checks key now) agrees le =
    recent_for-Agrees o t now hits log key agrees le
step-Agrees o t hits log (charges key now) agrees le = charge-Agrees o t now hits log key agrees le
step-Agrees o t hits log (asks key now) agrees le = recent_for-Agrees o t now hits log key agrees le

step-judge :
    (o : Options) (t : ℕ) (hits : Dict (List ℕ)) (log : List (String × ℕ)) (c : Call)
    → Agrees o t hits log
    → t ≤ time c
    → (step o hits c).1 ≡ (judge o log c).1
unfolding step judge check retry_after_seconds
step-judge o t hits log (checks key now) agrees le =
    ap (λ xs. room (ltb (length xs) o.limit)) (recent_for-window o t now hits log key agrees le)
step-judge o t hits log (charges key now) agrees le = refl
step-judge o t hits log (asks key now) agrees le =
    ap (λ xs. seconds (max 1 ((freeing o xs now + o.window_ms - now + 999) / 1000)))
      (recent_for-window o t now hits log key agrees le)

answers_from :
    (o : Options) (t : ℕ) (hits : Dict (List ℕ)) (log : List (String × ℕ)) (cs : List Call)
    → Agrees o t hits log
    → Ordered t cs
    → answers o hits cs ≡ log_answers o log cs
unfolding answers log_answers
answers_from o t hits log [] agrees ordered = refl
answers_from o t hits log (c ∷ cs) agrees ordered = ground (
  arith,
  step-judge o t hits log c agrees ordered.0,
  answers_from o (time c) (step o hits c).0 (judge o log c).0 cs
      (step-Agrees o t hits log c agrees ordered.0) ordered.1,
)

-- On a clock that does not go back, a budget that starts empty answers every history of `check`,
-- `charge` and `retryAfterSeconds` calls as a log of all charged hits does: by the hits of the key
-- that are younger than the window. The pruning and the sweep over 1024 keys show in no answer.
pub answers-refine :
    (o : Options) (cs : List Call) → Ordered 0 cs → answers o [] cs ≡ log_answers o [] cs
unfolding in_window times get
answers-refine o cs ordered = answers_from o 0 [] [] cs (λ key now le. refl) ordered
