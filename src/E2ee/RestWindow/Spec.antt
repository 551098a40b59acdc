-- ===== src/E2ee/RestWindow/Spec.antt =====
-- What the receive window promises, with no bitmap: a log of all the counters ever admitted.
use threadbase_streamer.Prelude.{
  ℕ, ◌+◌, ◌≤◌, ◌≡◌, List, [], ◌∷◌, true, false, Option, ltb, arith, has, ==_iff, if◌then◌else◌,
}
use threadbase_streamer.Prelude.Int.{ℤ, pos, negsuc, ltb_ℤ, leb_ℤ}
use threadbase_streamer.E2ee.Protocol.{
  Result, ok, err, RejectionCode, ctx_unknown, sequence_violation,
}
use threadbase_streamer.E2ee.Bitmap.{window_counters}
use threadbase_streamer.E2ee.RestWindow.{max_counter, verdict}

-- The largest counter of the log, -1 if there is none.
abbrev pub newest : List ℕ → ℤ
newest [] = negsuc 0
newest (c ∷ log) = if ltb_ℤ (newest log) (pos c) then pos c else newest log

-- Newer than all: admitted. Else too old by a whole window: recoverable. Else a replay is told
-- from a late arrival by the log.
unfoldable pub judge_log : List ℕ → ℤ → Result (List ℕ)
judge_log log (negsuc n) = err sequence_violation
judge_log log (pos c) =
    if ltb max_counter c
    then err sequence_violation
    else if ltb_ℤ (newest log) (pos c)
    then ok (c ∷ log)
    else if leb_ℤ (pos (c + window_counters)) (newest log)
    then err ctx_unknown
    else if has c log
    then err sequence_violation
    else ok (c ∷ log)

abbrev pub after_log : List ℕ → Result (List ℕ) → List ℕ
after_log log (ok log') = log'
after_log log (err e) = log

unfoldable pub run_log : List ℕ → List ℤ → List ℕ
run_log log [] = log
run_log log (c ∷ cs) = run_log (after_log log (judge_log log c)) cs

unfoldable pub log_verdicts : List ℕ → List ℤ → List (Option RejectionCode)
log_verdicts log [] = []
log_verdicts log (c ∷ cs) =
    verdict (judge_log log c) ∷ log_verdicts (after_log log (judge_log log c)) cs

-- No counter stands twice.
abbrev pub Distinct : List ℕ → Type 0
Distinct [] = Unit
Distinct (c ∷ log) = (has c log ≡ false) × Distinct log

pub has-le-newest : (log : List ℕ) (c : ℕ) → has c log ≡ true → leb_ℤ (pos c) (newest log) ≡ true
has-le-newest [] c h = cc
has-le-newest (x ∷ log) c h = ground (arith, has-le-newest log c, ==_iff x c)

pub not-has-newer : (log : List ℕ) (c : ℕ) → ltb_ℤ (newest log) (pos c) ≡ true → has c log ≡ false
not-has-newer log c h = ground (arith, has-le-newest log c)

judge_log-Distinct :
    (log : List ℕ) (c : ℤ) → Distinct log → Distinct (after_log log (judge_log log c))
unfolding judge_log
judge_log-Distinct log (negsuc n) d = d
judge_log-Distinct log (pos c) d = ground (arith, not-has-newer log c)

pub run_log-Distinct : (log : List ℕ) (cs : List ℤ) → Distinct log → Distinct (run_log log cs)
unfolding run_log
run_log-Distinct log [] d = d
run_log-Distinct log (c ∷ cs) d =
    run_log-Distinct (after_log log (judge_log log c)) cs (judge_log-Distinct log c d)

-- A counter that is new to the log and inside the window is recorded.
pub judge_log_fresh :
    (log : List ℕ) (c : ℕ)
    → c ≤ max_counter
    → has c log ≡ false
    → ltb_ℤ (newest log) (pos (c + window_counters)) ≡ true
    → judge_log log (pos c) ≡ ok (c ∷ log)
unfolding judge_log
judge_log_fresh log c h fresh near = ground arith
