-- ===== src/E2ee/RestWindow/Refinement.antt =====
-- The bitmap window implements the log of `Spec`.
use threadbase_streamer.Prelude.{
  ℕ, ◌+◌, ◌≤◌, ◌≡◌, refl, ap, List, [], ◌∷◌, true, false, some, arith, has,
}
use threadbase_streamer.Prelude.Int.{ℤ, pos, negsuc, ltb_ℤ, leb_ℤ}
use threadbase_streamer.E2ee.Protocol.{Result, ok, err}
use threadbase_streamer.E2ee.Bitmap.{window_counters, test, IsBitmap}
use threadbase_streamer.E2ee.Bitmap.Laws.{
  test-mark, mark-IsBitmap, test-blank, blank-IsBitmap, slide-IsBitmap, test-slide,
}
use threadbase_streamer.E2ee.RestWindow.{
  RestReceiveWindow, max_counter, init, mark_seen, advance_to, admit, after, verdict, run, verdicts,
  note, admitted,
}
use threadbase_streamer.E2ee.RestWindow.Spec.{
  newest, judge_log, after_log, run_log, log_verdicts, Distinct, not-has-newer, run_log-Distinct,
  judge_log_fresh,
}

-- The window stands for the log: the same newest counter, and in the window ending there, a bit
-- is set exactly at the counters of the log.
pub record Refines (w : RestReceiveWindow) (log : List ℕ) : Type 0 where
  pub bitmap : IsBitmap w.seen_bits
  pub top : w.high_water ≡ newest log
  pub seen :
      (d : ℕ)
      → leb_ℤ (pos d) w.high_water ≡ true
      → ltb_ℤ w.high_water (pos (d + window_counters)) ≡ true
      → test w.seen_bits d ≡ has d log

pub init-Refines : Refines init []
unfolding init
init-Refines = record { bitmap = blank-IsBitmap; top = refl; seen = λ d _ _. test-blank d }

module _ {w : RestReceiveWindow} {log : List ℕ} (r : Refines w log) (c : ℕ) where
  -- A counter inside the window is recorded.
  mark_seen-Refines :
      leb_ℤ (pos c) w.high_water ≡ true
      → ltb_ℤ w.high_water (pos (c + window_counters)) ≡ true
      → Refines (mark_seen w c) (c ∷ log)
  unfolding mark_seen
  mark_seen-Refines h k = record {
    bitmap = mark-IsBitmap w.seen_bits c r.bitmap;
    top = ground (arith, r.top);
    seen = λ d p q. ground (arith, test-mark w.seen_bits c r.bitmap d, r.seen d p q);
  }

  -- A newer counter moves the window.
  advance_to-Refines :
      ltb_ℤ w.high_water (pos c) ≡ true → Refines (mark_seen (advance_to w c) c) (c ∷ log)
  unfolding mark_seen advance_to
  advance_to-Refines h = record {
    bitmap = mark-IsBitmap _ c (slide-IsBitmap w.seen_bits w.high_water c r.bitmap);
    top = ground (arith, r.top);
    seen = λ d p q. ground (
      arith,
      test-mark _ c (slide-IsBitmap w.seen_bits w.high_water c r.bitmap) d,
      test-slide w.seen_bits w.high_water c d r.bitmap,
      r.seen d,
      r.top,
      not-has-newer log d,
    );
  }

-- The two answers agree: the same code, or states that stand for one another.
abbrev pub Agrees : Result RestReceiveWindow → Result (List ℕ) → Type 0
Agrees (ok w) (ok log) = Refines w log
Agrees (err e) (err f) = e ≡ f
Agrees (ok w) (err f) = ⊥
Agrees (err e) (ok log) = ⊥

pub admit-Agrees :
    (w : RestReceiveWindow) (log : List ℕ) (c : ℤ)
    → Refines w log
    → Agrees (admit w c) (judge_log log c)
unfolding admit judge_log
admit-Agrees w log (negsuc n) r = refl
admit-Agrees w log (pos c) r =
    ground (arith, r.top, r.seen c, mark_seen-Refines r c, advance_to-Refines r c)

-- So the states and the answers of a whole history agree.
Refines-after :
    (w : RestReceiveWindow) (log : List ℕ) (x : Result RestReceiveWindow) (y : Result (List ℕ))
    → Refines w log
    → Agrees x y
    → Refines (after w x) (after_log log y) × (verdict x ≡ verdict y)
Refines-after w log (ok w') (ok log') r a = (a, refl)
Refines-after w log (err e) (err f) r a = (r, ap some a)
Refines-after w log (ok w') (err f) r a = absurd a
Refines-after w log (err e) (ok log') r a = absurd a

run-Refines :
    (w : RestReceiveWindow) (log : List ℕ) (cs : List ℤ)
    → Refines w log
    → Refines (run w cs) (run_log log cs) × (verdicts w cs ≡ log_verdicts log cs)
unfolding run run_log verdicts log_verdicts
run-Refines w log [] r = (r, refl)
run-Refines w log (c ∷ cs) r =
    let (r', e) = Refines-after w log (admit w c) (judge_log log c) r (admit-Agrees w log c r) in
    let (r'', es) = run-Refines (after w (admit w c)) (after_log log (judge_log log c)) cs r' in
    (r'', cc)

-- The counters admitted are those of the log.
note_lem :
    (w : RestReceiveWindow) (log : List ℕ) (c : ℤ)
    → Refines w log
    → note (admit w c) c log ≡ after_log log (judge_log log c)
unfolding note admit judge_log
note_lem w log (negsuc n) r = refl
note_lem w log (pos c) r = ground (arith, r.top, r.seen c)

admitted-eq-run_log :
    (w : RestReceiveWindow) (log : List ℕ) (cs : List ℤ)
    → Refines w log
    → admitted w log cs ≡ run_log log cs
unfolding admitted run_log
admitted-eq-run_log w log [] r = refl
admitted-eq-run_log w log (c ∷ cs) r =
    let e = note_lem w log c r in
    let r' = (Refines-after w log (admit w c) (judge_log log c) r (admit-Agrees w log c r)).0 in
    rw e (admitted-eq-run_log (after w (admit w c)) (after_log log (judge_log log c)) cs r')

-- For every history of counters, integers out of range included, the answers of the bitmap window
-- are those of the log of all admitted counters: each code, in each place.
pub verdicts-refine : (cs : List ℤ) → verdicts init cs ≡ log_verdicts [] cs
verdicts-refine cs = (run-Refines init [] cs init-Refines).1

-- In any history no counter is admitted twice.
pub admitted-Distinct : (cs : List ℤ) → Distinct (admitted init [] cs)
admitted-Distinct cs = rw (admitted-eq-run_log init [] cs init-Refines) (run_log-Distinct [] cs tt)

-- After any history, a counter within 64 bits that was not admitted before and that lies less than
-- 1024 behind the newest admitted one is admitted.
pub admit_fresh :
    (cs : List ℤ) (c : ℕ)
    → c ≤ max_counter
    → has c (admitted init [] cs) ≡ false
    → ltb_ℤ (newest (admitted init [] cs)) (pos (c + window_counters)) ≡ true
    → (w : RestReceiveWindow) × (admit (run init cs) (pos c) ≡ ok w)
admit_fresh cs c h fresh near = answered (admit (run init cs) (pos c)) (rw spec at agrees)
  where
    same : admitted init [] cs ≡ run_log [] cs
    same = admitted-eq-run_log init [] cs init-Refines

    agrees : Agrees (admit (run init cs) (pos c)) (judge_log (run_log [] cs) (pos c))
    agrees =
        admit-Agrees (run init cs) (run_log [] cs) (pos c) (run-Refines init [] cs init-Refines).0

    spec : judge_log (run_log [] cs) (pos c) ≡ ok (c ∷ run_log [] cs)
    spec = rw (← same) (judge_log_fresh (admitted init [] cs) c h fresh near)

    answered :
        (x : Result RestReceiveWindow)
        → Agrees x (ok (c ∷ run_log [] cs))
        → (w : RestReceiveWindow) × (x ≡ ok w)
    answered (ok w) a = (w, refl)
    answered (err e) a = absurd a
