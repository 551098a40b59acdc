-- ===== src/E2ee/RestWindow/Tests.antt =====
-- The window on concrete histories.
use threadbase_streamer.Prelude.{◌≡◌, refl, List, [], ◌∷◌, none, some, arith}
use threadbase_streamer.Prelude.Int.{ℤ, pos, negsuc}
use threadbase_streamer.E2ee.Protocol.{ctx_unknown, sequence_violation, ok}
use threadbase_streamer.E2ee.Bitmap.{test, mark, clear, blank, slide, clear_from}
use threadbase_streamer.E2ee.RestWindow.{
  RestReceiveWindow, init, admit, run, verdicts, admitted, note, judge,
}
use threadbase_streamer.E2ee.RestWindow.Spec.{Distinct, log_verdicts}
use threadbase_streamer.E2ee.RestWindow.Refinement.{verdicts-refine, admitted-Distinct, admit_fresh}

bitmap_runs : Unit {0}
unfolding test mark clear blank slide clear_from
bitmap_runs = tt

-- Out of order, a replay, a counter out of range, a jump of more than a width, one left behind.
abbrev history : List ℤ
history = pos 3 ∷ pos 1 ∷ pos 3 ∷ negsuc 4 ∷ pos 1024 ∷ pos 0 ∷ pos 1 ∷ pos 2 ∷ pos 5000 ∷ []

history-verdicts :
    verdicts init history
    ≡ none
      ∷ none
      ∷ some sequence_violation
      ∷ some sequence_violation
      ∷ none
      ∷ some ctx_unknown
      ∷ some sequence_violation
      ∷ none
      ∷ none
      ∷ []
unfolding bitmap_runs verdicts init admit judge
history-verdicts = refl

verdicts-refine_example : verdicts init history ≡ log_verdicts [] history
verdicts-refine_example = verdicts-refine history

admitted-Distinct_example : Distinct (admitted init [] history)
admitted-Distinct_example = admitted-Distinct history

admit_fresh_example : (w : RestReceiveWindow) × (admit (run init history) (pos 4999) ≡ ok w)
unfolding bitmap_runs admitted init admit judge note
admit_fresh_example = admit_fresh history 4999 (omega arith) refl refl
