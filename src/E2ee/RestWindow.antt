-- ===== src/E2ee/RestWindow.antt =====
-- src/e2ee/rest-window.ts: the sliding window over the counters of the REST request channel.
-- A `bigint` counter is an integer; the high-water mark starts at -1.
pub mod Spec
pub mod Refinement
pub mod Admission
pub mod Tests
use threadbase_streamer.Prelude.{
  ℕ, ◌+◌, List, [], ◌∷◌, Bool, true, false, Option, none, some, ltb, if◌then◌else◌,
}
use threadbase_streamer.Prelude.Int.{ℤ, pos, negsuc, ltb_ℤ, leb_ℤ}
use threadbase_streamer.E2ee.Protocol.{
  Result, ok, err, RejectionCode, ctx_unknown, sequence_violation,
}
use threadbase_streamer.E2ee.Bitmap.{window_counters, test, mark, blank, slide}

-- 2 ^ 64 - 1.
abbrev pub max_counter : ℕ
max_counter = 18446744073709551615

pub record RestReceiveWindow : Type 0 where
  pub seen_bits : List ℕ
  pub high_water : ℤ

unfoldable pub init : RestReceiveWindow
init = record { seen_bits = blank; high_water = negsuc 0 }

below_window : RestReceiveWindow → ℕ → Bool
below_window w c = leb_ℤ (pos (c + window_counters)) w.high_water

is_seen : RestReceiveWindow → ℕ → Bool
is_seen w c = test w.seen_bits c

mark_seen : RestReceiveWindow → ℕ → RestReceiveWindow
mark_seen w c = record w { seen_bits = mark w.seen_bits c }

advance_to : RestReceiveWindow → ℕ → RestReceiveWindow
advance_to w c = record { seen_bits = slide w.seen_bits w.high_water c; high_water = pos c }

-- The tests of `admit` after the range check.
judge : RestReceiveWindow → ℕ → Result RestReceiveWindow
unfolding below_window is_seen mark_seen advance_to
judge w c =
    if ltb_ℤ w.high_water (pos c)
    then ok (mark_seen (advance_to w c) c)
    else if below_window w c
    then err ctx_unknown
    else if is_seen w c
    then err sequence_violation
    else ok (mark_seen w c)

-- `admit`: the window with the counter recorded, or the code that is thrown.
unfoldable pub admit : RestReceiveWindow → ℤ → Result RestReceiveWindow
unfolding judge
admit w (negsuc n) = err sequence_violation
admit w (pos c) = if ltb max_counter c then err sequence_violation else judge w c

-- A throw leaves the window as it was.
abbrev pub after : RestReceiveWindow → Result RestReceiveWindow → RestReceiveWindow
after w (ok w') = w'
after w (err e) = w

abbrev pub verdict {ℓ} : {A : Type ℓ} → Result A → Option RejectionCode
verdict (ok a) = none
verdict (err e) = some e

-- The window after a history of calls, and the answer to each call.
unfoldable pub run : RestReceiveWindow → List ℤ → RestReceiveWindow
run w [] = w
run w (c ∷ cs) = run (after w (admit w c)) cs

unfoldable pub verdicts : RestReceiveWindow → List ℤ → List (Option RejectionCode)
verdicts w [] = []
verdicts w (c ∷ cs) = verdict (admit w c) ∷ verdicts (after w (admit w c)) cs

-- A log of counters with the counter of a call that was admitted.
unfoldable pub note {ℓ} : {A : Type ℓ} → Result A → ℤ → List ℕ → List ℕ
note (ok w) (pos n) log = n ∷ log
note (ok w) (negsuc n) log = log
note (err e) c log = log

-- The counters that a history of calls has admitted, the last first, before those of `log`.
unfoldable pub admitted : RestReceiveWindow → List ℕ → List ℤ → List ℕ
admitted w log [] = log
admitted w log (c ∷ cs) = admitted (after w (admit w c)) (note (admit w c) c log) cs
