-- ===== src/E2ee/RestWindow/Admission.antt =====
-- The two ways in which the window admits a counter, and what each leaves behind.
use threadbase_streamer.Prelude.{ℕ, ◌+◌, ◌≡◌, ap, ◌⊎◌, inl, inr, true, false, arith, Bool-cases}
use threadbase_streamer.Prelude.Int.{pos, ltb_ℤ, leb_ℤ}
use threadbase_streamer.E2ee.Protocol.{ok, err, sequence_violation}
use threadbase_streamer.E2ee.Bitmap.{window_counters, test, mark, slide, IsBitmap}
use threadbase_streamer.E2ee.Bitmap.Laws.{test-mark, slide-IsBitmap}
use threadbase_streamer.E2ee.RestWindow.{RestReceiveWindow, admit}

-- The counter is newer than all, and the window moves up to it.
pub record Ahead (w : RestReceiveWindow) (c : ℕ) (w' : RestReceiveWindow) : Type 0 where
  pub newer : ltb_ℤ w.high_water (pos c) ≡ true
  pub bits : w'.seen_bits ≡ mark (slide w.seen_bits w.high_water c) c
  pub top : w'.high_water ≡ pos c

-- The counter lies in the window and was not seen.
pub record Within (w : RestReceiveWindow) (c : ℕ) (w' : RestReceiveWindow) : Type 0 where
  pub low : leb_ℤ (pos c) w.high_water ≡ true
  pub near : leb_ℤ (pos (c + window_counters)) w.high_water ≡ false
  pub unseen : test w.seen_bits c ≡ false
  pub bits : w'.seen_bits ≡ mark w.seen_bits c
  pub top : w'.high_water ≡ w.high_water

pub admit-eq-ok :
    (w : RestReceiveWindow) (c : ℕ) (w' : RestReceiveWindow)
    → admit w (pos c) ≡ ok w'
    → Ahead w c w' ⊎ Within w c w'
unfolding admit
admit-eq-ok w c w' e = elim (Bool-cases (ltb_ℤ w.high_water (pos c))) [
  | inl h ↦ inl (record { newer = h; bits = ground arith; top = ground arith })
  | inr h ↦ inr (record {
    low = ground arith;
    near = ground arith;
    unseen = ground arith;
    bits = ground arith;
    top = ground arith;
  })
]

-- The counter that was just admitted is refused as a replay.
pub admit_again :
    (w : RestReceiveWindow) (c : ℕ) (w' : RestReceiveWindow)
    → IsBitmap w.seen_bits
    → admit w (pos c) ≡ ok w'
    → admit w' (pos c) ≡ err sequence_violation
unfolding admit
admit_again w c w' m e = elim (admit-eq-ok w c w' e) [
  | inl a ↦ ground (
    arith,
    a.top,
    ap (λ b. test b c) a.bits,
    test-mark _ c (slide-IsBitmap w.seen_bits w.high_water c m) c,
  )
  | inr a ↦
      ground (arith, a.top, a.low, a.near, ap (λ b. test b c) a.bits, test-mark w.seen_bits c m c)
]
