-- ===== src/E2ee/Context/Coupling.antt =====
-- The receive window and the response sealer of a REST context move together: what the window
-- admits the sealer accepts.
use threadbase_streamer.Prelude.{
  ℕ, ◌≡◌, refl, sym, ap, subst, ◌∙◌, [], ◌∷◌, ◌++◌, true, false, not, ◌==◌, ==_iff, has, keep_if,
  arith, inl, inr,
}
use threadbase_streamer.Prelude.Int.{pos, ltb_ℤ, leb_ℤ}
use threadbase_streamer.E2ee.Protocol.{ok}
use threadbase_streamer.E2ee.Bitmap.{test, mark, slide, IsBitmap}
use threadbase_streamer.E2ee.Bitmap.Laws.{test-mark, mark-IsBitmap, slide-IsBitmap, test-slide}
use threadbase_streamer.E2ee.RestWindow.{RestReceiveWindow, admit}
use threadbase_streamer.E2ee.RestWindow.Admission.{Ahead, Within, admit-eq-ok}
use threadbase_streamer.E2ee.Record.Sealer.{
  RestResponseSealer, is_below, is_answered, advance_to, accept, spend, mark_answered,
}
use threadbase_streamer.E2ee.Record.Sealer.Invariant.{has-keep_if, has-append}

module _ {Key : Type 0} where
  -- One high-water mark; what was answered was seen; what waits was seen and is in the window.
  pub record Coupled (w : RestReceiveWindow) (s : RestResponseSealer Key) : Type 0 where
    pub marks : s.accepted_high_water ≡ w.high_water
    pub seen : IsBitmap w.seen_bits
    pub answered : IsBitmap s.answered_bits
    pub covered :
        (d : ℕ)
        → leb_ℤ (pos d) w.high_water ≡ true
        → is_below w.high_water d ≡ false
        → test s.answered_bits d ≡ true
        → test w.seen_bits d ≡ true
    pub waiting :
        (d : ℕ)
        → has d s.outstanding ≡ true
        → (leb_ℤ (pos d) w.high_water ≡ true)
          × (is_below w.high_water d ≡ false)
          × (test w.seen_bits d ≡ true)

  -- The sealer after an acceptance: the advance, and the counter at the end of the queue.
  abbrev pub armed : RestResponseSealer Key → ℕ → RestResponseSealer Key
  armed s c = record (advance_to s c) { outstanding = (advance_to s c).outstanding ++ c ∷ [] }

  -- Below or at the mark `advanceTo` does nothing; above it the window slides.
  advance_to_low :
      (s : RestResponseSealer Key) (c : ℕ)
      → leb_ℤ (pos c) s.accepted_high_water ≡ true
      → advance_to s c ≡ s
  unfolding advance_to
  advance_to_low s c h = rw h

  abbrev slid : RestResponseSealer Key → ℕ → RestResponseSealer Key
  slid s c = record s {
    outstanding = keep_if (λ d. not (is_below (pos c) d)) s.outstanding;
    answered_bits = slide s.answered_bits s.accepted_high_water c;
    accepted_high_water = pos c;
  }

  advance_to_high :
      (s : RestResponseSealer Key) (c : ℕ)
      → leb_ℤ (pos c) s.accepted_high_water ≡ false
      → advance_to s c ≡ slid s c
  unfolding advance_to
  advance_to_high s c h = rw h

  -- Adding the counter that was just marked as seen.
  arm-Coupled :
      (w w' : RestReceiveWindow) (s : RestResponseSealer Key) (c : ℕ)
      → Coupled w s
      → leb_ℤ (pos c) w.high_water ≡ true
      → is_below w.high_water c ≡ false
      → w'.seen_bits ≡ mark w.seen_bits c
      → w'.high_water ≡ w.high_water
      → Coupled w' (record s { outstanding = s.outstanding ++ c ∷ [] })
  arm-Coupled w w' s c k low near bits top = record {
    marks = k.marks ∙ sym top;
    seen = subst IsBitmap (sym bits) (mark-IsBitmap w.seen_bits c k.seen);
    answered = k.answered;
    covered = λ d p q r.
        ground (arith, k.covered d, test-mark w.seen_bits c k.seen d, top, ap (λ b. test b d) bits);
    waiting = λ d p. (
      ground (arith, k.waiting d, top, has-append d s.outstanding (c ∷ []), ==_iff c d),
      ground (arith, k.waiting d, top, has-append d s.outstanding (c ∷ []), ==_iff c d),
      ground (
        arith,
        k.waiting d,
        test-mark w.seen_bits c k.seen d,
        ap (λ b. test b d) bits,
        has-append d s.outstanding (c ∷ []),
        ==_iff c d,
      ),
    );
  }

  -- Both windows slide alike.
  slide-Coupled :
      (w : RestReceiveWindow) (s : RestResponseSealer Key) (c : ℕ)
      → Coupled w s
      → ltb_ℤ w.high_water (pos c) ≡ true
      → Coupled
          (record { seen_bits = slide w.seen_bits w.high_water c; high_water = pos c })
          (slid s c)
  slide-Coupled w s c k h = record {
    marks = refl;
    seen = slide-IsBitmap w.seen_bits w.high_water c k.seen;
    answered = slide-IsBitmap s.answered_bits s.accepted_high_water c k.answered;
    covered = λ d p q r. ground (
      arith,
      k.marks,
      k.covered d,
      test-slide w.seen_bits w.high_water c d k.seen,
      test-slide s.answered_bits s.accepted_high_water c d k.answered,
    );
    waiting = λ d p. (
      ground (arith, k.waiting d, has-keep_if (λ e. not (is_below (pos c) e)) d s.outstanding),
      ground (arith, k.waiting d, has-keep_if (λ e. not (is_below (pos c) e)) d s.outstanding),
      ground (
        arith,
        k.waiting d,
        test-slide w.seen_bits w.high_water c d k.seen,
        has-keep_if (λ e. not (is_below (pos c) e)) d s.outstanding,
      ),
    );
  }

  accept-Ahead :
      (w w' : RestReceiveWindow) (s : RestResponseSealer Key) (c : ℕ)
      → Coupled w s
      → Ahead w c w'
      → (accept s c ≡ ok (armed s c)) × Coupled w' (armed s c)
  unfolding accept is_answered advance_to
  accept-Ahead w w' s c k a = (
    ground (arith, k.marks, k.waiting c, a.newer),
    subst (λ t. Coupled w' (record t { outstanding = t.outstanding ++ c ∷ [] }))
        (sym (advance_to_high s c (ground (arith, k.marks, a.newer))))
        (arm-Coupled (record { seen_bits = slide w.seen_bits w.high_water c; high_water = pos c })
          w' (slid s c) c (slide-Coupled w s c k a.newer) (ground arith) (ground arith) a.bits
          a.top),
  )

  accept-Within :
      (w w' : RestReceiveWindow) (s : RestResponseSealer Key) (c : ℕ)
      → Coupled w s
      → Within w c w'
      → (accept s c ≡ ok (armed s c)) × Coupled w' (armed s c)
  unfolding accept is_answered advance_to
  accept-Within w w' s c k a = (
    ground (arith, k.marks, k.waiting c, a.low, a.near, a.unseen, k.covered c a.low a.near),
    subst (λ t. Coupled w' (record t { outstanding = t.outstanding ++ c ∷ [] }))
        (sym (advance_to_low s c (ground (arith, k.marks, a.low))))
        (arm-Coupled w w' s c k a.low a.near a.bits a.top),
  )

  -- The sealer accepts every counter that the window admits, and the two stay coupled.
  pub accept-admit :
      (w w' : RestReceiveWindow) (s : RestResponseSealer Key) (c : ℕ)
      → Coupled w s
      → admit w (pos c) ≡ ok w'
      → (accept s c ≡ ok (armed s c)) × Coupled w' (armed s c)
  accept-admit w w' s c k e = elim (admit-eq-ok w c w' e) [
    | inl a ↦ accept-Ahead w w' s c k a
    | inr a ↦ accept-Within w w' s c k a
  ]

  pub spend-Coupled :
      (w : RestReceiveWindow) (s : RestResponseSealer Key) (c : ℕ)
      → Coupled w s
      → has c s.outstanding ≡ true
      → Coupled w (spend s c)
  unfolding spend mark_answered
  spend-Coupled w s c k h = record {
    marks = k.marks;
    seen = k.seen;
    answered = mark-IsBitmap s.answered_bits c k.answered;
    covered = λ d p q r.
        ground (arith, k.covered d, k.waiting c h, test-mark s.answered_bits c k.answered d);
    waiting = λ d p. (
      ground (arith, k.waiting d, has-keep_if (λ e. not (e == c)) d s.outstanding),
      ground (arith, k.waiting d, has-keep_if (λ e. not (e == c)) d s.outstanding),
      ground (arith, k.waiting d, has-keep_if (λ e. not (e == c)) d s.outstanding),
    );
  }
