-- ===== src/E2ee/Record/Sealer/Invariant.antt =====
-- The bitmap of answered counters against the log of all counters that were ever sealed.
use threadbase_streamer.Prelude.{
  ℕ, ◌≡◌, refl, ap, sym, subst, ◌∙◌, List, [], ◌∷◌, ◌++◌, Bool, true, false, not, ◌&&◌, ◌||◌, ◌==◌,
  ==_iff, has, keep_if, arith, Bool-cases, inl, inr,
}
use mathlib.Core.Bool.{false≢true}
use threadbase_streamer.Prelude.Int.{pos, negsuc, leb_ℤ}
use threadbase_streamer.E2ee.Protocol.{ok}
use threadbase_streamer.E2ee.Bitmap.{test, blank, IsBitmap}
use threadbase_streamer.E2ee.Bitmap.Laws.{
  test-mark, mark-IsBitmap, blank-IsBitmap, slide-IsBitmap, test-slide,
}
use threadbase_streamer.E2ee.Record.Sealer.{
  RestResponseSealer, is_below, create, is_answered, mark_answered, advance_to, accept, spend,
}

pub has-keep_if : (p : ℕ → Bool) (c : ℕ) (xs : List ℕ) → has c (keep_if p xs) ≡ (has c xs && p c)
has-keep_if p c [] = refl
has-keep_if p c (x ∷ xs) = ground (arith, has-keep_if p c xs, ==_iff x c, ap p)

pub has-append : (c : ℕ) (xs ys : List ℕ) → has c (xs ++ ys) ≡ (has c xs || has c ys)
has-append c [] ys = refl
has-append c (x ∷ xs) ys = ground (arith, has-append c xs ys)

module _ {Key : Type 0} where
  -- In the window the bits cover the log; nothing of the log lies above the mark; and what waits for
  -- its response lies in the window and is not in the log.
  pub record Inv (s : RestResponseSealer Key) (log : List ℕ) : Type 0 where
    pub bitmap : IsBitmap s.answered_bits
    pub bound : (d : ℕ) → has d log ≡ true → leb_ℤ (pos d) s.accepted_high_water ≡ true
    pub answered :
        (d : ℕ)
        → leb_ℤ (pos d) s.accepted_high_water ≡ true
        → is_below s.accepted_high_water d ≡ false
        → has d log ≡ true
        → test s.answered_bits d ≡ true
    pub waiting :
        (d : ℕ)
        → has d s.outstanding ≡ true
        → (leb_ℤ (pos d) s.accepted_high_water ≡ true)
          × (is_below s.accepted_high_water d ≡ false)
          × (has d log ≡ false)

  -- A new sealer, over any key and handle.
  pub create-Inv :
      (key : Key) (ctx_id : List ℕ) (s : RestResponseSealer Key)
      → create key ctx_id ≡ ok s
      → Inv s []
  unfolding create
  create-Inv key ctx_id s h = of_fields s (ground arith) (ground arith) (ground arith)
    where
      of_fields :
          (s : RestResponseSealer Key)
          → s.outstanding ≡ []
          → s.answered_bits ≡ blank
          → s.accepted_high_water ≡ negsuc 0
          → Inv s []
      of_fields s o b w = record {
        bitmap = subst IsBitmap (sym b) blank-IsBitmap;
        bound = λ d p. cc;
        answered = λ d p q r. cc;
        waiting = λ d p. absurd (false≢true (sym (ap (has d) o) ∙ p));
      }

  pub advance_to-Inv :
      (s : RestResponseSealer Key) (log : List ℕ) (c : ℕ) → Inv s log → Inv (advance_to s c) log
  unfolding advance_to
  advance_to-Inv s log c v = elim (Bool-cases (leb_ℤ (pos c) s.accepted_high_water)) [
    | inl h ↦ rw h v
    | inr h ↦ rw h (record {
      bitmap = slide-IsBitmap s.answered_bits s.accepted_high_water c v.bitmap;
      bound = λ d p. ground (arith, v.bound d p);
      answered = λ d p q r. ground (
        arith,
        test-slide s.answered_bits s.accepted_high_water c d v.bitmap,
        v.answered d,
        v.bound d,
      );
      waiting = λ d p. (
        ground (arith, v.waiting d, has-keep_if (λ e. not (is_below (pos c) e)) d s.outstanding),
        ground (arith, v.waiting d, has-keep_if (λ e. not (is_below (pos c) e)) d s.outstanding),
        ground (arith, v.waiting d, has-keep_if (λ e. not (is_below (pos c) e)) d s.outstanding),
      );
    })
  ]

  -- The sealer that `accept` returns, and what its tests have shown of the counter.
  pub accept-eq-ok :
      (s s' : RestResponseSealer Key) (c : ℕ)
      → accept s c ≡ ok s'
      → (is_below s.accepted_high_water c ≡ false)
        × (is_answered s c ≡ false)
        × (s' ≡ record (advance_to s c) { outstanding = (advance_to s c).outstanding ++ c ∷ [] })
  unfolding accept
  accept-eq-ok s s' c e = (ground arith, ground arith, ground arith)

  pub advance_to-covers :
      (s : RestResponseSealer Key) (c : ℕ)
      → is_below s.accepted_high_water c ≡ false
      → (leb_ℤ (pos c) (advance_to s c).accepted_high_water ≡ true)
        × (is_below (advance_to s c).accepted_high_water c ≡ false)
  unfolding advance_to
  advance_to-covers s c h = (ground arith, ground arith)

  not-has_of_unanswered :
      (s : RestResponseSealer Key) (log : List ℕ) (c : ℕ)
      → Inv s log
      → is_below s.accepted_high_water c ≡ false
      → is_answered s c ≡ false
      → has c log ≡ false
  unfolding is_answered
  not-has_of_unanswered s log c v h k = ground (arith, v.bound c, v.answered c)

  wait-Inv :
      (s : RestResponseSealer Key) (log : List ℕ) (c : ℕ)
      → Inv s log
      → leb_ℤ (pos c) s.accepted_high_water ≡ true
      → is_below s.accepted_high_water c ≡ false
      → has c log ≡ false
      → Inv (record s { outstanding = s.outstanding ++ c ∷ [] }) log
  wait-Inv s log c v h k n = record {
    bitmap = v.bitmap;
    bound = v.bound;
    answered = v.answered;
    waiting = λ d p. (
      ground (arith, v.waiting d, has-append d s.outstanding (c ∷ []), ==_iff c d),
      ground (arith, v.waiting d, has-append d s.outstanding (c ∷ []), ==_iff c d),
      ground (arith, v.waiting d, has-append d s.outstanding (c ∷ []), ==_iff c d),
    );
  }

  pub accept-Inv :
      (s s' : RestResponseSealer Key) (log : List ℕ) (c : ℕ)
      → accept s c ≡ ok s'
      → Inv s log
      → Inv s' log
  accept-Inv s s' log c e v =
      let (near, new, moved) = accept-eq-ok s s' c e in
      let (low, high) = advance_to-covers s c near in
      subst (λ t. Inv t log) (sym moved)
        (wait-Inv (advance_to s c) log c (advance_to-Inv s log c v) low high
          (not-has_of_unanswered s log c v near new))

  pub spend-Inv :
      (s : RestResponseSealer Key) (log : List ℕ) (c : ℕ)
      → has c s.outstanding ≡ true
      → Inv s log
      → Inv (spend s c) (c ∷ log)
  unfolding spend mark_answered
  spend-Inv s log c h v = record {
    bitmap = mark-IsBitmap s.answered_bits c v.bitmap;
    bound = λ d p. ground (arith, v.bound d, v.waiting c h, ==_iff c d);
    answered = λ d p q r.
        ground (arith, test-mark s.answered_bits c v.bitmap d, v.answered d p q, ==_iff c d);
    waiting = λ d p. (
      ground (arith, v.waiting d, has-keep_if (λ e. not (e == c)) d s.outstanding),
      ground (arith, v.waiting d, has-keep_if (λ e. not (e == c)) d s.outstanding),
      ground (arith, v.waiting d, has-keep_if (λ e. not (e == c)) d s.outstanding),
    );
  }

  -- The smaller log is covered too.
  pub forget-Inv : (s : RestResponseSealer Key) (log : List ℕ) (c : ℕ) → Inv s (c ∷ log) → Inv s log
  forget-Inv s log c v = record {
    bitmap = v.bitmap;
    bound = λ d p. ground (arith, v.bound d);
    answered = λ d p q r. ground (arith, v.answered d p q);
    waiting = λ d p.
        (ground (arith, v.waiting d), ground (arith, v.waiting d), ground (arith, v.waiting d));
  }
