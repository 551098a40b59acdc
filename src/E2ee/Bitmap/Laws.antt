-- ===== src/E2ee/Bitmap/Laws.antt =====
-- The bitmap as a set of positions: what `test` gives after `mark`, `clear` and `blank`.
use threadbase_streamer.Prelude.{
  ℕ, zero, suc, ◌+◌, ◌-◌, ◌%◌, ◌≤◌, ◌<◌, ◌≡◌, refl, ap, ◌∙◌, Bool, true, false, List, [], ◌∷◌,
  arith, leb, ◌==◌, ==_iff, if◌then◌else◌, length, get_or, set, replicate, length-set,
  length-replicate, get_or-set_self, get_or-set_ne, All, Bool-cases, inl, inr,
}
use threadbase_streamer.E2ee.Bitmap.{
  window_counters, index, test, mark, clear, blank, IsBitmap, clear_from, slide,
}
use threadbase_streamer.Prelude.Int.{ℤ, pos, negsuc, ltb_ℤ, leb_ℤ}
use threadbase_streamer.E2ee.Bitmap.Tables.{
  bit_of, mark_byte, clear_byte, mark_byte_lt, clear_byte_lt, bit_of_zero,
}

get_or-lt : (bits : List ℕ) (i : ℕ) → All (λ b. b < 256) bits → get_or bits i 0 < 256
get_or-lt [] i h = omega arith
get_or-lt (b ∷ bits) zero h = h.0
get_or-lt (b ∷ bits) (suc i) h = get_or-lt bits i h.1

All-set :
    (bits : List ℕ) (i v : ℕ)
    → All (λ b. b < 256) bits
    → v < 256
    → All (λ b. b < 256) (set bits i v)
All-set [] i v h hv = tt
All-set (b ∷ bits) zero v h hv = (hv, h.1)
All-set (b ∷ bits) (suc i) v h hv = (h.0, All-set bits i v h.1 hv)

-- A write of one byte, seen through a bit: `f` is what the write does to a bit of the byte.
write_lem :
    (bits : List ℕ) (c d v : ℕ) (a : Bool)
    → length bits ≡ 128
    → ((j : ℕ)
        → j < 8
        → bit_of v j
          ≡ (if c % window_counters % 8 == j then a else bit_of (get_or bits (index c) 0) j))
    → test (set bits (index c) v) d
      ≡ (if c % window_counters == d % window_counters then a else test bits d)
unfolding test
write_lem bits c d v a size h = elim (Bool-cases (index c == index d)) [
  | inl here ↦ ground (
    arith,
    ==_iff (index c) (index d),
    ap (λ i. get_or (set bits (index c) v) i 0) ((==_iff (index c) (index d)).0 here),
    ap (λ i. get_or bits i 0) ((==_iff (index c) (index d)).0 here),
    get_or-set_self bits (index c) v 0 (omega arith),
    h (d % window_counters % 8) (omega arith),
  )
  | inr there ↦ ground (arith, get_or-set_ne bits (index c) (index d) v 0)
]

module _ (bits : List ℕ) (c : ℕ) (m : IsBitmap bits) where
  pub test-mark :
      (d : ℕ)
      → test (mark bits c) d
        ≡ (if c % window_counters == d % window_counters then true else test bits d)
  unfolding mark
  test-mark d =
      write_lem bits c d _ true m.size
        λ j hj. mark_byte _ _ j (get_or-lt bits (index c) m.bytes) (omega arith) hj

  pub test-clear :
      (d : ℕ)
      → test (clear bits c) d
        ≡ (if c % window_counters == d % window_counters then false else test bits d)
  unfolding clear
  test-clear d =
      write_lem bits c d _ false m.size
        λ j hj. clear_byte _ _ j (get_or-lt bits (index c) m.bytes) (omega arith) hj

  pub mark-IsBitmap : IsBitmap (mark bits c)
  unfolding mark
  mark-IsBitmap = record {
    size = length-set bits _ _ ∙ m.size;
    bytes =
        All-set bits _ _ m.bytes
          (mark_byte_lt _ _ (get_or-lt bits (index c) m.bytes) (omega arith));
  }

  pub clear-IsBitmap : IsBitmap (clear bits c)
  unfolding clear
  clear-IsBitmap = record {
    size = length-set bits _ _ ∙ m.size;
    bytes =
        All-set bits _ _ m.bytes
          (clear_byte_lt _ _ (get_or-lt bits (index c) m.bytes) (omega arith));
  }

get_or-replicate : (n i : ℕ) → ◌≡◌ {A = ℕ} (get_or (replicate n 0) i 0) 0
get_or-replicate zero i = refl
get_or-replicate (suc n) zero = refl
get_or-replicate (suc n) (suc i) = get_or-replicate n i

All-replicate : (n : ℕ) → All (λ b. b < 256) (replicate n 0)
All-replicate zero = tt
All-replicate (suc n) = (omega arith, All-replicate n)

pub test-blank : (d : ℕ) → test blank d ≡ false
unfolding test blank
test-blank d =
    rw (get_or-replicate 128 (index d)) (bit_of_zero (d % window_counters % 8) (omega arith))

pub blank-IsBitmap : IsBitmap blank
unfolding blank
blank-IsBitmap = record { size = length-replicate {A = ℕ} 128 0; bytes = All-replicate 128 }

pub clear_from-IsBitmap : (n c : ℕ) (bits : List ℕ) → IsBitmap bits → IsBitmap (clear_from n c bits)
unfolding clear_from
clear_from-IsBitmap zero c bits m = m
clear_from-IsBitmap (suc n) c bits m =
    clear_from-IsBitmap n (c + 1) (clear bits c) (clear-IsBitmap bits c m)

-- The loop clears the positions from `s` up to `s + n` and no other of the window below `s + n`.
test-clear_from :
    (n s : ℕ) (bits : List ℕ) (d : ℕ)
    → IsBitmap bits
    → d < s + n
    → s + n ≤ d + window_counters
    → test (clear_from n s bits) d ≡ (if leb s d then false else test bits d)
unfolding clear_from
test-clear_from zero s bits d m h k = ground arith
test-clear_from (suc n) s bits d m h k = ground (
  arith,
  test-clear_from n (s + 1) (clear bits s) d (clear-IsBitmap bits s m),
  test-clear bits s m d,
)

pub slide-IsBitmap : (bits : List ℕ) (hw : ℤ) (c : ℕ) → IsBitmap bits → IsBitmap (slide bits hw c)
unfolding slide
slide-IsBitmap bits (negsuc n) c m = blank-IsBitmap
slide-IsBitmap bits (pos h) c m =
    ground (arith, blank-IsBitmap, clear_from-IsBitmap (c - h) (h + 1) bits m)

-- After a slide from `hw` up to `c`, a position of the window that ends at `c` reads as before if
-- it is no later than `hw`, and as clear if it is new.
pub test-slide :
    (bits : List ℕ) (hw : ℤ) (c d : ℕ)
    → IsBitmap bits
    → ltb_ℤ hw (pos c) ≡ true
    → d ≤ c
    → c < d + window_counters
    → test (slide bits hw c) d ≡ (if leb_ℤ (pos d) hw then test bits d else false)
unfolding slide
test-slide bits (negsuc n) c d m h k l = ground (arith, test-blank d)
test-slide bits (pos h) c d m p k l =
    ground (arith, test-blank d, test-clear_from (c - h) (h + 1) bits d m)
