-- ===== src/E2ee/Bitmap/Tables.antt =====
-- What a write to one bit of a byte does to each bit of it, for every byte.
use Prim.Native.Nat.{bit_and, bit_or}
use threadbase_streamer.Prelude.{
  ℕ, zero, suc, ◌-◌, ◌/◌, ◌^◌, ◌<◌, ◌≡◌, refl, Bool, true, false, not, ◌&&◌, arith, ◌==◌,
  if◌then◌else◌,
}

-- A test of every number under a bound, by evaluation.
every : (ℕ → Bool) → ℕ → Bool
every p zero = true
every p (suc bound) = every p bound && p bound

every-at : (p : ℕ → Bool) (bound : ℕ) {v : ℕ} → v < bound → every p bound ≡ true → p v ≡ true
unfolding every
every-at p zero {v} below holds = absurd (omega arith)
every-at p (suc bound) {v} below holds = ground (arith, every-at p bound {v = v})

same : Bool → Bool → Bool
same true b = b
same false b = not b

same-eq : (a b : Bool) → same a b ≡ true → a ≡ b
unfolding same
same-eq a b h = ground arith

abbrev pub bit_of : ℕ → ℕ → Bool
bit_of b j = not (bit_and b (2 ^ j) == 0)

-- The two writes on one byte, at every byte and every pair of bits.
mark_law : ℕ → ℕ → ℕ → Bool
mark_law b i j = same (bit_of (bit_or b (2 ^ i)) j) (if i == j then true else bit_of b j)

clear_law : ℕ → ℕ → ℕ → Bool
clear_law b i j = same (bit_of (bit_and b (255 - 2 ^ i)) j) (if i == j then false else bit_of b j)

range_law : ℕ → ℕ → Bool
range_law b i = (bit_or b (2 ^ i) / 256 == 0) && (bit_and b (255 - 2 ^ i) / 256 == 0)

mark_table : every (λ b. every (λ i. every (λ j. mark_law b i j) 8) 8) 256 ≡ true
unfolding every mark_law same
mark_table = refl

clear_table : every (λ b. every (λ i. every (λ j. clear_law b i j) 8) 8) 256 ≡ true
unfolding every clear_law same
clear_table = refl

range_table : every (λ b. every (range_law b) 8) 256 ≡ true
unfolding every range_law
range_table = refl

zero_table : every (λ j. same (bit_of 0 j) false) 8 ≡ true
unfolding every same
zero_table = refl

lift :
    (law : ℕ → ℕ → ℕ → Bool) (b i j : ℕ)
    → every (λ b. every (λ i. every (λ j. law b i j) 8) 8) 256 ≡ true
    → b < 256
    → i < 8
    → j < 8
    → law b i j ≡ true
lift law b i j t hb hi hj = every-at (law b i) 8 hj (
    every-at (λ i. every (law b i) 8) 8 hi
      (every-at (λ b. every (λ i. every (law b i) 8) 8) 256 hb t))

pub mark_byte :
    (b i j : ℕ)
    → b < 256
    → i < 8
    → j < 8
    → bit_of (bit_or b (2 ^ i)) j ≡ (if i == j then true else bit_of b j)
unfolding mark_law
mark_byte b i j hb hi hj = same-eq _ _ (lift mark_law b i j mark_table hb hi hj)

pub clear_byte :
    (b i j : ℕ)
    → b < 256
    → i < 8
    → j < 8
    → bit_of (bit_and b (255 - 2 ^ i)) j ≡ (if i == j then false else bit_of b j)
unfolding clear_law
clear_byte b i j hb hi hj = same-eq _ _ (lift clear_law b i j clear_table hb hi hj)

range_byte : (b i : ℕ) → b < 256 → i < 8 → range_law b i ≡ true
range_byte b i hb hi =
    every-at (range_law b) 8 hi (every-at (λ b. every (range_law b) 8) 256 hb range_table)

pub mark_byte_lt : (b i : ℕ) → b < 256 → i < 8 → bit_or b (2 ^ i) < 256
unfolding range_law
mark_byte_lt b i hb hi = ground (arith, range_byte b i)

pub clear_byte_lt : (b i : ℕ) → b < 256 → i < 8 → bit_and b (255 - 2 ^ i) < 256
unfolding range_law
clear_byte_lt b i hb hi = ground (arith, range_byte b i)

pub bit_of_zero : (j : ℕ) → j < 8 → bit_of 0 j ≡ false
bit_of_zero j h = same-eq _ _ (every-at (λ j. same (bit_of 0 j) false) 8 h zero_table)
