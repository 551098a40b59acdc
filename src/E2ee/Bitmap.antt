-- ===== src/E2ee/Bitmap.antt =====
-- The bitmap of 1024 positions in a `Uint8Array(128)`, which src/e2ee/rest-window.ts and
-- src/e2ee/record.ts keep: `bit`, the test of a position, and the two writes.
pub mod Tables
pub mod Laws
use Prim.Native.Nat.{bit_and, bit_or}
use threadbase_streamer.Prelude.Int.{ℤ, pos, negsuc}
use threadbase_streamer.Prelude.{
  ℕ, zero, suc, ◌+◌, ◌-◌, ◌*◌, ◌/◌, ◌%◌, ◌^◌, ◌≤◌, ◌<◌, ◌≡◌, ◌≢◌, refl, ap, sym, ◌∙◌, Bool, true,
  false, not, ◌&&◌, List, [], ◌∷◌, arith, leb, ◌==◌, ==_iff, if◌then◌else◌, length, get_or, set,
  replicate, length-set, length-replicate, get_or-set_self, get_or-set_ne, All, Bool-cases, inl,
  inr,
}

abbrev pub window_counters : ℕ
window_counters = 1024

abbrev pub index : ℕ → ℕ
index counter = counter % window_counters / 8

abbrev pub mask : ℕ → ℕ
mask counter = 2 ^ (counter % window_counters % 8)

-- `(bits[index] & mask) !== 0`.
unfoldable pub test : List ℕ → ℕ → Bool
test bits c = not (bit_and (get_or bits (index c) 0) (mask c) == 0)

-- `bits[index] |= mask`.
unfoldable pub mark : List ℕ → ℕ → List ℕ
mark bits c = set bits (index c) (bit_or (get_or bits (index c) 0) (mask c))

-- `bits[index] &= ~mask`, in a byte.
unfoldable pub clear : List ℕ → ℕ → List ℕ
clear bits c = set bits (index c) (bit_and (get_or bits (index c) 0) (255 - mask c))

-- `new Uint8Array(1024 / 8)`, and `fill(0)`.
unfoldable pub blank : List ℕ
blank = replicate 128 0

-- The loop `for (c = from; c <= counter; c++)` that clears positions: `n` rounds from `c`.
unfoldable pub clear_from : ℕ → ℕ → List ℕ → List ℕ
clear_from zero c bits = bits
clear_from (suc n) c bits = clear_from n (c + 1) (clear bits c)

-- The bits after the window has moved from a high-water mark up to `c`: all clear if nothing was
-- seen yet or the move is a whole width, else the positions that are newly covered.
unfoldable pub slide : List ℕ → ℤ → ℕ → List ℕ
slide bits (negsuc n) c = blank
slide bits (pos h) c =
    if leb window_counters (c - h) then blank else clear_from (c - h) (h + 1) bits

-- 128 bytes.
pub record IsBitmap (bits : List ℕ) : Type 0 where
  pub size : length bits ≡ 128
  pub bytes : All (λ b. b < 256) bits
