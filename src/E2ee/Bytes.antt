-- ===== src/E2ee/Bytes.antt =====
-- Big-endian numbers in a buffer (`writeUInt32BE`, `readBigUInt64BE` and the like of a Node
-- `Buffer`), and `subarray`.
use native.Mathlib.Nat.{pow-suc}
use threadbase_streamer.Prelude.{
  ℕ, zero, suc, ◌+◌, ◌-◌, ◌*◌, ◌/◌, ◌%◌, ◌^◌, ◌<◌, ◌≡◌, refl, ◌∙◌, List, [], ◌∷◌, ◌++◌, arith,
  length, take, drop, length-append,
}
pub use threadbase_streamer.Prelude.{take-append_length, drop-append_length}

-- The `n` low bytes of `v`, the highest first.
unfoldable pub be_bytes : ℕ → ℕ → List ℕ
be_bytes zero v = []
be_bytes (suc n) v = be_bytes n (v / 256) ++ (v % 256) ∷ []

be_value_from : ℕ → List ℕ → ℕ
be_value_from a [] = a
be_value_from a (b ∷ bs) = be_value_from (a * 256 + b) bs

unfoldable pub be_value : List ℕ → ℕ
unfolding be_value_from
be_value bs = be_value_from 0 bs

-- `bytes.subarray(from, to)`.
abbrev pub subarray : List ℕ → ℕ → ℕ → List ℕ
subarray bytes from to = take (to - from) (drop from bytes)

pub length-be_bytes : (n v : ℕ) → length (be_bytes n v) ≡ n
unfolding be_bytes
length-be_bytes zero v = refl
length-be_bytes (suc n) v =
    omega
      (arith, length-append (be_bytes n (v / 256)) ((v % 256) ∷ []), length-be_bytes n (v / 256))

be_value_from-append :
    (a : ℕ) (xs ys : List ℕ) → be_value_from a (xs ++ ys) ≡ be_value_from (be_value_from a xs) ys
unfolding be_value_from
be_value_from-append a [] ys = refl
be_value_from-append a (x ∷ xs) ys = be_value_from-append (a * 256 + x) xs ys

-- A number that fits its width is read back.
pub be_value-be_bytes : (n v : ℕ) → v < 256 ^ n → be_value (be_bytes n v) ≡ v
unfolding be_value be_bytes
be_value-be_bytes zero v h = omega arith
be_value-be_bytes (suc n) v h =
    be_value_from-append 0 (be_bytes n (v / 256)) ((v % 256) ∷ [])
    ∙ omega (arith, be_value-be_bytes n (v / 256) (omega (arith, pow-suc 256 n)))
