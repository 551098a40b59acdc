-- ===== src/Prelude/Comparison.antt =====
-- The results of a JavaScript comparator, by their sign, and orders built from others.
use Prim.Native.Nat.{ℕ, compare, Ordering}
use mathlib.Core.Path.{◌≡◌, refl, ap}
use native.Mathlib.Omega.{arith}

-- Negative, zero, positive.
pub data Comparison : Type 0 where
  before same after : Comparison

-- The sign of `-c`.
abbrev pub flip : Comparison → Comparison
flip before = after
flip same = same
flip after = before

-- `c !== 0 ? c : d`.
abbrev pub or_then : Comparison → Comparison → Comparison
or_then before d = before
or_then same d = d
or_then after d = after

-- A comparator that is consistent: a total preorder.
pub record IsOrder {ℓ} {A : Type ℓ} (c : A → A → Comparison) : Type ℓ where
  pub swap : (x y : A) → c y x ≡ flip (c x y)
  pub trans : (x y z : A) → c x y ≡ before → c y z ≡ before → c x z ≡ before
  pub congr : (x y z : A) → c x y ≡ same → c x z ≡ c y z

flip-flip : (c : Comparison) → flip (flip c) ≡ c
flip-flip before = refl
flip-flip same = refl
flip-flip after = refl

module _ {ℓ} {A : Type ℓ} {c : A → A → Comparison} (o : IsOrder c) where
  pub self : (x : A) → c x x ≡ same
  self x = ground (arith, o.swap x x)

  pub congr_right : (x y z : A) → c y z ≡ same → c x z ≡ c x y
  congr_right x y z h = ground (arith, o.swap z x, o.swap y x, o.congr y z x h)

  pub flipped-IsOrder : IsOrder (λ x y. flip (c x y))
  flipped-IsOrder = record {
    swap = λ x y. ap flip (o.swap x y);
    trans = λ x y z p q. ground (arith, o.swap x y, o.swap y z, o.swap x z, o.trans z y x);
    congr = λ x y z p. ground (arith, o.congr x y z);
  }

  pub pulled-IsOrder : {B : Type ℓ} (f : B → A) → IsOrder (λ x y. c (f x) (f y))
  pulled-IsOrder f = record {
    swap = λ x y. o.swap (f x) (f y);
    trans = λ x y z. o.trans (f x) (f y) (f z);
    congr = λ x y z. o.congr (f x) (f y) (f z);
  }

-- The second decides where the first does not.
pub or_then-IsOrder {ℓ} :
    {A : Type ℓ} {c d : A → A → Comparison}
    → IsOrder c
    → IsOrder d
    → IsOrder (λ x y. or_then (c x y) (d x y))
or_then-IsOrder {c = c} {d = d} o q = record {
  swap = λ x y. ground (arith, o.swap x y, q.swap x y);
  trans =
      λ x y z h k. ground (arith, o.trans x y z, o.congr x y z, congr_right o x y z, q.trans x y z);
  congr = λ x y z h. ground (arith, o.congr x y z, q.congr x y z);
}

-- Numbers by their size.
abbrev pub compare_ℕ : ℕ → ℕ → Comparison
compare_ℕ a b = elim (compare a b) [
  | Ordering.lt ↦ before
  | Ordering.eq ↦ same
  | Ordering.gt ↦ after
]

pub compare_ℕ-IsOrder : IsOrder compare_ℕ
compare_ℕ-IsOrder = record {
  swap = λ x y. ground arith;
  trans = λ x y z h k. ground arith;
  congr = λ x y z h. ground arith;
}
