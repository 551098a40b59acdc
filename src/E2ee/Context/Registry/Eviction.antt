-- ===== src/E2ee/Context/Registry/Eviction.antt =====
-- Which contexts of a device make room for a new one.
use threadbase_streamer.Prelude.{
  ℕ, zero, suc, ◌+◌, ◌-◌, ◌≤◌, ◌≡◌, List, [], ◌∷◌, ◌++◌, true, false, leb→le, le→leb, length, take,
  drop, length-drop, All, arith, String, keep_if, take-append-drop, ◌⊎◌, inl, inr, Bool-cases, sym,
  ◌∙◌,
}
use threadbase_streamer.E2ee.Context.{Context, ContextKind, ws, rest}
use threadbase_streamer.E2ee.Context.Registry.{
  Registry, goes_first, by_usefulness, place, candidates, victims, cap_of, is_candidate, for_device,
}

module _ {Key : Type 0} where
  -- What the eviction promises of a victim and a context that stays: the victim alone is provisional,
  -- or they agree in that and the victim is no younger.
  abbrev pub Before : ℕ × Context Key → ℕ × Context Key → Type 0
  Before e f =
      ((e.1.provisional ≡ true) × (f.1.provisional ≡ false))
      ⊎ ((e.1.provisional ≡ f.1.provisional) × (e.1.created_at ≤ f.1.created_at))

  -- The order of the code.
  abbrev Earlier : ℕ × Context Key → ℕ × Context Key → Type 0
  Earlier e f = goes_first e.1 f.1 ≡ true

  abbrev Sorted : List (ℕ × Context Key) → Type 0
  Sorted [] = Unit
  Sorted (e ∷ es) = All (Earlier e) es × Sorted es

  Earlier-trans : (e f g : ℕ × Context Key) → Earlier e f → Earlier f g → Earlier e g
  Earlier-trans e f g h k = ground (
    arith,
    leb→le e.1.created_at f.1.created_at,
    leb→le f.1.created_at g.1.created_at,
    le→leb e.1.created_at g.1.created_at,
  )

  Earlier-total : (e f : ℕ × Context Key) → goes_first e.1 f.1 ≡ false → Earlier f e
  Earlier-total e f h =
      ground (arith, le→leb e.1.created_at f.1.created_at, le→leb f.1.created_at e.1.created_at)

  All-Earlier :
      (e f : ℕ × Context Key) (es : List (ℕ × Context Key))
      → Earlier e f
      → All (Earlier f) es
      → All (Earlier e) es
  All-Earlier e f [] h all = tt
  All-Earlier e f (g ∷ es) h all = (Earlier-trans e f g h all.0, All-Earlier e f es h all.1)

  All-place :
      (f e : ℕ × Context Key) (es : List (ℕ × Context Key))
      → Earlier f e
      → All (Earlier f) es
      → All (Earlier f) (place e es)
  unfolding place
  All-place f e [] h all = (h, tt)
  All-place f e (g ∷ es) h all = ground (arith, All-place f e es h all.1)

  Sorted-place :
      (e : ℕ × Context Key) (es : List (ℕ × Context Key)) → Sorted es → Sorted (place e es)
  unfolding place
  Sorted-place e [] s = (tt, tt)
  Sorted-place e (f ∷ es) s =
      ground (arith, Sorted-place e es s.1, All-Earlier e f es, All-place f e es, Earlier-total e f)

  Sorted-by_usefulness : (es : List (ℕ × Context Key)) → Sorted (by_usefulness es)
  unfolding by_usefulness
  Sorted-by_usefulness [] = tt
  Sorted-by_usefulness (e ∷ es) = Sorted-place e (by_usefulness es) (Sorted-by_usefulness es)

  -- Those that stay.
  abbrev pub survivors : ContextKind → List (ℕ × Context Key) → List (ℕ × Context Key)
  survivors kind es = drop (length es + 1 - cap_of kind) es

  All-drop :
      (e : ℕ × Context Key) (n : ℕ) (es : List (ℕ × Context Key))
      → All (Earlier e) es
      → All (Earlier e) (drop n es)
  All-drop e zero es h = h
  All-drop e (suc n) [] h = tt
  All-drop e (suc n) (f ∷ es) h = All-drop e n es h.1

  Sorted-take :
      (n : ℕ) (es : List (ℕ × Context Key))
      → Sorted es
      → All (λ v. All (Earlier v) (drop n es)) (take n es)
  Sorted-take zero es s = tt
  Sorted-take (suc n) [] s = tt
  Sorted-take (suc n) (e ∷ es) s = (All-drop e n es s.0, Sorted-take n es s.1)

  Earlier-Before : (e f : ℕ × Context Key) → Earlier e f → Before e f
  Earlier-Before e f h = elim (Bool-cases e.1.provisional) [
    | inl p ↦ elim (Bool-cases f.1.provisional) [
      | inl q ↦ inr (p ∙ sym q, leb→le e.1.created_at f.1.created_at (ground arith))
      | inr q ↦ inl (p, q)
    ]
    | inr p ↦ elim (Bool-cases f.1.provisional) [
      | inl q ↦ absurd (ground arith)
      | inr q ↦ inr (p ∙ sym q, leb→le e.1.created_at f.1.created_at (ground arith))
    ]
  ]

  All-Earlier-Before :
      (e : ℕ × Context Key) (fs : List (ℕ × Context Key)) → All (Earlier e) fs → All (Before e) fs
  All-Earlier-Before e [] h = tt
  All-Earlier-Before e (f ∷ fs) (h, hs) = (Earlier-Before e f h, All-Earlier-Before e fs hs)

  All-All-Before :
      (es fs : List (ℕ × Context Key))
      → All (λ e. All (Earlier e) fs) es
      → All (λ e. All (Before e) fs) es
  All-All-Before [] fs h = tt
  All-All-Before (e ∷ es) fs (h, hs) = (All-Earlier-Before e fs h, All-All-Before es fs hs)

  survivors-room :
      (kind : ContextKind) (es : List (ℕ × Context Key))
      → length (survivors kind es) + 1 ≤ cap_of kind
  survivors-room ws es = omega (arith, length-drop (length es + 1 - 4) es)
  survivors-room rest es = omega (arith, length-drop (length es + 1 - 2) es)

  candidates-Sorted :
      (r : Registry Key) (device : String) (kind : ContextKind) → Sorted (candidates r device kind)
  unfolding candidates
  candidates-Sorted r device kind =
      Sorted-by_usefulness (keep_if (is_candidate kind) (for_device r device))

  -- Of the candidates of a device and a kind, those that stay leave room for one more under the
  -- cap, each victim goes before each that stays (provisional first, then the oldest), and every
  -- candidate is one or the other.
  pub victims-Order :
      (r : Registry Key) (device : String) (kind : ContextKind)
      → (length (survivors kind (candidates r device kind)) + 1 ≤ cap_of kind)
        × All
            (λ v. All (Before v) (survivors kind (candidates r device kind)))
            (victims kind (candidates r device kind))
        × (victims kind (candidates r device kind) ++ survivors kind (candidates r device kind)
            ≡ candidates r device kind)
  unfolding victims
  victims-Order r device kind =
      let es = candidates r device kind in
      (
        survivors-room kind es,
        All-All-Before (victims kind es) (survivors kind es)
            (Sorted-take (length es + 1 - cap_of kind) es (candidates-Sorted r device kind)),
        take-append-drop (length es + 1 - cap_of kind) es,
      )
