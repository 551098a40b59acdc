-- ===== src/Prompts/Registry/Values.antt =====
-- The values of actions, and the objects that they leave.
use threadbase_streamer.Prelude.{
  ℕ, ◌≡◌, inl, inr, refl, Option, none, some, get_elem?, get_elem?-set, set, arith, Option-cases,
}
use threadbase_streamer.Prompts.{PromptEntry}
use threadbase_streamer.Prompts.Registry.{PromptRegistry, Action, ◌>>=◌, continue, amend, amended}

module _ {A B : Type 0} where
  continue_value :
      (p : PromptRegistry × Option A) (k : A → Action B) (b : B)
      → (continue p k).1 ≡ some b
      → (a : A) × ((p.1 ≡ some a) × ((k a p.0).1 ≡ some b))
  continue_value (r, none) k b h = absurd (ground arith)
  continue_value (r, some a) k b h = (a, (refl, h))

  -- A block that gives a value has one for its first action.
  pub bind_value :
      (m : Action A) (k : A → Action B) (r : PromptRegistry) (b : B)
      → ((m >>= k) r).1 ≡ some b
      → (a : A) × (((m r).1 ≡ some a) × ((k a (m r).0).1 ≡ some b))
  unfolding ◌>>=◌
  bind_value m k r b h = continue_value (m r) k b h

module _ {A B : Type 0} where
  -- What a block does after its first action.
  pub bind_state :
      (m : Action A) (k : A → Action B) (r : PromptRegistry) (a : A)
      → (m r).1 ≡ some a
      → (m >>= k) r ≡ k a (m r).0
  unfolding ◌>>=◌
  bind_state m k r a h = rw h refl

amended_value :
    (r : PromptRegistry) (a : ℕ) (o : Option PromptEntry) (e : PromptEntry)
    → (amended r a o).1 ≡ some e
    → (o ≡ some e) × ((amended r a o).0.objects ≡ set r.objects a e)
unfolding amended
amended_value r a none e h = absurd (ground arith)
amended_value r a (some e') e h = ground arith

pub amend_value :
    (a : ℕ) (f : PromptEntry → Option PromptEntry) (r : PromptRegistry) (e' : PromptEntry)
    → (amend a f r).1 ≡ some e'
    → (e : PromptEntry) × ((get_elem? r.objects a ≡ some e)
        × (f e ≡ some e')
        × (get_elem? (amend a f r).0.objects a ≡ some e'))
unfolding amend
amend_value a f r e' h = elim (Option-cases (get_elem? r.objects a)) [
  | inl e ↦ absurd (ground arith)
  | inr (e, at) ↦
      let (new, objs) = amended_value r a (f e) e' (ground arith) in
      (e, (at, new, ground (arith, get_elem?-set r.objects a e e' at)))
]
