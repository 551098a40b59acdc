-- ===== src/Prompts/Registry/Evolution.antt =====
-- What every action keeps: a prompt that has ended stays as it is, revisions only grow, and the
-- events of a session are numbered one after the other. One rule for each way to build an action.
pub mod Methods
pub mod Answering
use threadbase_streamer.Prelude.{
  ℕ, zero, suc, ◌+◌, ◌<◌, ◌≡◌, ◌⊎◌, inl, inr, refl, sym, ◌∙◌, List, [], ◌∷◌, ◌++◌, Option, none,
  some, Bool, true, false, String, str_eq, eq_iff, get_elem?, set, length, arith, ◌==◌, ==_iff,
  Option-cases, if◌then◌else◌,
}
use threadbase_streamer.Prelude.Dict.{Dict, get, put, get-put}
use threadbase_streamer.Prompts.{Prompt, PromptEntry, PromptEvent, is_live}
use threadbase_streamer.Prompts.Registry.{
  PromptRegistry, Effect, emitted, expiry, Action, ◌>>=◌, ◌>>◌, continue, branch, pure, throw,
  required, reads, set_maps, entry, amend, amended, allocate, publish, on_expire, or_zero,
}

-- The prompt of an entry is the same, or was live and has a later revision.
abbrev pub Later : PromptEntry → PromptEntry → Type 0
Later e e' =
    (e.prompt ≡ e'.prompt)
    ⊎ ((is_live e.prompt.state ≡ true) × (e.prompt.revision < e'.prompt.revision))

-- Every object is still there; there may be new ones.
abbrev pub AllLater : List PromptEntry → List PromptEntry → Type 0
AllLater [] ys = Unit
AllLater (x ∷ xs) [] = true ≡ false
AllLater (x ∷ xs) (y ∷ ys) = Later x y × AllLater xs ys

-- The number of the newest event of a session.
abbrev pub last_sequence : String → List Effect → ℕ
last_sequence session [] = 0
last_sequence session (expiry p ∷ es) = last_sequence session es
last_sequence session (emitted v ∷ es) =
    if str_eq session v.session_id then v.sequence else last_sequence session es

-- Each event has the number after the one before it in its session.
abbrev pub Numbered : List Effect → Type 0
Numbered [] = Unit
Numbered (expiry p ∷ es) = Numbered es
Numbered (emitted v ∷ es) = (v.sequence ≡ last_sequence v.session_id es + 1) × Numbered es

abbrev pub Consistent : PromptRegistry → Type 0
Consistent r =
    Numbered r.effects
    × ((session : String) → or_zero (get r.sequences session) ≡ last_sequence session r.effects)

abbrev pub Evolves : PromptRegistry → PromptRegistry → Type 0
Evolves r r' = AllLater r.objects r'.objects × (Consistent r → Consistent r')

AllLater-refl : (xs : List PromptEntry) → AllLater xs xs
AllLater-refl [] = tt
AllLater-refl (x ∷ xs) = (inl refl, AllLater-refl xs)

Later-trans : (x y z : PromptEntry) → Later x y → Later y z → Later x z
Later-trans x y z h k = ground arith

AllLater-trans : (xs ys zs : List PromptEntry) → AllLater xs ys → AllLater ys zs → AllLater xs zs
AllLater-trans [] ys zs h k = tt
AllLater-trans (x ∷ xs) [] zs h k = cc
AllLater-trans (x ∷ xs) (y ∷ ys) [] h k = cc
AllLater-trans (x ∷ xs) (y ∷ ys) (z ∷ zs) h k =
    (Later-trans x y z h.0 k.0, AllLater-trans xs ys zs h.1 k.1)

AllLater-append : (xs ys : List PromptEntry) → AllLater xs (xs ++ ys)
AllLater-append [] ys = tt
AllLater-append (x ∷ xs) ys = (inl refl, AllLater-append xs ys)

AllLater-set :
    (xs : List PromptEntry) (a : ℕ) (x y : PromptEntry)
    → get_elem? xs a ≡ some x
    → Later x y
    → AllLater xs (set xs a y)
AllLater-set [] a x y h l = tt
AllLater-set (z ∷ xs) zero x y h l = ground (arith, AllLater-refl xs)
AllLater-set (z ∷ xs) (suc a) x y h l = (inl refl, AllLater-set xs a x y h l)

pub Evolves-refl : (r : PromptRegistry) → Evolves r r
Evolves-refl r = (AllLater-refl r.objects, λ c. c)

pub Evolves-trans : (r s t : PromptRegistry) → Evolves r s → Evolves s t → Evolves r t
Evolves-trans r s t h k = (AllLater-trans r.objects s.objects t.objects h.0 k.0, λ c. k.1 (h.1 c))

-- An action under which the registry evolves, whether it throws or not.
pub record Keeps {A : Type 0} (m : Action A) : Type 0 where
  pub at : (r : PromptRegistry) → Evolves r (m r).0

-- The entry at an address, later.
pub get_elem?-AllLater :
    (xs ys : List PromptEntry) (a : ℕ) (e : PromptEntry)
    → AllLater xs ys
    → get_elem? xs a ≡ some e
    → (e' : PromptEntry) × ((get_elem? ys a ≡ some e') × Later e e')
get_elem?-AllLater [] ys a e l h = absurd (ground arith)
get_elem?-AllLater (x ∷ xs) [] a e l h = absurd (ground arith)
get_elem?-AllLater (x ∷ xs) (y ∷ ys) zero e l h = (y, (refl, ground arith))
get_elem?-AllLater (x ∷ xs) (y ∷ ys) (suc a) e l h = get_elem?-AllLater xs ys a e l.1 h

module _ {A : Type 0} where
  -- A prompt that has ended is the same after an action.
  pub Keeps-ended :
      (m : Action A) (r : PromptRegistry) (a : ℕ) (e : PromptEntry)
      → Keeps m
      → get_elem? r.objects a ≡ some e
      → is_live e.prompt.state ≡ false
      → (e' : PromptEntry) × ((get_elem? (m r).0.objects a ≡ some e') × (e'.prompt ≡ e.prompt))
  Keeps-ended m r a e k at dead =
      let (e', (found, later)) = get_elem?-AllLater r.objects (m r).0.objects a e ((k.at r).0) at in
      (e', (found, ground arith))

  pub Keeps-pure : (a : A) → Keeps (pure a)
  unfolding pure
  Keeps-pure a = record { at = Evolves-refl }

  pub Keeps-throw : Keeps (throw {A = A})
  unfolding throw
  Keeps-throw = record { at = Evolves-refl }

  pub Keeps-required : (f : PromptRegistry → Option A) → Keeps (required f)
  unfolding required
  Keeps-required f = record { at = Evolves-refl }

  pub Keeps-reads : (f : PromptRegistry → A) → Keeps (reads f)
  unfolding reads
  Keeps-reads f = record { at = Evolves-refl }

  pub Keeps-if : (b : Bool) (m n : Action A) → Keeps m → Keeps n → Keeps (if b then m else n)
  Keeps-if true m n km kn = km
  Keeps-if false m n km kn = kn

module _ {A B : Type 0} where
  Keeps-continue :
      (p : PromptRegistry × Option A) (k : A → Action B)
      → ((a : A) → Keeps (k a))
      → Evolves p.0 (continue p k).0
  Keeps-continue (r, none) k kk = Evolves-refl r
  Keeps-continue (r, some a) k kk = (kk a).at r

  pub Keeps-branch :
      (o : Option A) (m : Action B) (k : A → Action B)
      → Keeps m
      → ((a : A) → Keeps (k a))
      → Keeps (branch o m k)
  unfolding branch
  Keeps-branch none m k km kk = km
  Keeps-branch (some a) m k km kk = kk a

  pub Keeps-bind :
      (m : Action A) (k : A → Action B) → Keeps m → ((a : A) → Keeps (k a)) → Keeps (m >>= k)
  unfolding ◌>>=◌
  Keeps-bind m k km kk = record {
    at = λ r. Evolves-trans r (m r).0 (continue (m r) k).0 (km.at r) (Keeps-continue (m r) k kk);
  }

pub Keeps-set_maps : (ms : Dict (Dict ℕ)) (ids : Dict ℕ) → Keeps (set_maps ms ids)
unfolding set_maps
Keeps-set_maps ms ids = record { at = λ r. (AllLater-refl r.objects, λ c. c) }

pub Keeps-entry : (a : ℕ) → Keeps (entry a)
unfolding entry
Keeps-entry a = Keeps-required (λ r. get_elem? r.objects a)

pub Keeps-allocate : (e : PromptEntry) → Keeps (allocate e)
unfolding allocate
Keeps-allocate e = record { at = λ r. (AllLater-append r.objects (e ∷ []), λ c. c) }

Evolves-amended :
    (r : PromptRegistry) (a : ℕ) (e : PromptEntry) (o : Option PromptEntry)
    → get_elem? r.objects a ≡ some e
    → ((e' : PromptEntry) → o ≡ some e' → Later e e')
    → Evolves r (amended r a o).0
unfolding amended
Evolves-amended r a e none h l = Evolves-refl r
Evolves-amended r a e (some e') h l = (AllLater-set r.objects a e e' h (l e' refl), λ c. c)

-- A change that is refused or makes the entry later.
abbrev pub Advances : (PromptEntry → Option PromptEntry) → Type 0
Advances f = (e e' : PromptEntry) → f e ≡ some e' → Later e e'

Evolves-amend :
    (r : PromptRegistry) (a : ℕ) (f : PromptEntry → Option PromptEntry)
    → Advances f
    → Evolves r (amend a f r).0
unfolding amend
Evolves-amend r a f l = elim (Option-cases (get_elem? r.objects a)) [
  | inl e ↦ rw (e, amend) (Evolves-refl r)
  | inr (e, h) ↦ rw (h, amend) (Evolves-amended r a e (f e) h (l e))
]

pub Keeps-amend : (a : ℕ) (f : PromptEntry → Option PromptEntry) → Advances f → Keeps (amend a f)
Keeps-amend a f l = record { at = λ r. Evolves-amend r a f l }

pub Keeps-publish : (p : Prompt) → Keeps (publish p)
unfolding publish
Keeps-publish p = record {
  at = λ r. (
    AllLater-refl r.objects,
    λ c. (
      (ground (arith, c.1 p.session_id), c.0),
      λ session. ground (
        arith,
        c.1 session,
        get-put r.sequences p.session_id (or_zero (get r.sequences p.session_id) + 1) session,
      ),
    ),
  );
}

pub Keeps-on_expire : (p : Prompt) → Keeps (on_expire p)
unfolding on_expire
Keeps-on_expire p = record { at = λ r. (AllLater-refl r.objects, λ c. c) }

pub ruleset keeps_rules = (
  Keeps-pure, Keeps-throw, Keeps-required, Keeps-reads, Keeps-if, Keeps-bind, Keeps-branch,
  Keeps-set_maps, Keeps-entry, Keeps-allocate, Keeps-amend, Keeps-publish, Keeps-on_expire,
)
