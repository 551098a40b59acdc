-- ===== src/Capabilities/Longest.antt =====
-- The route table is searched for the longest prefix.
use Prim.Native.String.{len}
use threadbase_streamer.Prelude.{
  ℕ, ◌≡◌, refl, List, [], ◌∷◌, Option, none, some, Bool, false, ◌&&◌, ◌||◌, ◌==◌, ltb, ltb→lt,
  lt→ltb, String, arith, All, subst, if◌then◌else◌,
}
use threadbase_streamer.Capabilities.{
  Capability, same, starts_with, beaten, best_match, route_capabilities, required_capability,
  capability_of,
}

-- Some entry of the table matches with this length and this capability.
unfoldable pub offered : String → ℕ → Capability → List (String × Capability) → Bool
offered path n c [] = false
offered path n c ((prefix, d) ∷ table) =
    (starts_with path prefix && len prefix == n && same d c) || offered path n c table

-- An entry that matches is no longer than the answer, and there is an answer if one matches.
abbrev pub IsBeyond : String → Option (ℕ × Capability) → String × Capability → Type 0
IsBeyond path best e = (starts_with path e.0 && beaten best (len e.0)) ≡ false

-- The best only grows.
best_grows :
    (path : String) (table : List (String × Capability)) (best : Option (ℕ × Capability)) (n : ℕ)
    → beaten best n ≡ false
    → beaten (best_match path table best) n ≡ false
unfolding best_match
best_grows path [] best n h = h
best_grows path ((prefix, c) ∷ table) none n h = absurd (ground arith)
best_grows path ((prefix, c) ∷ table) (some (m, d)) n h =
    best_grows path table
      (if starts_with path prefix && ltb m (len prefix) then some (len prefix, c) else some (m, d))
      n (ground (arith, ltb→lt m (len prefix), lt→ltb m n, ltb→lt (len prefix) n))

-- Every entry of the table that matches the path is at most as long as the one found.
pub best_match-Longest :
    (path : String) (table : List (String × Capability)) (best : Option (ℕ × Capability))
    → All (IsBeyond path (best_match path table best)) table
unfolding best_match
best_match-Longest path [] best = tt
best_match-Longest path ((prefix, c) ∷ table) best =
    let next : Option (ℕ × Capability) =
      if starts_with path prefix && beaten best (len prefix) then some (len prefix, c) else best in
    (
      ground (arith, best_grows path table next (len prefix), ltb→lt (len prefix) (len prefix)),
      best_match-Longest path table next,
    )

unanswered : (best : Option (ℕ × Capability)) → capability_of best ≡ none → best ≡ none
unanswered none h = refl
unanswered (some (n, c)) h = absurd (ground arith)

-- A path to which no capability is asked begins with no prefix of the table.
required_capability-Unlisted :
    (path method : String)
    → required_capability path method ≡ none
    → All (IsBeyond path none) route_capabilities
unfolding required_capability
required_capability-Unlisted path method h =
    subst (λ b. All (IsBeyond path b) route_capabilities)
      (unanswered (best_match path route_capabilities none) (ground arith))
      (best_match-Longest path route_capabilities none)
