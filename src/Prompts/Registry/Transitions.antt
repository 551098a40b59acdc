-- ===== src/Prompts/Registry/Transitions.antt =====
-- A transition to a terminal state, where it returns.
use threadbase_streamer.Prelude.{ℕ, ◌≡◌, some, true, false, get_elem?, arith, String}
use threadbase_streamer.Prelude.Dict.{get}
use threadbase_streamer.Prompts.{Prompt, PromptEntry, PromptState, is_live}
use threadbase_streamer.Prompts.Registry.{
  PromptRegistry, Action, ◌>>=◌, ◌>>◌, pure, required, amend, ended, require_entry,
  clear_expiration, publish, transition,
}
use threadbase_streamer.Prompts.Registry.Values.{bind_value, bind_state, amend_value}
use threadbase_streamer.Prompts.Registry.Evolution.{Keeps, Keeps-ended, keeps_rules}
use threadbase_streamer.Prompts.Registry.Evolution.Methods.{Keeps-clear_expiration}

ended_lem :
    (state : PromptState) (reason : String) (now : ℕ) (e e' : PromptEntry)
    → ended state reason now e ≡ some e'
    → (is_live e.prompt.state ≡ true) × (e'.prompt.state ≡ state)
unfolding ended
ended_lem state reason now e e' h = ground arith

-- The end of a transition: nothing that it does touches the prompt.
abbrev announce : ℕ → Prompt → Action Prompt
announce a p = clear_expiration a >>= λ _. publish p >> pure p

announce_value : (a : ℕ) (p q : Prompt) (r : PromptRegistry) → (announce a p r).1 ≡ some q → q ≡ p
unfolding pure
announce_value a p q r h =
    let (e, (c, k)) = bind_value (clear_expiration a) _ r q h in
    let (u, (d, k')) = bind_value (publish p) _ (clear_expiration a r).0 q k in ground arith

Keeps-announce : (a : ℕ) (p : Prompt) → Keeps (announce a p)
Keeps-announce a p = search (keeps_rules, Keeps-clear_expiration) depth 9

abbrev finish : PromptState → String → ℕ → ℕ → Action Prompt
finish state reason now a = amend a (ended state reason now) >>= λ e. announce a e.prompt

-- The object at `a` has a live prompt before, and after it the prompt `p`, which has the state.
abbrev pub Ends : PromptRegistry → PromptRegistry → ℕ → PromptState → Prompt → Type 0
Ends r r' a state p =
    (e e' : PromptEntry) × ((get_elem? r.objects a ≡ some e)
      × (is_live e.prompt.state ≡ true)
      × (get_elem? r'.objects a ≡ some e')
      × (e'.prompt ≡ p)
      × (p.state ≡ state))

finish-Ends :
    (state : PromptState) (reason : String) (now a : ℕ) (r : PromptRegistry) (p : Prompt)
    → is_live state ≡ false
    → (finish state reason now a r).1 ≡ some p
    → Ends r (finish state reason now a r).0 a state p
finish-Ends state reason now a r p terminal h =
    let f = ended state reason now in
    let tail : PromptEntry → Action Prompt = λ e. announce a e.prompt in
    let (e2, (made, k)) = bind_value (amend a f) tail r p h in
    let (e, (before, change, after)) = amend_value a f r e2 made in
    let (live, new) = ended_lem state reason now e e2 change in
    let (e', (later, same)) =
      Keeps-ended (announce a e2.prompt) (amend a f r).0 a e2 (Keeps-announce a e2.prompt) after
        (ground arith) in
    let is_p = announce_value a e2.prompt p (amend a f r).0 k in
    (
      e,
      e',
      (before, live, rw (bind_state (amend a f) tail r e2 made) later, ground arith, ground arith),
    )

-- A transition to a terminal state that returns: the prompt was live, and has that state.
pub transition-Ends :
    (id : String) (state : PromptState) (reason : String) (now : ℕ) (r : PromptRegistry)
    (p : Prompt) (a : ℕ)
    → is_live state ≡ false
    → get r.by_id id ≡ some a
    → (transition id state reason now r).1 ≡ some p
    → Ends r (transition id state reason now r).0 a state p
unfolding transition require_entry required
transition-Ends id state reason now r p a terminal held h =
    let same = bind_state (require_entry id) (finish state reason now) r a held in
    rw (same, transition) (finish-Ends state reason now a r p terminal (ground arith))
