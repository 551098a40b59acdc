-- ===== src/Prompts/Registry.antt =====
-- The state of `PromptRegistry`, and the actions that its methods are made of. An action gives the
-- registry that it leaves and a value, or none where it throws. Entries are objects that the two
-- maps share: `objects` has each at the address of its creation. `effects` has what was handed to
-- `emit` and `onExpire` so far, the newest first.
pub mod Methods
pub mod Answering
pub mod Values
pub mod Evolution
pub mod Transitions
use threadbase_streamer.Prelude.{
  ℕ, ◌+◌, ◌-◌, List, [], ◌∷◌, ◌++◌, Option, none, some, Bool, true, false, String, str_eq, length,
  get_elem?, set, max, min, ltb, if◌then◌else◌,
}
use threadbase_streamer.Prelude.Dict.{Dict, get, put, remove}
use threadbase_streamer.Prompts.{
  Prompt, PromptState, PromptEntry, PromptEvent, is_live, max_timeout_ms, expired,
}

pub data Effect : Type 0 where
  emitted : PromptEvent → Effect
  expiry : Prompt → Effect

pub record PromptRegistry : Type 0 where
  pub objects : List PromptEntry
  pub by_session : Dict (Dict ℕ)
  pub by_id : Dict ℕ
  pub sequences : Dict ℕ
  pub effects : List Effect
  pub terminal_retention_ms : ℕ
  pub max_records_per_session : ℕ

abbrev pub Action : Type 0 → Type 0
Action A = PromptRegistry → PromptRegistry × Option A

abbrev pub continue :
    {A B : Type 0} → PromptRegistry × Option A → (A → Action B) → PromptRegistry × Option B
continue (r, none) k = (r, none)
continue (r, some a) k = k a r

infixl 5 ◌>>=◌ ◌>>◌
unfoldable pub ◌>>=◌ : {A B : Type 0} → Action A → (A → Action B) → Action B
◌>>=◌ m k r = continue (m r) k

abbrev pub ◌>>◌ : {B : Type 0} → Action (Unit {0}) → Action B → Action B
m >> k = m >>= λ _. k

-- A branch on a value that may be absent.
unfoldable pub branch : {A B : Type 0} → Option A → Action B → (A → Action B) → Action B
branch none m k = m
branch (some a) m k = k a

unfoldable pub pure : {A : Type 0} → A → Action A
pure a r = (r, some a)

unfoldable pub throw : {A : Type 0} → Action A
throw r = (r, none)

-- Throws for none.
unfoldable pub required : {A : Type 0} → (PromptRegistry → Option A) → Action A
required f r = (r, f r)

unfoldable pub reads : {A : Type 0} → (PromptRegistry → A) → Action A
reads f r = (r, some (f r))

-- The two maps, and the object at an address.
unfoldable pub set_maps : Dict (Dict ℕ) → Dict ℕ → Action (Unit {0})
set_maps by_session by_id r = (record r { by_session = by_session; by_id = by_id }, some tt)

unfoldable pub entry : ℕ → Action PromptEntry
entry a = required (λ r. get_elem? r.objects a)

amended : PromptRegistry → ℕ → Option PromptEntry → PromptRegistry × Option PromptEntry
amended r a none = (r, none)
amended r a (some e) = (record r { objects = set r.objects a e }, some e)

-- Changes an object, or throws where the change is refused.
unfoldable pub amend : ℕ → (PromptEntry → Option PromptEntry) → Action PromptEntry
unfolding amended
amend a f r = elim (get_elem? r.objects a) [ none ↦ (r, none) | some e ↦ amended r a (f e) ]

-- A new object, and its address.
unfoldable pub allocate : PromptEntry → Action ℕ
allocate e r = (record r { objects = r.objects ++ e ∷ [] }, some (length r.objects))

abbrev pub or_zero : Option ℕ → ℕ
or_zero none = 0
or_zero (some n) = n

-- `publish`: the next number of the prompt's session.
unfoldable pub publish : Prompt → Action (Unit {0})
publish prompt r =
    let sequence = or_zero (get r.sequences prompt.session_id) + 1 in
    (
      record r {
        sequences = put r.sequences prompt.session_id sequence;
        effects =
            emitted
              (record { session_id = prompt.session_id; sequence = sequence; prompt = prompt })
            ∷ r.effects;
      },
      some tt,
    )

unfoldable pub on_expire : Prompt → Action (Unit {0})
on_expire prompt r = (record r { effects = expiry prompt ∷ r.effects }, some tt)

abbrev pub timer_at : ℕ → Option ℕ → Option ℕ
timer_at now none = none
timer_at now (some at) = some (now + min max_timeout_ms (at - now))

-- `scheduleExpiration` and `clearExpiration`. A deadline in the past is due at once.
unfoldable pub schedule_expiration : ℕ → ℕ → Action PromptEntry
schedule_expiration a now =
    amend a (λ e. some (record e { expiry_timer = timer_at now e.prompt.expires_at }))

unfoldable pub clear_expiration : ℕ → Action PromptEntry
clear_expiration a = amend a (λ e. some (record e { expiry_timer = none }))

unfoldable pub require_entry : String → Action ℕ
require_entry id = required (λ r. get r.by_id id)

-- The record that `transition` leaves, for a prompt that is not terminal.
unfoldable pub ended : PromptState → String → ℕ → PromptEntry → Option PromptEntry
ended state reason now e =
    if is_live e.prompt.state
    then some (record e {
      prompt = record e.prompt {
        revision = e.prompt.revision + 1;
        state = state;
        terminal_reason = some reason;
      };
      terminal_at = some now;
    })
    else none

unfoldable pub transition : String → PromptState → String → ℕ → Action Prompt
transition id state reason now = do
  a ← require_entry id
  e ← amend a (ended state reason now)
  _ ← clear_expiration a
  publish e.prompt
  pure e.prompt

abbrev pub is_due : Prompt → ℕ → Bool
is_due prompt now =
    if is_live prompt.state
    then (elim prompt.expires_at [ none ↦ false | some at ↦ if ltb now at then false else true ])
    else false

expire : Prompt → ℕ → Action Bool
expire prompt now = do
  ended ← transition prompt.prompt_id expired "deadline_elapsed" now
  on_expire ended
  pure true

unfoldable pub expire_if_due : ℕ → ℕ → Action Bool
unfolding expire
expire_if_due a now = do
  e ← entry a
  if is_due e.prompt now then expire e.prompt now else pure false
