-- ===== src/Prompts/Registry/Methods.antt =====
-- The methods of `PromptRegistry` but for the answers. The clock's reading is an argument, one for
-- each call; `ids` gives what the calls of `createId` give, in order; `parse` is the schema's parse.
use threadbase_streamer.Prelude.{
  ℕ, ◌+◌, List, [], ◌∷◌, Option, none, some, Bool, true, false, ◌&&◌, ◌||◌, ◌==◌, leb, ltb, String,
  str_eq, length, keep_if, if◌then◌else◌,
}
use threadbase_streamer.Prelude.Dict.{Dict, get, put, remove}
use threadbase_streamer.Prompts.{
  Prompt, PromptState, PromptDraft, PromptQuestion, PromptQuestionDraft, PromptOption, PromptEntry,
  open_prompt, updated, cancelled, unavailable, is_live,
}
use threadbase_streamer.Prompts.Registry.{
  PromptRegistry, Action, ◌>>=◌, ◌>>◌, branch, pure, throw, required, reads, set_maps, entry, amend,
  allocate, publish, schedule_expiration, clear_expiration, require_entry, transition,
  expire_if_due, or_zero,
}

unfoldable pub create : ℕ → ℕ → PromptRegistry
create retention max = record {
  objects = [];
  by_session = [];
  by_id = [];
  sequences = [];
  effects = [];
  terminal_retention_ms = retention;
  max_records_per_session = max;
}

abbrev pub or_empty {ℓ} : {A : Type ℓ} → Option (Dict A) → Dict A
or_empty none = []
or_empty (some m) = m

abbrev pub records : String → PromptRegistry → Dict ℕ
records session r = or_empty (get r.by_session session)

-- Both maps lose a record.
unfoldable pub forget : String → String → ℕ → Action (Unit {0})
forget session id a = do
  _ ← clear_expiration a
  r ← reads (λ r. r)
  set_maps (put r.by_session session (remove (records session r) id)) (remove r.by_id id)

abbrev is_stale : ℕ → Option ℕ → ℕ → Bool
is_stale retention none now = false
is_stale retention (some at) now = ltb (at + retention) now

unfoldable pub sweep_one : String → ℕ → String × ℕ → Action (Unit {0})
sweep_one session now (id, a) = do
  _ ← expire_if_due a now
  e ← entry a
  r ← reads (λ r. r)
  if is_stale r.terminal_retention_ms e.terminal_at now then forget session id a else pure tt

unfoldable pub sweep_all : String → ℕ → Dict ℕ → Action (Unit {0})
sweep_all session now [] = pure tt
sweep_all session now (x ∷ xs) = sweep_one session now x >> sweep_all session now xs

unfoldable pub drop_if_empty : String → Action (Unit {0})
drop_if_empty session = do
  r ← reads (λ r. r)
  if length (records session r) == 0
      then set_maps (remove r.by_session session) r.by_id
      else pure tt

-- `sweepExpired`.
unfoldable pub sweep_expired : String → ℕ → Action (Unit {0})
sweep_expired session now = do
  m ← reads (λ r. get r.by_session session)
  branch m (pure tt) (λ m. sweep_all session now m >> drop_if_empty session)

-- The terminal records, by the time of their end; the sort is stable.
place : String × ℕ × ℕ → List (String × ℕ × ℕ) → List (String × ℕ × ℕ)
place (id, a, at) [] = (id, a, at) ∷ []
place (id, a, at) ((j, b, bt) ∷ xs) =
    if leb at bt then (id, a, at) ∷ (j, b, bt) ∷ xs else (j, b, bt) ∷ place (id, a, at) xs

abbrev ended_at : PromptRegistry → ℕ → Option ℕ
ended_at r a = elim ((entry a r).1) [ none ↦ none | some e ↦ e.terminal_at ]

terminal_records : PromptRegistry → Dict ℕ → List (String × ℕ × ℕ)
unfolding place
terminal_records r [] = []
terminal_records r ((id, a) ∷ m) = elim (ended_at r a) [
  | none ↦ terminal_records r m
  | some at ↦ place (id, a, at) (terminal_records r m)
]

unfoldable pub drop_oldest : String → List (String × ℕ × ℕ) → Action (Unit {0})
drop_oldest session [] = pure tt
drop_oldest session ((id, a, at) ∷ xs) = do
  r ← reads (λ r. r)
  if ltb r.max_records_per_session (length (records session r))
      then forget session id a >> drop_oldest session xs
      else pure tt

-- `enforceCap`.
unfoldable pub enforce_cap : String → Action (Unit {0})
unfolding terminal_records entry
enforce_cap session = do
  r ← reads (λ r. r)
  drop_oldest session (terminal_records r (records session r))

-- A select question's options and a question's ids, in the order in which they are asked for.
assign_options : (ℕ → String) → ℕ → List String → List PromptOption
assign_options ids k [] = []
assign_options ids k (c ∷ cs) =
    record { option_id = ids k; content = c } ∷ assign_options ids (k + 1) cs

assign_questions : (ℕ → String) → ℕ → List PromptQuestionDraft → List PromptQuestion
unfolding assign_options
assign_questions ids k [] = []
assign_questions ids k (q ∷ qs) =
    record {
      question_id = ids k;
      input_mode = q.input_mode;
      options = assign_options ids (k + 1) q.options;
      content = q.content;
    }
    ∷ assign_questions ids (k + 1 + length q.options) qs

opening : (ℕ → String) → ℕ → String → PromptDraft → Prompt
unfolding assign_questions
opening ids k id draft = record {
  session_id = draft.session_id;
  prompt_id = id;
  revision = 1;
  state = open_prompt;
  terminal_reason = none;
  expires_at = draft.expires_at;
  questions = assign_questions ids k draft.questions;
  content = draft.content;
}

abbrev new_entry : Prompt → Bool → PromptEntry
new_entry prompt adapter = record {
  prompt = prompt;
  has_adapter = adapter;
  terminal_at = none;
  expiry_timer = none;
  queue = [];
  running = none;
  in_flight = [];
  outcomes = [];
  answering = false;
  deferred_close = none;
}

-- A prompt enters both maps, and is announced.
unfoldable pub register : Prompt → Bool → ℕ → Action Prompt
register prompt adapter now = do
  a ← allocate (new_entry prompt adapter)
  r ← reads (λ r. r)
  set_maps
      (put r.by_session prompt.session_id (put (records prompt.session_id r) prompt.prompt_id a))
      (put r.by_id prompt.prompt_id a)
  publish prompt
  _ ← schedule_expiration a now
  enforce_cap prompt.session_id
  pure prompt

unfoldable pub held_state : PromptRegistry → String → Option PromptState
unfolding entry
held_state r id = elim (get r.by_id id) [
  | none ↦ none
  | some a ↦ elim ((entry a r).1) [ none ↦ none | some e ↦ some e.prompt.state ]
]

-- `open`: an id that a terminal record still holds is replaced by a new one.
unfoldable pub open_with :
    (Prompt → Option Prompt)
    → PromptDraft
    → Bool
    → String
    → (ℕ → String)
    → ℕ
    → Option PromptState
    → Action Prompt
unfolding opening
open_with parse draft adapter id ids now none = do
  prompt ← required (λ r. parse (opening ids 0 id draft))
  register prompt adapter now
open_with parse draft adapter id ids now (some state) = if is_live state then throw else do
  prompt ← required (λ r. parse (opening ids 1 (ids 0) draft))
  register prompt adapter now

unfoldable pub open_new :
    (Prompt → Option Prompt) → PromptDraft → Bool → String → (ℕ → String) → ℕ → Action Prompt
open_new parse draft adapter id ids now = do
  sweep_expired draft.session_id now
  held ← reads (λ r. held_state r id)
  open_with parse draft adapter id ids now held

-- The ids of an update are the prior ones; none where the numbers of options differ.
merge_options : List PromptOption → List String → Option (List PromptOption)
merge_options [] [] = some []
merge_options [] (c ∷ cs) = none
merge_options (o ∷ os) [] = none
merge_options (o ∷ os) (c ∷ cs) = elim (merge_options os cs) [
  | none ↦ none
  | some rest ↦ some (record { option_id = o.option_id; content = c } ∷ rest)
]

unfoldable pub merge_questions :
    List PromptQuestion → List PromptQuestionDraft → Option (List PromptQuestion)
unfolding merge_options
merge_questions [] [] = some []
merge_questions [] (d ∷ ds) = none
merge_questions (q ∷ qs) [] = none
merge_questions (q ∷ qs) (d ∷ ds) = elim (merge_options q.options d.options) [
  | none ↦ none
  | some options ↦ elim (merge_questions qs ds) [
    | none ↦ none
    | some rest ↦ some (
        record {
          question_id = q.question_id;
          input_mode = d.input_mode;
          options = options;
          content = d.content;
        }
        ∷ rest)
  ]
]

abbrev pub revision_of : PromptDraft → String → PromptEntry → List PromptQuestion → Prompt
revision_of draft id e questions = record {
  session_id = draft.session_id;
  prompt_id = id;
  revision = e.prompt.revision + 1;
  state = updated;
  terminal_reason = none;
  expires_at = draft.expires_at;
  questions = questions;
  content = draft.content;
}

abbrev pub with_prompt : PromptEntry → Bool → Option Prompt → Option PromptEntry
with_prompt e adapter none = none
with_prompt e adapter (some p) =
    some (record e { prompt = p; has_adapter = e.has_adapter || adapter })

unfoldable pub revised :
    (Prompt → Option Prompt) → String → PromptDraft → Bool → PromptEntry → Option PromptEntry
unfolding merge_questions
revised parse id draft adapter e =
    if str_eq e.prompt.session_id draft.session_id && is_live e.prompt.state
    then (elim (merge_questions e.prompt.questions draft.questions) [
      | none ↦ none
      | some questions ↦ with_prompt e adapter (parse (revision_of draft id e questions))
    ])
    else none

-- `update`. Every refusal throws.
unfoldable pub update : (Prompt → Option Prompt) → String → PromptDraft → Bool → ℕ → Action Prompt
update parse id draft adapter now = do
  a ← require_entry id
  _ ← expire_if_due a now
  e ← amend a (revised parse id draft adapter)
  publish e.prompt
  _ ← schedule_expiration a now
  pure e.prompt

-- `providerClosed`: while an answer writes, the close waits for it.
unfoldable pub defer : String → PromptEntry → Option PromptEntry
defer reason e = some (record e { deferred_close = some reason })

unfoldable pub close_entry : String → String → ℕ → PromptEntry → ℕ → Action (Option Prompt)
close_entry id reason now e a =
    if is_live e.prompt.state
    then if e.answering
      then (do _ ← amend a (defer reason); pure none)
      else (do p ← transition id cancelled reason now; pure (some p))
    else pure none

unfoldable pub provider_closed : String → String → ℕ → Action (Option Prompt)
unfolding close_entry
provider_closed id reason now = do
  held ← reads (λ r. get r.by_id id)
  branch held (pure none) (λ a. entry a >>= λ e. close_entry id reason now e a)

-- `whileAnswering`, around a write that is itself a run of actions.
unfoldable pub begin_write : ℕ → Action PromptEntry
begin_write a = amend a (λ e. some (record e { answering = true }))

unfoldable pub end_write : ℕ → Action PromptEntry
end_write a = amend a (λ e. some (record e { answering = false; deferred_close = none }))

unfoldable pub invalidate_one : String → ℕ → String × ℕ → Action (Unit {0})
invalidate_one reason now (id, a) = do
  e ← entry a
  if is_live e.prompt.state
      then (do _ ← transition e.prompt.prompt_id unavailable reason now; pure tt)
      else pure tt

unfoldable pub invalidate_all : String → ℕ → Dict ℕ → Action (Unit {0})
invalidate_all reason now [] = pure tt
invalidate_all reason now (x ∷ xs) = invalidate_one reason now x >> invalidate_all reason now xs

-- `invalidateSession`.
unfoldable pub invalidate_session : String → String → ℕ → Action (Unit {0})
invalidate_session session reason now = do m ← reads (records session); invalidate_all reason now m

-- The prompts of a session, in the order of their records.
prompts_of : PromptRegistry → Dict ℕ → List Prompt
unfolding entry
prompts_of r [] = []
prompts_of r ((id, a) ∷ m) = elim ((entry a r).1) [
  | none ↦ prompts_of r m
  | some e ↦ e.prompt ∷ prompts_of r m
]

any_live : List Prompt → Bool
any_live [] = false
any_live (p ∷ ps) = is_live p.state || any_live ps

-- `hasOpen` sweeps nothing.
pub has_open : PromptRegistry → String → Bool
unfolding any_live prompts_of
has_open r session = any_live (prompts_of r (records session r))

-- `get`: the entry that was found, if its id is still held after the sweep.
abbrev if_held : Option ℕ → Prompt → Option Prompt
if_held none p = none
if_held (some a) p = some p

unfoldable pub get_held : String → ℕ → ℕ → Action (Option Prompt)
get_held id now a = do
  e ← entry a
  sweep_expired e.prompt.session_id now
  e' ← entry a
  reads (λ r. if_held (get r.by_id id) e'.prompt)

unfoldable pub get_prompt : String → ℕ → Action (Option Prompt)
get_prompt id now = do held ← reads (λ r. get r.by_id id); branch held (pure none) (get_held id now)

-- `snapshot`: the sequence and the prompts.
unfoldable pub snapshot : String → ℕ → Action (ℕ × List Prompt)
unfolding prompts_of
snapshot session now = do
  sweep_expired session now
  reads (λ r. (or_zero (get r.sequences session), prompts_of r (records session r)))

unfoldable pub open_prompts : String → ℕ → Action (List Prompt)
open_prompts session now = do
  (n, ps) ← snapshot session now
  pure (keep_if (λ p. is_live p.state) ps)

-- The expiry timer of an entry, when it fires: it may be early, since a delay has a bound.
unfoldable pub timer_fires : ℕ → ℕ → Action (Unit {0})
timer_fires a now = do
  _ ← clear_expiration a
  done ← expire_if_due a now
  if done then pure tt else (schedule_expiration a now >>= λ _. pure tt)

unfoldable pub dispose_all : Dict ℕ → Action (Unit {0})
dispose_all [] = pure tt
dispose_all ((id, a) ∷ m) = clear_expiration a >>= λ _. dispose_all m

unfoldable pub dispose : Action (Unit {0})
dispose = reads (λ r. r.by_id) >>= dispose_all
