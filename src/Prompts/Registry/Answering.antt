-- ===== src/Prompts/Registry/Answering.antt =====
-- `answer` and `performAnswer`. An answer waits for its turn in its entry's queue (`submit`); its
-- turn runs up to the adapter's call (`start`) and goes on when the adapter's promise settles
-- (`settle`). Anything may happen in between.
pub mod Writes
pub mod Resolves
use threadbase_streamer.Prelude.{
  ℕ, ◌+◌, List, [], ◌∷◌, ◌++◌, Option, none, some, Bool, true, false, not, ◌&&◌, ◌||◌, ◌==◌, ltb,
  String, str_eq, keep_if, if◌then◌else◌,
}
use threadbase_streamer.Prelude.Dict.{Dict, get, put}
use threadbase_streamer.Prompts.{
  Prompt, PromptAnswer, PromptEntry, PromptAnswerOutcome, answered, refused, PromptAdapterResult,
  wrote, adapter_threw, failed, RecordedOutcome, PromptState, resolved, is_live, terminal_error,
  prompt_not_found, prompt_revision_mismatch, prompt_expired, prompt_unavailable, provider_error,
}
use threadbase_streamer.Prompts.Validation.{validate_responses}
use threadbase_streamer.Prompts.Registry.{
  PromptRegistry, Action, ◌>>=◌, ◌>>◌, continue, branch, pure, throw, required, reads, entry, amend,
  transition, expire_if_due,
}
use threadbase_streamer.Prompts.Registry.Methods.{sweep_expired, provider_closed}

-- What `answer` returns at once: an outcome, or the promise of a task.
pub data Submitted : Type 0 where
  at_once : PromptAnswerOutcome → Submitted
  pending : Submitted

-- `pruneOutcomes`.
unfoldable pub kept_outcomes : ℕ → ℕ → Dict RecordedOutcome → Dict RecordedOutcome
kept_outcomes retention now outcomes = keep_if (λ o. not (ltb (o.1.at + retention) now)) outcomes

abbrev pub has_key : String → List String → Bool
has_key key [] = false
has_key key (k ∷ ks) = str_eq k key || has_key key ks

-- A key that is in flight joins its task.
unfoldable pub enqueue : PromptAnswer → PromptEntry → Option PromptEntry
enqueue answer e =
    if has_key answer.idempotency_key e.in_flight
    then some e
    else some (record e {
      queue = e.queue ++ answer ∷ [];
      in_flight = answer.idempotency_key ∷ e.in_flight;
    })

unfoldable pub submit_to : PromptAnswer → ℕ → ℕ → Action Submitted
unfolding enqueue
submit_to answer now a = do
  r ← reads (λ r. r)
  e ←
      amend a
        (λ e. some (record e { outcomes = kept_outcomes r.terminal_retention_ms now e.outcomes }))
  branch (get e.outcomes answer.idempotency_key) (amend a (enqueue answer) >>= λ _. pure pending)
      (λ recorded. pure (at_once recorded.outcome))

-- `answer`: a prompt of another session is not found.
unfoldable pub submit : String → PromptAnswer → ℕ → Action Submitted
unfolding submit_to
submit session answer now = do
  sweep_expired session now
  held ← reads (λ r. get r.by_id answer.prompt_id)
  branch held (pure (at_once (refused prompt_not_found none))) (λ a. do
    e ← entry a
    if str_eq e.prompt.session_id session
        then submit_to answer now a
        else pure (at_once (refused prompt_not_found none)))

-- A turn that calls the adapter, with the prompt it is given, or that is over.
pub data Started : Type 0 where
  calls : Prompt → Started
  over : PromptAnswerOutcome → Started

-- The checks before the write, in their order; none lets the adapter be called.
unfoldable pub check_answer : PromptEntry → PromptAnswer → Option PromptAnswerOutcome
check_answer e answer =
    if e.prompt.revision == answer.revision
    then (elim (validate_responses e.prompt answer) [
      | some code ↦ some (refused code none)
      | none ↦ if e.has_adapter then none else some (refused prompt_unavailable none)
    ])
    else some (refused prompt_revision_mismatch (some e.prompt.revision))

-- The task's end: its key leaves the flight, and its outcome is recorded.
unfoldable pub concluded : PromptAnswer → PromptAnswerOutcome → ℕ → PromptEntry → Option PromptEntry
concluded answer outcome now e = some (record e {
  running = none;
  in_flight = keep_if (λ k. not (str_eq k answer.idempotency_key)) e.in_flight;
  outcomes = put e.outcomes answer.idempotency_key (record { at = now; outcome = outcome });
})

unfoldable pub conclude : ℕ → PromptAnswer → PromptAnswerOutcome → ℕ → Action PromptAnswerOutcome
unfolding concluded
conclude a answer outcome now = amend a (concluded answer outcome now) >>= λ _. pure outcome

-- The next answer of the queue, while none runs.
unfoldable pub dequeued : PromptEntry → Option PromptEntry
dequeued e = elim e.running [
  | some answer ↦ none
  | none ↦ elim e.queue [
    | [] ↦ none
    | answer ∷ queue ↦ some (record e { queue = queue; running = some answer })
  ]
]

unfoldable pub writing : PromptEntry → Option PromptEntry
writing e = some (record e { answering = true })

unfoldable pub start_checked : ℕ → PromptEntry → PromptAnswer → ℕ → Action Started
unfolding writing conclude
start_checked a e answer now =
    branch (check_answer e answer) (amend a writing >>= λ _. pure (calls e.prompt))
      (λ outcome. conclude a answer outcome now >>= λ o. pure (over o))

unfoldable pub start_answer : ℕ → PromptEntry → PromptAnswer → ℕ → Action Started
unfolding start_checked conclude
start_answer a e answer now =
    if is_live e.prompt.state
    then (do
      late ← expire_if_due a now
      if late
          then (conclude a answer (refused prompt_expired none) now >>= λ o. pure (over o))
          else start_checked a e answer now)
    else (conclude a answer (refused (terminal_error e.prompt.state) none) now >>= λ o.
        pure (over o))

-- A task that throws rejects: the next may run, and its key stays in flight.
unfoldable pub idle : PromptEntry → Option PromptEntry
idle e = some (record e { running = none })

unfoldable pub rejecting : {A : Type 0} → ℕ → PromptRegistry × Option A → PromptRegistry × Option A
unfolding idle
rejecting a (r, some x) = (r, some x)
rejecting a (r, none) = ((amend a idle r).0, none)

-- The first part of `performAnswer`.
unfoldable pub start : ℕ → ℕ → Action Started
unfolding dequeued start_answer rejecting
start a now = do
  e ← amend a dequeued
  answer ← required (λ r. e.running)
  λ r. rejecting a (start_answer a e answer now r)

-- The adapter has returned: the marker goes, and the deferred close is taken out.
unfoldable pub written : PromptEntry → Option PromptEntry
written e = some (record e { answering = false; deferred_close = none })

-- A deferred close settles on every way that does not resolve. An empty reason is none.
unfoldable pub close_deferred : String → Option String → ℕ → Action (Unit {0})
close_deferred id none now = pure tt
close_deferred id (some reason) now =
    if str_eq reason "" then pure tt else (provider_closed id reason now >>= λ _. pure tt)

unfoldable pub refuse :
    ℕ → PromptAnswer → String → Option String → PromptAnswerOutcome → ℕ → Action PromptAnswerOutcome
unfolding close_deferred conclude
refuse a answer id deferred outcome now =
    close_deferred id deferred now >> conclude a answer outcome now

unfoldable pub end_by_adapter : String → Option (PromptState × String) → ℕ → Action (Unit {0})
end_by_adapter id none now = pure tt
end_by_adapter id (some (state, reason)) now = transition id state reason now >>= λ _. pure tt

unfoldable pub settle_live :
    ℕ → PromptAnswer → String → Option String → PromptAdapterResult → ℕ → Action PromptAnswerOutcome
unfolding refuse end_by_adapter conclude
settle_live a answer id deferred adapter_threw now =
    refuse a answer id deferred (refused provider_error none) now
settle_live a answer id deferred (failed code terminal) now =
    end_by_adapter id terminal now >> refuse a answer id deferred (refused code none) now
settle_live a answer id deferred wrote now = do
  prompt ← transition id resolved "answered" now
  conclude a answer (answered prompt) now

unfoldable pub settle_checked :
    ℕ
    → PromptEntry
    → PromptAnswer
    → String
    → Option String
    → PromptAdapterResult
    → ℕ
    → Action PromptAnswerOutcome
unfolding settle_live refuse
settle_checked a e answer id deferred result now =
    if is_live e.prompt.state
    then if e.prompt.revision == answer.revision
      then settle_live a answer id deferred result now
      else refuse a answer id deferred (refused prompt_revision_mismatch (some e.prompt.revision))
          now
    else refuse a answer id deferred (refused (terminal_error e.prompt.state) none) now

unfoldable pub settle_result :
    ℕ
    → PromptEntry
    → PromptAnswer
    → String
    → Option String
    → PromptAdapterResult
    → ℕ
    → Action PromptAnswerOutcome
unfolding settle_checked refuse
settle_result a e answer id deferred adapter_threw now =
    refuse a answer id deferred (refused provider_error none) now
settle_result a e answer id deferred wrote now = settle_checked a e answer id deferred wrote now
settle_result a e answer id deferred (failed code terminal) now =
    settle_checked a e answer id deferred (failed code terminal) now

-- The second part. `id` is the id of the prompt that the adapter was given.
unfoldable pub settle : ℕ → String → PromptAdapterResult → ℕ → Action PromptAnswerOutcome
unfolding written settle_result rejecting
settle a id result now = do
  before ← entry a
  answer ← required (λ r. before.running)
  e ← amend a written
  λ r. rejecting a (settle_result a e answer id before.deferred_close result now r)
