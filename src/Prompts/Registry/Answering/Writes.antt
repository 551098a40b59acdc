-- ===== src/Prompts/Registry/Answering/Writes.antt =====
-- When the adapter is called: every check stands before the write.
use threadbase_streamer.Prelude.{
  ℕ, ◌≡◌, ◌≢◌, sym, subst, inl, inr, refl, List, [], ◌∷◌, Option, none, some, Bool, true, false,
  get_elem?, arith, Option-cases, Bool-cases, if◌then◌else◌,
}
use threadbase_streamer.Prompts.{
  Prompt, PromptEntry, PromptAnswer, PromptAnswerOutcome, is_live, refused, prompt_expired,
  terminal_error,
}
use threadbase_streamer.Prompts.Validation.{validate_responses}
use threadbase_streamer.Prompts.Validation.Complete.{IsComplete, validate_responses-IsComplete}
use threadbase_streamer.Prompts.Registry.{
  PromptRegistry, ◌>>=◌, branch, pure, required, entry, amend, expire_if_due, expire, expired,
  is_due, transition,
}
use threadbase_streamer.Prompts.Registry.Values.{bind_value, amend_value}
use threadbase_streamer.Prompts.Registry.Answering.{
  calls, over, check_answer, conclude, dequeued, writing, start_checked, start_answer, rejecting,
  start,
}

expire_true : (p : Prompt) (now : ℕ) (r : PromptRegistry) → (expire p now r).1 ≢ some false
unfolding expire pure
expire_true p now r h =
    let (ended, (e, h')) = bind_value _ _ r false h in
    let (done, (e', h'')) =
      bind_value _ _ (transition p.prompt_id expired "deadline_elapsed" now r).0 false h' in
    ground arith

not_due :
    (a now : ℕ) (r : PromptRegistry) (e : PromptEntry)
    → get_elem? r.objects a ≡ some e
    → (expire_if_due a now r).1 ≡ some false
    → is_due e.prompt now ≡ false
unfolding expire_if_due entry required pure
not_due a now r e h k =
    let (e', (same, k')) = bind_value (entry a) _ r false k in
    elim (Bool-cases (is_due e.prompt now)) [
      | inl due ↦ absurd (ground (arith, expire_true e.prompt now r))
      | inr early ↦ early
    ]

-- A task that concludes calls nothing.
concludes_over :
    (a : ℕ) (answer : PromptAnswer) (outcome : PromptAnswerOutcome) (now : ℕ) (r : PromptRegistry)
    (p : Prompt)
    → ((conclude a answer outcome now >>= λ o. pure (over o)) r).1 ≢ some (calls p)
unfolding pure
concludes_over a answer outcome now r p h =
    let (o, (e, h')) = bind_value (conclude a answer outcome now) _ r (calls p) h in ground arith

branch_calls :
    (o : Option PromptAnswerOutcome) (a : ℕ) (e : PromptEntry) (answer : PromptAnswer) (now : ℕ)
    (r : PromptRegistry) (p : Prompt)
    → (branch o
        (amend a writing >>= λ _. pure (calls e.prompt))
        (λ outcome. conclude a answer outcome now >>= λ o. pure (over o))
        r).1
      ≡ some (calls p)
    → (o ≡ none) × (p ≡ e.prompt)
unfolding branch pure
branch_calls none a e answer now r p h =
    let (e', (s, k)) = bind_value (amend a writing) _ r (calls p) h in (refl, ground arith)
branch_calls (some o) a e answer now r p h = absurd (concludes_over a answer o now r p h)

start_checked_lem :
    (a : ℕ) (e : PromptEntry) (answer : PromptAnswer) (now : ℕ) (r : PromptRegistry) (p : Prompt)
    → (start_checked a e answer now r).1 ≡ some (calls p)
    → (check_answer e answer ≡ none) × (p ≡ e.prompt)
unfolding start_checked
start_checked_lem a e answer now r p h = branch_calls (check_answer e answer) a e answer now r p h

-- The task goes on to the checks only where the prompt has not expired.
late_calls :
    (late : Bool) (a : ℕ) (e : PromptEntry) (answer : PromptAnswer) (now : ℕ) (r : PromptRegistry)
    (p : Prompt)
    → ((if late
          then (conclude a answer (refused prompt_expired none) now >>= λ o. pure (over o))
          else start_checked a e answer now)
        r).1
      ≡ some (calls p)
    → (late ≡ false) × (check_answer e answer ≡ none) × (p ≡ e.prompt)
late_calls true a e answer now r p h =
    absurd (concludes_over a answer (refused prompt_expired none) now r p h)
late_calls false a e answer now r p h =
    let (ok, same) = start_checked_lem a e answer now r p h in (refl, ok, same)

start_answer_lem :
    (live : Bool) (a : ℕ) (e : PromptEntry) (answer : PromptAnswer) (now : ℕ) (r : PromptRegistry)
    (p : Prompt)
    → is_live e.prompt.state ≡ live
    → get_elem? r.objects a ≡ some e
    → (start_answer a e answer now r).1 ≡ some (calls p)
    → (live ≡ true)
      × (is_due e.prompt now ≡ false)
      × (check_answer e answer ≡ none)
      × (p ≡ e.prompt)
unfolding start_answer
start_answer_lem true a e answer now r p live at h =
    let (late, (due, k)) =
      bind_value (expire_if_due a now)
        (λ late.
          if late
          then (conclude a answer (refused prompt_expired none) now >>= λ o. pure (over o))
          else start_checked a e answer now)
        r (calls p) (ground arith) in
    let (early, ok, same) = late_calls late a e answer now (expire_if_due a now r).0 p k in
    (refl, not_due a now r e at (ground arith), ok, same)
start_answer_lem false a e answer now r p live at h =
    absurd (
      concludes_over a answer (refused (terminal_error e.prompt.state) none) now r p (ground arith))

check_answer_lem :
    (e : PromptEntry) (answer : PromptAnswer)
    → check_answer e answer ≡ none
    → (e.prompt.revision ≡ answer.revision)
      × (validate_responses e.prompt answer ≡ none)
      × (e.has_adapter ≡ true)
unfolding check_answer
check_answer_lem e answer h = elim (Option-cases (validate_responses e.prompt answer)) [
  | inl ok ↦ ground arith
  | inr (code, bad) ↦ absurd (ground arith)
]

dequeued_lem :
    (waiting : List PromptAnswer) (e e' : PromptEntry) (answer : PromptAnswer)
    → e.queue ≡ waiting
    → dequeued e ≡ some e'
    → e'.running ≡ some answer
    → (queue : List PromptAnswer) × ((e.queue ≡ answer ∷ queue)
        × (e.running ≡ none)
        × (e'.prompt ≡ e.prompt)
        × (e'.has_adapter ≡ e.has_adapter))
unfolding dequeued
dequeued_lem [] e e' answer q h k = elim (Option-cases e.running) [
  | inl idle ↦ absurd (ground arith)
  | inr (other, busy) ↦ absurd (ground arith)
]
dequeued_lem (first ∷ queue) e e' answer q h k = elim (Option-cases e.running) [
  | inl idle ↦ (queue, ground arith)
  | inr (other, busy) ↦ absurd (ground arith)
]

rejecting_value :
    {A : Type 0}
    → (a : ℕ) (p : PromptRegistry × Option A) (b : A) → (rejecting a p).1 ≡ some b
    → p.1 ≡ some b
unfolding rejecting
rejecting_value a (r, none) b h = absurd (ground arith)
rejecting_value a (r, some x) b h = h

-- Where the task of an answer calls the adapter, the entry's prompt is live and has not reached its
-- deadline, the answer is the first one waiting, no other one runs, it names the prompt's revision
-- and it answers every question.
pub start_calls :
    (a now : ℕ) (r : PromptRegistry) (p : Prompt)
    → (start a now r).1 ≡ some (calls p)
    → (e : PromptEntry) × (answer : PromptAnswer) × (queue : List PromptAnswer) × ((get_elem?
            r.objects a
          ≡ some e)
        × (p ≡ e.prompt)
        × (e.running ≡ none)
        × (e.queue ≡ answer ∷ queue)
        × (is_live p.state ≡ true)
        × (is_due p now ≡ false)
        × (p.revision ≡ answer.revision)
        × IsComplete p answer
        × (e.has_adapter ≡ true))
unfolding start required
start_calls a now r p h =
    let (e', (h', k)) = bind_value (amend a dequeued) _ r (calls p) h in
    let (answer, (runs, k')) =
      bind_value (required (λ r. e'.running)) _ (amend a dequeued r).0 (calls p) k in
    let (e, (at, deq, at')) = amend_value a dequeued r e' h' in
    let (queue, (q, idle, same, ad)) = dequeued_lem e.queue e e' answer refl deq runs in
    let (live, due, ok, pe) =
      start_answer_lem (is_live e'.prompt.state) a e' answer now (amend a dequeued r).0 p refl at'
        (rejecting_value a (start_answer a e' answer now (amend a dequeued r).0) (calls p) k') in
    let (rev, val, has) = check_answer_lem e' answer ok in
    (
      e,
      answer,
      queue,
      (
        at,
        ground arith,
        idle,
        q,
        ground arith,
        ground arith,
        ground arith,
        subst (λ p. IsComplete p answer) (sym pe)
            (validate_responses-IsComplete e'.prompt answer val),
        ground arith,
      ),
    )
