-- ===== src/Prompts/Registry/Answering/Resolves.antt =====
-- When an answer is accepted: its adapter wrote, and the prompt goes from live to resolved.
use threadbase_streamer.Prelude.{
  ℕ, ◌≡◌, inl, inr, refl, Option, none, some, get_elem?, arith, String, Option-cases, Bool-cases,
  ◌==◌,
}
use threadbase_streamer.Prelude.Dict.{get}
use threadbase_streamer.Prompts.{
  Prompt, PromptEntry, PromptAnswer, PromptAnswerOutcome, PromptAdapterResult, wrote, adapter_threw,
  failed, answered, refused, resolved, is_live, terminal_error, prompt_revision_mismatch,
}
use threadbase_streamer.Prompts.Registry.{
  PromptRegistry, Action, ◌>>=◌, pure, required, entry, amend, transition, amended,
}
use threadbase_streamer.Prompts.Registry.Values.{bind_value, bind_state, amend_value}
use threadbase_streamer.Prompts.Registry.Evolution.{Keeps, Keeps-ended, keeps_rules}
use threadbase_streamer.Prompts.Registry.Evolution.Methods.{Keeps-amend-some}
use threadbase_streamer.Prompts.Registry.Transitions.{Ends, transition-Ends}
use threadbase_streamer.Prompts.Registry.Answering.{
  conclude, concluded, refuse, close_deferred, end_by_adapter, settle_live, settle_checked,
  settle_result, settle, written, rejecting,
}

conclude_value :
    (a : ℕ) (answer : PromptAnswer) (o o' : PromptAnswerOutcome) (now : ℕ) (r : PromptRegistry)
    → (conclude a answer o now r).1 ≡ some o'
    → o' ≡ o
unfolding conclude pure
conclude_value a answer o o' now r h =
    let (e, (done, k)) = bind_value (amend a (concluded answer o now)) _ r o' h in ground arith

Keeps-conclude :
    (a : ℕ) (answer : PromptAnswer) (o : PromptAnswerOutcome) (now : ℕ)
    → Keeps (conclude a answer o now)
unfolding conclude concluded
Keeps-conclude a answer o now = search (keeps_rules, Keeps-amend-some) depth 9

refuse_value :
    (a : ℕ) (answer : PromptAnswer) (id : String) (deferred : Option String)
    (o o' : PromptAnswerOutcome) (now : ℕ) (r : PromptRegistry)
    → (refuse a answer id deferred o now r).1 ≡ some o'
    → o' ≡ o
unfolding refuse
refuse_value a answer id deferred o o' now r h =
    let (u, (done, k)) = bind_value (close_deferred id deferred now) _ r o' h in
    conclude_value a answer o o' now (close_deferred id deferred now r).0 k

abbrev resolving : String → ℕ → Action Prompt
resolving id now = transition id resolved "answered" now

settle_live-Ends :
    (a : ℕ) (answer : PromptAnswer) (id : String) (deferred : Option String)
    (result : PromptAdapterResult) (now : ℕ) (r : PromptRegistry) (p : Prompt)
    → get r.by_id id ≡ some a
    → (settle_live a answer id deferred result now r).1 ≡ some (answered p)
    → Ends r (settle_live a answer id deferred result now r).0 a resolved p
unfolding settle_live
settle_live-Ends a answer id deferred adapter_threw now r p held h =
    let same = refuse_value a answer id deferred _ (answered p) now r h in absurd (ground arith)
settle_live-Ends a answer id deferred (failed code terminal) now r p held h =
    let (u, (done, k)) = bind_value (end_by_adapter id terminal now) _ r (answered p) h in
    let same =
      refuse_value a answer id deferred (refused code none) (answered p) now
        (end_by_adapter id terminal now r).0 k in
    absurd (ground arith)
settle_live-Ends a answer id deferred wrote now r p held h =
    let k : Prompt → Action PromptAnswerOutcome = λ q. conclude a answer (answered q) now in
    let (q, (done, rest)) = bind_value (resolving id now) k r (answered p) h in
    let same = conclude_value a answer (answered q) (answered p) now (resolving id now r).0 rest in
    let (e, e', (before, live, after, is_q, state)) =
      transition-Ends id resolved "answered" now r q a refl held done in
    let (e'', (later, kept)) =
      Keeps-ended (k q) (resolving id now r).0 a e' (Keeps-conclude a answer (answered q) now) after
        (ground arith) in
    (
      e,
      e'',
      (
        before,
        live,
        rw (bind_state (resolving id now) k r q done) later,
        ground arith,
        ground arith,
      ),
    )

-- Only the checks that pass lead to an accepted answer.
settle_checked_lem :
    (a : ℕ) (e : PromptEntry) (answer : PromptAnswer) (id : String) (deferred : Option String)
    (result : PromptAdapterResult) (now : ℕ) (r : PromptRegistry) (p : Prompt)
    → (settle_checked a e answer id deferred result now r).1 ≡ some (answered p)
    → settle_checked a e answer id deferred result now r
      ≡ settle_live a answer id deferred result now r
unfolding settle_checked
settle_checked_lem a e answer id deferred result now r p h =
    elim (Bool-cases (is_live e.prompt.state)) [
      | inl live ↦ elim (Bool-cases (e.prompt.revision == answer.revision)) [
        | inl same ↦ ground arith
        | inr other ↦ ground (
          arith,
          refuse_value a answer id deferred
              (refused prompt_revision_mismatch (some e.prompt.revision)) (answered p) now r,
        )
      ]
      | inr over ↦ ground (
        arith,
        refuse_value a answer id deferred (refused (terminal_error e.prompt.state) none)
            (answered p) now r,
      )
    ]

settle_result_lem :
    (a : ℕ) (e : PromptEntry) (answer : PromptAnswer) (id : String) (deferred : Option String)
    (result : PromptAdapterResult) (now : ℕ) (r : PromptRegistry) (p : Prompt)
    → (settle_result a e answer id deferred result now r).1 ≡ some (answered p)
    → settle_result a e answer id deferred result now r
      ≡ settle_live a answer id deferred result now r
unfolding settle_result
settle_result_lem a e answer id deferred wrote now r p h =
    settle_checked_lem a e answer id deferred wrote now r p h
settle_result_lem a e answer id deferred adapter_threw now r p h =
    let same = refuse_value a answer id deferred _ (answered p) now r h in absurd (ground arith)
settle_result_lem a e answer id deferred (failed code terminal) now r p h =
    settle_checked_lem a e answer id deferred (failed code terminal) now r p h

rejecting_lem :
    {A : Type 0}
    → (a : ℕ) (q : PromptRegistry × Option A) (b : A) → (rejecting a q).1 ≡ some b
    → rejecting a q ≡ q
unfolding rejecting
rejecting_lem a (r, none) b h = absurd (ground arith)
rejecting_lem a (r, some x) b h = refl

amend-by_id :
    (a : ℕ) (f : PromptEntry → Option PromptEntry) (r : PromptRegistry)
    → (amend a f r).0.by_id ≡ r.by_id
unfolding amend amended
amend-by_id a f r = elim (Option-cases (get_elem? r.objects a)) [
  | inl e ↦ ground arith
  | inr (e, at) ↦ elim (Option-cases (f e)) [
    | inl stays ↦ ground arith
    | inr (e', made) ↦ ground arith
  ]
]

written_lem : (e e' : PromptEntry) → written e ≡ some e' → e'.prompt ≡ e.prompt
unfolding written
written_lem e e' h = ground arith

-- The rest of `settle`, for the marker's entry and the answer that runs.
abbrev outcome_of :
    ℕ
    → String
    → PromptAdapterResult
    → ℕ
    → PromptEntry
    → PromptAnswer
    → PromptEntry
    → Action PromptAnswerOutcome
outcome_of a id result now before answer e r =
    rejecting a (settle_result a e answer id before.deferred_close result now r)

abbrev take_outcome :
    ℕ → String → PromptAdapterResult → ℕ → PromptEntry → PromptAnswer → Action PromptAnswerOutcome
take_outcome a id result now before answer =
    amend a written >>= outcome_of a id result now before answer

abbrev settle_from : ℕ → String → PromptAdapterResult → ℕ → PromptEntry → Action PromptAnswerOutcome
settle_from a id result now before =
    required (λ r. before.running) >>= take_outcome a id result now before

outcome_of-Ends :
    (a : ℕ) (id : String) (result : PromptAdapterResult) (now : ℕ) (before e : PromptEntry)
    (answer : PromptAnswer) (r : PromptRegistry) (p : Prompt)
    → get r.by_id id ≡ some a
    → (outcome_of a id result now before answer e r).1 ≡ some (answered p)
    → Ends r (outcome_of a id result now before answer e r).0 a resolved p
outcome_of-Ends a id result now before e answer r p held h =
    let deferred = before.deferred_close in
    let value = settle_result a e answer id deferred result now r in
    let kept = rejecting_lem a value (answered p) h in
    let live = settle_result_lem a e answer id deferred result now r p (ground arith) in
    rw (kept, live) (settle_live-Ends a answer id deferred result now r p held (ground arith))

take_outcome-Ends :
    (a : ℕ) (id : String) (result : PromptAdapterResult) (now : ℕ) (before : PromptEntry)
    (answer : PromptAnswer) (r : PromptRegistry) (p : Prompt)
    → get r.by_id id ≡ some a
    → (take_outcome a id result now before answer r).1 ≡ some (answered p)
    → Ends r (take_outcome a id result now before answer r).0 a resolved p
take_outcome-Ends a id result now before answer r p held h =
    let k = outcome_of a id result now before answer in
    let (e, (made, rest)) = bind_value (amend a written) k r (answered p) h in
    let (e0, (at, change, there)) = amend_value a written r e made in
    let (x, e', (found, live, after, is_p, state)) =
      outcome_of-Ends a id result now before e answer (amend a written r).0 p
        (ground (arith, amend-by_id a written r)) rest in
    (
      e0,
      e',
      (
        at,
        ground (arith, written_lem e0 e),
        rw (bind_state (amend a written) k r e made) after,
        is_p,
        state,
      ),
    )

-- Where an answer is accepted, the prompt was live before and is resolved after.
pub settle-Ends :
    (a : ℕ) (id : String) (result : PromptAdapterResult) (now : ℕ) (r : PromptRegistry) (p : Prompt)
    → get r.by_id id ≡ some a
    → (settle a id result now r).1 ≡ some (answered p)
    → Ends r (settle a id result now r).0 a resolved p
unfolding settle entry required
settle-Ends a id result now r p held h =
    let (before, (at, rest)) =
      bind_value (entry a) (settle_from a id result now) r (answered p) h in
    let (answer, (runs, rest')) =
      bind_value (required (λ r. before.running)) (take_outcome a id result now before) r
        (answered p) rest in
    let same = bind_state (entry a) (settle_from a id result now) r before at in
    let same' =
      bind_state (required (λ r. before.running)) (take_outcome a id result now before) r answer
        runs in
    rw (same, same') (take_outcome-Ends a id result now before answer r p held rest')
