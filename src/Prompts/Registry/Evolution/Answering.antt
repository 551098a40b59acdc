-- ===== src/Prompts/Registry/Evolution/Answering.antt =====
-- The answers keep what the methods keep.
use threadbase_streamer.Prelude.{ℕ, refl, Option, none, some, String, arith}
use threadbase_streamer.Prompts.{
  PromptEntry, PromptState, PromptAnswer, PromptAnswerOutcome, PromptAdapterResult, wrote,
  adapter_threw, failed,
}
use threadbase_streamer.Prompts.Registry.{PromptRegistry, Action, entry, amend}
use threadbase_streamer.Prompts.Registry.Answering.{
  submit, submit_to, enqueue, kept_outcomes, concluded, conclude, dequeued, writing, start_checked,
  start_answer, idle, rejecting, start, written, close_deferred, refuse, end_by_adapter,
  settle_live, settle_checked, settle_result, settle,
}
use threadbase_streamer.Prompts.Registry.Evolution.{
  Advances, Evolves, Evolves-trans, Evolves-refl, Keeps, Keeps-bind, Keeps-amend, Keeps-required,
  keeps_rules,
}
use threadbase_streamer.Prompts.Registry.Evolution.Methods.{
  Keeps-amend-some, Keeps-expire_if_due, Keeps-sweep_expired, Keeps-provider_closed,
  Keeps-transition,
}

Advances-enqueue : (answer : PromptAnswer) → Advances (enqueue answer)
unfolding enqueue
Advances-enqueue answer e e' h = ground arith

Keeps-prune :
    (a retention now : ℕ)
    → Keeps (amend a (λ e. some (record e { outcomes = kept_outcomes retention now e.outcomes })))
Keeps-prune a retention now =
    Keeps-amend-some a (λ e. record e { outcomes = kept_outcomes retention now e.outcomes })
      (λ e. refl)

Keeps-submit_to : (answer : PromptAnswer) (now a : ℕ) → Keeps (submit_to answer now a)
unfolding submit_to
Keeps-submit_to answer now a = search (keeps_rules, Keeps-prune, Advances-enqueue) depth 9

pub Keeps-submit :
    (session : String) (answer : PromptAnswer) (now : ℕ) → Keeps (submit session answer now)
unfolding submit
Keeps-submit session answer now = search (keeps_rules, Keeps-sweep_expired, Keeps-submit_to) depth 9

Advances-concluded :
    (answer : PromptAnswer) (outcome : PromptAnswerOutcome) (now : ℕ)
    → Advances (concluded answer outcome now)
unfolding concluded
Advances-concluded answer outcome now e e' h = ground arith

Keeps-conclude :
    (a : ℕ) (answer : PromptAnswer) (outcome : PromptAnswerOutcome) (now : ℕ)
    → Keeps (conclude a answer outcome now)
unfolding conclude
Keeps-conclude a answer outcome now = search (keeps_rules, Advances-concluded)

Advances-dequeued : Advances dequeued
unfolding dequeued
Advances-dequeued e e' h = ground arith

Advances-writing : Advances writing
unfolding writing
Advances-writing e e' h = ground arith

Keeps-start_checked :
    (a : ℕ) (e : PromptEntry) (answer : PromptAnswer) (now : ℕ)
    → Keeps (start_checked a e answer now)
unfolding start_checked
Keeps-start_checked a e answer now = search (keeps_rules, Advances-writing, Keeps-conclude) depth 9

Keeps-start_answer :
    (a : ℕ) (e : PromptEntry) (answer : PromptAnswer) (now : ℕ)
    → Keeps (start_answer a e answer now)
unfolding start_answer
Keeps-start_answer a e answer now =
    search (keeps_rules, Keeps-conclude, Keeps-expire_if_due, Keeps-start_checked) depth 9

Advances-idle : Advances idle
unfolding idle
Advances-idle e e' h = ground arith

Evolves-rejecting :
    {A : Type 0} (a : ℕ) (p : PromptRegistry × Option A) → Evolves p.0 (rejecting a p).0
unfolding rejecting
Evolves-rejecting a (r, some x) = Evolves-refl r
Evolves-rejecting a (r, none) = (Keeps-amend a idle Advances-idle).at r

Keeps-rejecting : {A : Type 0} (a : ℕ) (m : Action A) → Keeps m → Keeps (λ r. rejecting a (m r))
Keeps-rejecting a m km = record {
  at = λ r. Evolves-trans r (m r).0 (rejecting a (m r)).0 (km.at r) (Evolves-rejecting a (m r));
}

pub Keeps-start : (a now : ℕ) → Keeps (start a now)
unfolding start
Keeps-start a now = Keeps-bind _ _ (Keeps-amend a dequeued Advances-dequeued) λ e.
    Keeps-bind _ _ (Keeps-required _)
      λ answer. Keeps-rejecting a (start_answer a e answer now) (Keeps-start_answer a e answer now)

Advances-written : Advances written
unfolding written
Advances-written e e' h = ground arith

Keeps-close_deferred :
    (id : String) (deferred : Option String) (now : ℕ) → Keeps (close_deferred id deferred now)
unfolding close_deferred
Keeps-close_deferred id none now = search keeps_rules
Keeps-close_deferred id (some reason) now = search (keeps_rules, Keeps-provider_closed)

Keeps-refuse :
    (a : ℕ) (answer : PromptAnswer) (id : String) (deferred : Option String)
    (outcome : PromptAnswerOutcome) (now : ℕ)
    → Keeps (refuse a answer id deferred outcome now)
unfolding refuse
Keeps-refuse a answer id deferred outcome now =
    search (keeps_rules, Keeps-close_deferred, Keeps-conclude)

Keeps-end_by_adapter :
    (id : String) (terminal : Option (PromptState × String)) (now : ℕ)
    → Keeps (end_by_adapter id terminal now)
unfolding end_by_adapter
Keeps-end_by_adapter id none now = search keeps_rules
Keeps-end_by_adapter id (some (state, reason)) now = search (keeps_rules, Keeps-transition)

Keeps-settle_live :
    (a : ℕ) (answer : PromptAnswer) (id : String) (deferred : Option String)
    (result : PromptAdapterResult) (now : ℕ)
    → Keeps (settle_live a answer id deferred result now)
unfolding settle_live
Keeps-settle_live a answer id deferred adapter_threw now = search Keeps-refuse
Keeps-settle_live a answer id deferred (failed code terminal) now =
    search (keeps_rules, Keeps-end_by_adapter, Keeps-refuse)
Keeps-settle_live a answer id deferred wrote now =
    search (keeps_rules, Keeps-transition, Keeps-conclude)

Keeps-settle_checked :
    (a : ℕ) (e : PromptEntry) (answer : PromptAnswer) (id : String) (deferred : Option String)
    (result : PromptAdapterResult) (now : ℕ)
    → Keeps (settle_checked a e answer id deferred result now)
unfolding settle_checked
Keeps-settle_checked a e answer id deferred result now =
    search (keeps_rules, Keeps-settle_live, Keeps-refuse)

Keeps-settle_result :
    (a : ℕ) (e : PromptEntry) (answer : PromptAnswer) (id : String) (deferred : Option String)
    (result : PromptAdapterResult) (now : ℕ)
    → Keeps (settle_result a e answer id deferred result now)
unfolding settle_result
Keeps-settle_result a e answer id deferred adapter_threw now = search Keeps-refuse
Keeps-settle_result a e answer id deferred wrote now = search Keeps-settle_checked
Keeps-settle_result a e answer id deferred (failed code terminal) now = search Keeps-settle_checked

pub Keeps-settle :
    (a : ℕ) (id : String) (result : PromptAdapterResult) (now : ℕ) → Keeps (settle a id result now)
unfolding settle entry
Keeps-settle a id result now = Keeps-bind _ _ (Keeps-required _) λ before.
    Keeps-bind _ _ (Keeps-required _) λ answer.
      Keeps-bind _ _ (Keeps-amend a written Advances-written) λ e.
        Keeps-rejecting a (settle_result a e answer id before.deferred_close result now)
          (Keeps-settle_result a e answer id before.deferred_close result now)
