-- ===== src/Prompts/History/Tests.antt =====
-- Concrete histories of a prompt registry.
use threadbase_streamer.Prelude.{
  ℕ, zero, suc, ◌≡◌, ◌≢◌, refl, Option, none, some, true, false, get_elem?, String, List, [], ◌∷◌,
  arith,
}
use threadbase_streamer.Prelude.Dict.{get, put, remove}
use threadbase_streamer.Prompts.{
  Prompt, PromptEntry, PromptDraft, PromptAnswer, answered, wrote, resolved, is_live, single,
  open_prompt, prompt_terminal_retention_ms, prompt_max_records_per_session,
}
use threadbase_streamer.Prompts.Validation.{validate_responses}
use threadbase_streamer.Prompts.Validation.Complete.{IsComplete}
use threadbase_streamer.Prompts.Registry.{
  PromptRegistry, is_due, ◌>>=◌, amend, reads, branch, pure, required, allocate, set_maps, publish,
  schedule_expiration, entry, clear_expiration, ended, expire_if_due, on_expire, require_entry,
  throw, transition,
}
use threadbase_streamer.Prompts.Registry.Methods.{
  create, open_new, sweep_expired, held_state, open_with, register, enforce_cap, drop_oldest,
  sweep_all, sweep_one, drop_if_empty, provider_closed, close_entry,
}
use threadbase_streamer.Prompts.Registry.Answering.{
  calls, submit, submit_to, start, settle, check_answer, close_deferred, conclude, concluded,
  dequeued, end_by_adapter, enqueue, idle, kept_outcomes, refuse, rejecting, settle_checked,
  settle_live, settle_result, start_answer, start_checked, writing, written,
}
use threadbase_streamer.Prompts.Registry.Evolution.{Numbered}
use threadbase_streamer.Prompts.Registry.Evolution.Methods.{IsSchema}
use threadbase_streamer.Prompts.History.{Call, opens, submits, starts, closes, run, step}
use threadbase_streamer.Prompts.History.Ends.{ended_stays, events-Numbered}
use threadbase_streamer.Prompts.History.Once.{answered_once}
use threadbase_streamer.Prompts.Registry.Answering.Writes.{start_calls}

-- A schema that takes every prompt.
abbrev accepts_all : Prompt → Option Prompt
accepts_all p = some p

accepts_all-IsSchema : IsSchema accepts_all
accepts_all-IsSchema = record {
  keeps_revision = λ p q h. ground arith;
  keeps_state = λ p q h. ground arith;
}

abbrev number : ℕ → String
number zero = "q0"
number (suc zero) = "o0"
number n = "o1"

abbrev choice : PromptDraft
choice = record {
  session_id = "s1";
  expires_at = some 9000;
  questions = record { input_mode = single; options = "yes" ∷ "no" ∷ []; content = "Go on?" } ∷ [];
  content = "permission";
}

abbrev yes : PromptAnswer
yes = record {
  prompt_id = "p1";
  revision = 1;
  idempotency_key = "k1";
  responses = record { question_id = "q0"; option_ids = some ("o0" ∷ []); text = none } ∷ [];
}

abbrev fresh : PromptRegistry
fresh = create prompt_terminal_retention_ms prompt_max_records_per_session

abbrev opened : List Call
opened = opens choice true "p1" number 1000 ∷ submits "s1" yes 2000 ∷ []

abbrev waiting : PromptRegistry
waiting = run accepts_all opened fresh

abbrev asked : Prompt
asked = record {
  session_id = "s1";
  prompt_id = "p1";
  revision = 1;
  state = open_prompt;
  terminal_reason = none;
  expires_at = some 9000;
  questions =
      record {
        question_id = "q0";
        input_mode = single;
        options =
            record { option_id = "o0"; content = "yes" }
            ∷ record { option_id = "o1"; content = "no" }
            ∷ [];
        content = "Go on?";
      }
      ∷ [];
  content = "permission";
}

calls_adapter : (start 0 3000 waiting).1 ≡ some (calls asked)
unfolding run step create get put remove validate_responses ◌>>=◌ amend reads branch pure required
    allocate set_maps publish schedule_expiration entry clear_expiration ended expire_if_due
    on_expire require_entry throw transition open_new sweep_expired held_state open_with register
    enforce_cap drop_oldest sweep_all sweep_one drop_if_empty provider_closed close_entry submit
    submit_to start settle check_answer close_deferred conclude concluded dequeued end_by_adapter
    enqueue idle kept_outcomes refuse rejecting settle_checked settle_live settle_result
    start_answer start_checked writing written
calls_adapter = refl

abbrev written_by : PromptRegistry
written_by = (start 0 3000 waiting).0

abbrev done : Prompt
done = record asked { revision = 2; state = resolved; terminal_reason = some "answered" }

is_answered : (settle 0 "p1" wrote 4000 written_by).1 ≡ some (answered done)
unfolding run step create get put remove validate_responses ◌>>=◌ amend reads branch pure required
    allocate set_maps publish schedule_expiration entry clear_expiration ended expire_if_due
    on_expire require_entry throw transition open_new sweep_expired held_state open_with register
    enforce_cap drop_oldest sweep_all sweep_one drop_if_empty provider_closed close_entry submit
    submit_to start settle check_answer close_deferred conclude concluded dequeued end_by_adapter
    enqueue idle kept_outcomes refuse rejecting settle_checked settle_live settle_result
    start_answer start_checked writing written
is_answered = refl

start_calls_example :
    (e : PromptEntry) × (answer : PromptAnswer) × (queue : List PromptAnswer) × ((get_elem?
          waiting.objects 0
        ≡ some e)
      × (asked ≡ e.prompt)
      × (e.running ≡ none)
      × (e.queue ≡ answer ∷ queue)
      × (is_live asked.state ≡ true)
      × (is_due asked 3000 ≡ false)
      × (asked.revision ≡ answer.revision)
      × IsComplete asked answer
      × (e.has_adapter ≡ true))
start_calls_example = start_calls 0 3000 waiting asked calls_adapter

abbrev settled : PromptRegistry
settled = (settle 0 "p1" wrote 4000 written_by).0

-- The provider closes the prompt, too late, and a second answer comes.
abbrev later : List Call
later =
    closes "p1" "gone" 5000
    ∷ submits "s1" (record yes { idempotency_key = "k2" }) 6000
    ∷ starts 0 7000
    ∷ []

still_held : get (run accepts_all later settled).by_id "p1" ≡ some 0
unfolding run step create get put remove validate_responses ◌>>=◌ amend reads branch pure required
    allocate set_maps publish schedule_expiration entry clear_expiration ended expire_if_due
    on_expire require_entry throw transition open_new sweep_expired held_state open_with register
    enforce_cap drop_oldest sweep_all sweep_one drop_if_empty provider_closed close_entry submit
    submit_to start settle check_answer close_deferred conclude concluded dequeued end_by_adapter
    enqueue idle kept_outcomes refuse rejecting settle_checked settle_live settle_result
    start_answer start_checked writing written
still_held = refl

held : get written_by.by_id "p1" ≡ some 0
unfolding run step create get put remove validate_responses ◌>>=◌ amend reads branch pure required
    allocate set_maps publish schedule_expiration entry clear_expiration ended expire_if_due
    on_expire require_entry throw transition open_new sweep_expired held_state open_with register
    enforce_cap drop_oldest sweep_all sweep_one drop_if_empty provider_closed close_entry submit
    submit_to start settle check_answer close_deferred conclude concluded dequeued end_by_adapter
    enqueue idle kept_outcomes refuse rejecting settle_checked settle_live settle_result
    start_answer start_checked writing written
held = refl

answered_once_example :
    (done.state ≡ resolved)
    × ((e : PromptEntry) × ((get_elem? (run accepts_all later settled).objects 0 ≡ some e)
          × (e.prompt ≡ done)))
    × ((settle 0 "p1" wrote 8000 (run accepts_all later settled)).1 ≢ some (answered done))
answered_once_example =
    answered_once accepts_all accepts_all-IsSchema later written_by 0 4000 8000 "p1" "p1" wrote
      wrote done done held is_answered still_held

abbrev settled_entry : PromptEntry
settled_entry = record {
  prompt = done;
  has_adapter = true;
  terminal_at = some 4000;
  expiry_timer = none;
  queue = [];
  running = none;
  in_flight = [];
  outcomes = ("k1", record { at = 4000; outcome = answered done }) ∷ [];
  answering = false;
  deferred_close = none;
}

settled_entry-at : get_elem? settled.objects 0 ≡ some settled_entry
unfolding run step create get put remove validate_responses ◌>>=◌ amend reads branch pure required
    allocate set_maps publish schedule_expiration entry clear_expiration ended expire_if_due
    on_expire require_entry throw transition open_new sweep_expired held_state open_with register
    enforce_cap drop_oldest sweep_all sweep_one drop_if_empty provider_closed close_entry submit
    submit_to start settle check_answer close_deferred conclude concluded dequeued end_by_adapter
    enqueue idle kept_outcomes refuse rejecting settle_checked settle_live settle_result
    start_answer start_checked writing written
settled_entry-at = refl

ended_stays_example :
    (e' : PromptEntry) × ((get_elem? (run accepts_all later settled).objects 0 ≡ some e')
      × (e'.prompt ≡ done))
ended_stays_example =
    ended_stays accepts_all accepts_all-IsSchema later settled 0 settled_entry settled_entry-at refl

events-Numbered_example :
    Numbered
      (run accepts_all opened
        (create prompt_terminal_retention_ms prompt_max_records_per_session)).effects
events-Numbered_example =
    events-Numbered accepts_all accepts_all-IsSchema opened prompt_terminal_retention_ms
      prompt_max_records_per_session
