-- ===== src/Prompts/Validation/Tests.antt =====
-- The checks of responses on concrete answers.
use threadbase_streamer.Prelude.{◌≡◌, ◌↔◌, refl, none, some, [], ◌∷◌}
use threadbase_streamer.Prompts.{
  Prompt, PromptAnswer, open_prompt, multi, text, unknown_option, incomplete_answer,
}
use threadbase_streamer.Prompts.Validation.{validate_responses}
use threadbase_streamer.Prompts.Validation.Complete.{IsComplete, validate_responses-Complete}

abbrev form : Prompt
form = record {
  session_id = "s";
  prompt_id = "p";
  revision = 1;
  state = open_prompt;
  terminal_reason = none;
  expires_at = none;
  questions =
      record {
        question_id = "which";
        input_mode = multi;
        options =
            record { option_id = "a"; content = "A" }
            ∷ record { option_id = "b"; content = "B" }
            ∷ [];
        content = "Which?";
      }
      ∷ record { question_id = "why"; input_mode = text; options = []; content = "Why?" }
      ∷ [];
  content = "";
}

abbrev filled : PromptAnswer
filled = record {
  prompt_id = "p";
  revision = 1;
  idempotency_key = "k";
  responses =
      record { question_id = "why"; option_ids = none; text = some "because" }
      ∷ record { question_id = "which"; option_ids = some ("b" ∷ "a" ∷ []); text = none }
      ∷ [];
}

passes : validate_responses form filled ≡ none
unfolding validate_responses
passes = refl

refuses_option :
    validate_responses form (record filled {
      responses =
          record { question_id = "why"; option_ids = none; text = some "because" }
          ∷ record { question_id = "which"; option_ids = some ("c" ∷ []); text = none }
          ∷ [];
    })
    ≡ some unknown_option
unfolding validate_responses
refuses_option = refl

refuses_missing :
    validate_responses form (record filled { responses = [] }) ≡ some incomplete_answer
unfolding validate_responses
refuses_missing = refl

validate_responses-Complete_example :
    (validate_responses form filled ≡ none) ↔ IsComplete form filled
validate_responses-Complete_example = validate_responses-Complete form filled
