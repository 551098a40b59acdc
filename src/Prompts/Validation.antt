-- ===== src/Prompts/Validation.antt =====
-- `validateResponses`: an answer is checked against the questions before anything is written.
pub mod Complete
pub mod Tests
use threadbase_streamer.Prelude.{
  ℕ, List, [], ◌∷◌, Option, none, some, Bool, true, false, not, ◌&&◌, ◌||◌, ◌==◌, String, str_eq,
  length, if◌then◌else◌,
}
use threadbase_streamer.Prompts.{
  Prompt, PromptQuestion, PromptOption, PromptResponse, PromptAnswer, InputMode, single, multi,
  PromptAnswerErrorCode, unknown_question, unknown_option, incomplete_answer,
  unsupported_prompt_shape,
}
use threadbase_streamer.Prompts

abbrev pub has_question : String → List PromptQuestion → Bool
has_question id [] = false
has_question id (q ∷ qs) = str_eq q.question_id id || has_question id qs

-- `new Map(responses.map(...)).get(id)`: of several the last.
abbrev pub response_to : String → List PromptResponse → Option PromptResponse
response_to id [] = none
response_to id (r ∷ rs) = elim (response_to id rs) [
  | some later ↦ some later
  | none ↦ if str_eq r.question_id id then some r else none
]

abbrev pub has_option : String → List PromptOption → Bool
has_option id [] = false
has_option id (o ∷ os) = str_eq o.option_id id || has_option id os

abbrev pub all_known : List String → List PromptOption → Bool
all_known [] options = true
all_known (id ∷ ids) options = has_option id options && all_known ids options

check_options : Bool → List String → List PromptOption → Option PromptAnswerErrorCode
check_options one ids options =
    if one && not (length ids == 1)
    then some unsupported_prompt_shape
    else if all_known ids options
    then none
    else some unknown_option

check_choice : Bool → Option (List String) → List PromptOption → Option PromptAnswerErrorCode
unfolding check_options
check_choice one none options = some incomplete_answer
check_choice one (some ids) options = check_options one ids options

check_response : InputMode → PromptResponse → List PromptOption → Option PromptAnswerErrorCode
unfolding check_choice
check_response Prompts.text r options = elim r.text [
  | none ↦ some incomplete_answer
  | some t ↦ none
]
check_response single r options = check_choice true r.option_ids options
check_response multi r options = check_choice false r.option_ids options

check_question : PromptQuestion → List PromptResponse → Option PromptAnswerErrorCode
unfolding check_response
check_question q responses = elim (response_to q.question_id responses) [
  | none ↦ some incomplete_answer
  | some r ↦ check_response q.input_mode r q.options
]

check_questions : List PromptQuestion → List PromptResponse → Option PromptAnswerErrorCode
unfolding check_question
check_questions [] responses = none
check_questions (q ∷ qs) responses = elim (check_question q responses) [
  | some code ↦ some code
  | none ↦ check_questions qs responses
]

all_asked : List PromptResponse → List PromptQuestion → Bool
all_asked [] questions = true
all_asked (r ∷ rs) questions = has_question r.question_id questions && all_asked rs questions

unfoldable pub validate_responses : Prompt → PromptAnswer → Option PromptAnswerErrorCode
unfolding check_questions all_asked
validate_responses prompt answer =
    if all_asked answer.responses prompt.questions
    then (if length answer.responses == length prompt.questions
        then check_questions prompt.questions answer.responses
        else some incomplete_answer)
    else some unknown_question
