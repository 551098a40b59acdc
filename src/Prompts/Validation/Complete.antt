-- ===== src/Prompts/Validation/Complete.antt =====
-- What an answer that passes the checks has.
use threadbase_streamer.Prelude.{
  ◌≡◌, ◌↔◌, refl, List, [], ◌∷◌, Option, none, some, true, false, String, arith, Option-cases, All,
  length, inl, inr,
}
use threadbase_streamer.Prompts.{
  Prompt, PromptQuestion, PromptOption, PromptResponse, PromptAnswer, InputMode, single, multi,
}
use threadbase_streamer.Prompts
use threadbase_streamer.Prompts.Validation.{
  has_question, has_option, response_to, all_known, check_options, check_choice, check_response,
  check_question, check_questions, all_asked, validate_responses,
}

-- A response fits its question: a text, one known option, or several.
abbrev pub Fits : InputMode → PromptResponse → List PromptOption → Type 0
Fits Prompts.text r options = (t : String) × (r.text ≡ some t)
Fits single r options =
    (id : String) × ((r.option_ids ≡ some (id ∷ [])) × (has_option id options ≡ true))
Fits multi r options =
    (ids : List String) × ((r.option_ids ≡ some ids) × All (λ id. has_option id options ≡ true) ids)

abbrev pub IsAnswered : List PromptResponse → PromptQuestion → Type 0
IsAnswered responses q =
    (r : PromptResponse) × ((response_to q.question_id responses ≡ some r)
      × Fits q.input_mode r q.options)

-- As many responses as questions, each to a question of the prompt, and one that fits for each.
pub record IsComplete (prompt : Prompt) (answer : PromptAnswer) : Type 0 where
  pub as_many : length answer.responses ≡ length prompt.questions
  pub asked : All (λ r. has_question r.question_id prompt.questions ≡ true) answer.responses
  pub fits : All (IsAnswered answer.responses) prompt.questions

known :
    (ids : List String) (options : List PromptOption)
    → all_known ids options ≡ true
    → All (λ id. has_option id options ≡ true) ids
known [] options h = tt
known (id ∷ ids) options h = ground (arith, known ids options)

check_choice_one :
    (o : Option (List String)) (options : List PromptOption)
    → check_choice true o options ≡ none
    → (id : String) × ((o ≡ some (id ∷ [])) × (has_option id options ≡ true))
unfolding check_choice check_options
check_choice_one none options h = absurd (ground arith)
check_choice_one (some []) options h = absurd (ground arith)
check_choice_one (some (id ∷ [])) options h = (id, (refl, ground arith))
check_choice_one (some (id ∷ j ∷ ids)) options h = absurd (ground arith)

check_choice_many :
    (o : Option (List String)) (options : List PromptOption)
    → check_choice false o options ≡ none
    → (ids : List String) × ((o ≡ some ids) × All (λ id. has_option id options ≡ true) ids)
unfolding check_choice check_options
check_choice_many none options h = absurd (ground arith)
check_choice_many (some ids) options h = (ids, (refl, known ids options (ground arith)))

check_response-Fits :
    (mode : InputMode) (r : PromptResponse) (options : List PromptOption)
    → check_response mode r options ≡ none
    → Fits mode r options
unfolding check_response
check_response-Fits Prompts.text r options h = elim (Option-cases r.text) [
  | inl e ↦ absurd (ground arith)
  | inr (t, e) ↦ (t, e)
]
check_response-Fits single r options h = check_choice_one r.option_ids options h
check_response-Fits multi r options h = check_choice_many r.option_ids options h

check_question-IsAnswered :
    (q : PromptQuestion) (responses : List PromptResponse)
    → check_question q responses ≡ none
    → IsAnswered responses q
unfolding check_question
check_question-IsAnswered q responses h =
    elim (Option-cases (response_to q.question_id responses)) [
      | inl e ↦ absurd (ground arith)
      | inr (r, e) ↦ (r, (e, check_response-Fits q.input_mode r q.options (ground arith)))
    ]

check_questions-All :
    (qs : List PromptQuestion) (responses : List PromptResponse)
    → check_questions qs responses ≡ none
    → All (IsAnswered responses) qs
unfolding check_questions
check_questions-All [] responses h = tt
check_questions-All (q ∷ qs) responses h = (
  check_question-IsAnswered q responses (ground arith),
  check_questions-All qs responses (ground arith),
)

all_asked-All :
    (rs : List PromptResponse) (qs : List PromptQuestion)
    → all_asked rs qs ≡ true
    → All (λ r. has_question r.question_id qs ≡ true) rs
unfolding all_asked
all_asked-All [] qs h = tt
all_asked-All (r ∷ rs) qs h = ground (arith, all_asked-All rs qs)

pub validate_responses-IsComplete :
    (prompt : Prompt) (answer : PromptAnswer)
    → validate_responses prompt answer ≡ none
    → IsComplete prompt answer
unfolding validate_responses
validate_responses-IsComplete prompt answer h = record {
  as_many = ground arith;
  asked = all_asked-All answer.responses prompt.questions (ground arith);
  fits = check_questions-All prompt.questions answer.responses (ground arith);
}

all_known-known :
    (ids : List String) (options : List PromptOption)
    → All (λ id. has_option id options ≡ true) ids
    → all_known ids options ≡ true
all_known-known [] options h = refl
all_known-known (id ∷ ids) options h = ground (arith, all_known-known ids options h.1)

check_response-fit :
    (mode : InputMode) (r : PromptResponse) (options : List PromptOption)
    → Fits mode r options
    → check_response mode r options ≡ none
unfolding check_response check_choice check_options
check_response-fit Prompts.text r options (t, e) = ground arith
check_response-fit single r options (id, (e, k)) = ground arith
check_response-fit multi r options (ids, (e, k)) = ground (arith, all_known-known ids options k)

check_questions-fit :
    (qs : List PromptQuestion) (responses : List PromptResponse)
    → All (IsAnswered responses) qs
    → check_questions qs responses ≡ none
unfolding check_questions check_question
check_questions-fit [] responses h = refl
check_questions-fit (q ∷ qs) responses ((r, (e, fit)), more) =
    ground (
      arith,
      check_response-fit q.input_mode r q.options fit,
      check_questions-fit qs responses more,
    )

all_asked-asked :
    (rs : List PromptResponse) (qs : List PromptQuestion)
    → All (λ r. has_question r.question_id qs ≡ true) rs
    → all_asked rs qs ≡ true
unfolding all_asked
all_asked-asked [] qs h = refl
all_asked-asked (r ∷ rs) qs h = ground (arith, all_asked-asked rs qs h.1)

-- The checks pass just on the complete answers: as many responses as questions, each to a question
-- of the prompt, and to each question one that fits it, a text, one known option or several.
pub validate_responses-Complete :
    (prompt : Prompt) (answer : PromptAnswer)
    → (validate_responses prompt answer ≡ none) ↔ IsComplete prompt answer
unfolding validate_responses
validate_responses-Complete prompt answer = (
  validate_responses-IsComplete prompt answer,
  λ c. ground (
    arith,
    c.as_many,
    all_asked-asked answer.responses prompt.questions c.asked,
    check_questions-fit prompt.questions answer.responses c.fits,
  ),
)
