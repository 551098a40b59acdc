-- ===== src/Prompts.antt =====
-- src/services/prompts/promptRegistry.ts: the prompts of sessions, their answers and their ends.
-- This file has the data. The fields that the registry copies and never reads stand in `content`.
pub mod Validation
pub mod Registry
pub mod History
use threadbase_streamer.Prelude.{
  ℕ, ◌+◌, List, [], ◌∷◌, Option, none, some, Bool, true, false, ◌&&◌, ◌==◌, String, length,
}
use threadbase_streamer.Prelude.Dict.{Dict}

abbrev pub prompt_terminal_retention_ms : ℕ
prompt_terminal_retention_ms = 600000

abbrev pub prompt_max_records_per_session : ℕ
prompt_max_records_per_session = 200

abbrev pub max_timeout_ms : ℕ
max_timeout_ms = 2147483647

pub data PromptState : Type 0 where
  open_prompt updated resolved cancelled expired unavailable : PromptState

pub data InputMode : Type 0 where
  single multi text : InputMode

pub record PromptOption : Type 0 where
  pub option_id : String
  pub content : String

pub record PromptQuestion : Type 0 where
  pub question_id : String
  pub input_mode : InputMode
  pub options : List PromptOption
  pub content : String

pub record Prompt : Type 0 where
  pub session_id : String
  pub prompt_id : String
  pub revision : ℕ
  pub state : PromptState
  pub terminal_reason : Option String
  pub expires_at : Option ℕ
  pub questions : List PromptQuestion
  pub content : String

-- A draft has no ids: its options are their contents.
pub record PromptQuestionDraft : Type 0 where
  pub input_mode : InputMode
  pub options : List String
  pub content : String

pub record PromptDraft : Type 0 where
  pub session_id : String
  pub expires_at : Option ℕ
  pub questions : List PromptQuestionDraft
  pub content : String

pub record PromptResponse : Type 0 where
  pub question_id : String
  pub option_ids : Option (List String)
  pub text : Option String

pub record PromptAnswer : Type 0 where
  pub prompt_id : String
  pub revision : ℕ
  pub idempotency_key : String
  pub responses : List PromptResponse

pub data PromptAnswerErrorCode : Type 0 where
  prompt_not_found prompt_revision_mismatch already_resolved prompt_expired prompt_cancelled
        prompt_unavailable unknown_question unknown_option incomplete_answer
        unsupported_prompt_shape provider_error :
      PromptAnswerErrorCode

pub data PromptAnswerOutcome : Type 0 where
  answered : Prompt → PromptAnswerOutcome
  refused : PromptAnswerErrorCode → (current_revision : Option ℕ) → PromptAnswerOutcome

-- What the adapter's promise gives; `adapter_threw` where it rejects.
pub data PromptAdapterResult : Type 0 where
  wrote adapter_threw : PromptAdapterResult
  failed : PromptAnswerErrorCode → (terminal : Option (PromptState × String)) → PromptAdapterResult

pub record PromptEvent : Type 0 where
  pub session_id : String
  pub sequence : ℕ
  pub prompt : Prompt

pub record RecordedOutcome : Type 0 where
  pub at : ℕ
  pub outcome : PromptAnswerOutcome

-- `queue` has the answers whose turn has not come, `running` the one whose adapter call is pending,
-- and `in_flight` the keys of both. The timer is the time at which it fires.
pub record PromptEntry : Type 0 where
  pub prompt : Prompt
  pub has_adapter : Bool
  pub terminal_at : Option ℕ
  pub expiry_timer : Option ℕ
  pub queue : List PromptAnswer
  pub running : Option PromptAnswer
  pub in_flight : List String
  pub outcomes : Dict RecordedOutcome
  pub answering : Bool
  pub deferred_close : Option String

abbrev pub is_live : PromptState → Bool
is_live open_prompt = true
is_live updated = true
is_live _ = false

-- A state that is not terminal has no error of its own.
abbrev pub terminal_error : PromptState → PromptAnswerErrorCode
terminal_error resolved = already_resolved
terminal_error expired = prompt_expired
terminal_error cancelled = prompt_cancelled
terminal_error _ = prompt_unavailable
