-- ===== src/Sessions/Store/Listing.antt =====
-- The responses that the store builds: `list` and `get`, with `managedToResponse` and
-- `discoveredToResponse`. A date's text is a function of its milliseconds.
pub mod Distinct
use threadbase_streamer.Prelude.{
  ℕ, ◌+◌, ◌-◌, List, [], ◌∷◌, ◌++◌, Option, none, some, Bool, true, false, not, ◌&&◌, ◌||◌, String,
  str_eq, leb, if◌then◌else◌,
}
use threadbase_streamer.Prelude.Int.{ℤ, pos, negsuc}
use threadbase_streamer.Prelude.Dict.{Dict, get}
use threadbase_streamer.Sessions.Reconcile.{
  SessionLifecycle, attached, starting, detached, resumable, completed, failed,
}
use threadbase_streamer.Sessions.Store.{
  ManagedSession, DiscoveredProcess, SessionStore, SessionStatus, running, waiting_input, idle,
  StatusSource, timeout_fallback, quiet_fallback, CurrentTurn, not_multi_agent, is, is_shutdown,
  is_processless, owns_conversation, has_discovered,
}

pub data StatusConfidence : Type 0 where
  observed inferred : StatusConfidence

pub data LifecycleSource : Type 0 where
  spawn exit probe reconcile : LifecycleSource

pub data Ownership : Type 0 where
  managed_session historical external : Ownership

pub record SessionResponse : Type 0 where
  pub id : String
  pub status : SessionStatus
  pub lifecycle : SessionLifecycle
  pub lifecycle_source : LifecycleSource
  pub ownership : Ownership
  pub project_name : String
  pub elapsed_ms : ℤ
  pub started_at : ℕ
  pub completed_at : Option ℕ
  pub last_activity_at : Option ℕ
  pub sub_status : Option String
  pub prompt_suggestion : Option String
  pub has_open_prompt : Bool
  pub pty_attached : Bool
  pub status_source : Option StatusSource
  pub status_confidence : Option StatusConfidence
  pub status_updated_at : Option ℕ
  pub interrupted_status : Option SessionStatus
  pub failure_reason : Option String
  pub resumed_from_conversation_id : Option String
  pub bound_conversation_id : Option String
  pub pid : Option ℕ
  pub content : String

-- `confidenceForSource`.
abbrev pub confidence_for_source : StatusSource → StatusConfidence
confidence_for_source timeout_fallback = inferred
confidence_for_source quiet_fallback = inferred
confidence_for_source _ = observed

abbrev confidence : Option StatusSource → Option StatusConfidence
confidence none = none
confidence (some s) = some (confidence_for_source s)

abbrev is_single : CurrentTurn → Bool
is_single not_multi_agent = true
is_single _ = false

abbrev is_live_status : SessionStatus → Bool
is_live_status idle = false
is_live_status _ = true

-- `isLiveMultiAgent`.
abbrev pub is_live_multi_agent : ManagedSession → Bool
is_live_multi_agent s = not (is_single s.current_turn_id) && is_live_status s.status

abbrev pub has_none {ℓ} : {A : Type ℓ} → Option A → Bool
has_none none = true
has_none (some a) = false

abbrev pub lifecycle_of : ManagedSession → Bool → SessionLifecycle
lifecycle_of s pty =
    if pty || is_live_multi_agent s
    then attached
    else if is_processless s
    then resumable
    else if has_none s.failure_reason
    then if is_single s.current_turn_id && has_none s.completed_at then starting else completed
    else failed

abbrev pub lifecycle_source_of : ManagedSession → Bool → LifecycleSource
lifecycle_source_of s pty =
    if pty || is_live_multi_agent s
    then if s.reconciled then reconcile else spawn
    else if s.rehydrated
    then reconcile
    else if is_single s.current_turn_id && has_none s.completed_at
    then spawn
    else exit

abbrev or_else {ℓ} : {A : Type ℓ} → Option A → A → A
or_else none d = d
or_else (some a) d = a

abbrev minus : ℕ → ℕ → ℤ
minus a b = if leb b a then pos (a - b) else negsuc (b - a - 1)

abbrev pub elapsed : ManagedSession → ℕ → ℤ
elapsed s now =
    minus
      (or_else s.completed_at
        (if s.rehydrated then or_else s.last_activity_at s.started_at else now))
      s.started_at

unfoldable pub managed_to_response : ManagedSession → Bool → Bool → ℕ → SessionResponse
managed_to_response s pty prompt now = record {
  id = s.id;
  status = s.status;
  lifecycle = lifecycle_of s pty;
  lifecycle_source = lifecycle_source_of s pty;
  ownership = if s.rehydrated then historical else managed_session;
  project_name = s.project_name;
  elapsed_ms = elapsed s now;
  started_at = s.started_at;
  completed_at = s.completed_at;
  last_activity_at = s.last_activity_at;
  sub_status = s.sub_status;
  prompt_suggestion = s.prompt_suggestion;
  has_open_prompt = prompt;
  pty_attached = pty;
  status_source = s.status_source;
  status_confidence = confidence s.status_source;
  status_updated_at = s.status_updated_at;
  interrupted_status = s.interrupted_status;
  failure_reason = s.failure_reason;
  resumed_from_conversation_id = s.resumed_from_conversation_id;
  bound_conversation_id = s.bound_conversation_id;
  pid = none;
  content = s.content;
}

unfoldable pub discovered_to_response : DiscoveredProcess → String → ℕ → SessionResponse
discovered_to_response d conversation now = record {
  id = conversation;
  status = idle;
  lifecycle = detached;
  lifecycle_source = probe;
  ownership = external;
  project_name = d.project_name;
  elapsed_ms = minus now d.started_at;
  started_at = d.started_at;
  completed_at = none;
  last_activity_at = none;
  sub_status = none;
  prompt_suggestion = none;
  has_open_prompt = false;
  pty_attached = false;
  status_source = none;
  status_confidence = none;
  status_updated_at = none;
  interrupted_status = none;
  failure_reason = none;
  resumed_from_conversation_id = none;
  bound_conversation_id = none;
  pid = some d.pid;
  content = d.content;
}

-- What the store asks of others: which sessions are shown, which have an open prompt, and which
-- terminals are attached.
pub record View : Type 0 where
  pub visibility : String → Option ManagedSession → Bool
  pub has_open : String → Bool
  pub attached_to : String → Bool

abbrev pub respond : View → ℕ → ManagedSession → SessionResponse
respond view now s = managed_to_response s (view.attached_to s.id) (view.has_open s.id) now

-- The outside process takes the place of a stub's row.
abbrev pub is_listed : View → SessionStore → ManagedSession → Bool
is_listed view store s =
    let key = or_else s.bound_conversation_id s.id in
    view.visibility key (some s) && not (is_processless s && has_discovered store key)

list_managed : View → SessionStore → ℕ → Dict ManagedSession → List SessionResponse
unfolding managed_to_response
list_managed view store now [] = []
list_managed view store now ((key, s) ∷ rest) =
    if is_listed view store s
    then respond view now s ∷ list_managed view store now rest
    else list_managed view store now rest

abbrev pub has_id : String → List SessionResponse → Bool
has_id id [] = false
has_id id (x ∷ xs) = str_eq x.id id || has_id id xs

-- `seen` is what the list has so far: its ids are `seenIds`. An empty conversation id is none.
abbrev pub is_new : View → SessionStore → List SessionResponse → String → Bool
is_new view store seen id =
    not (str_eq id "")
    && view.visibility id none
    && not (has_id id seen)
    && not (owns_conversation store id)

list_discovered :
    View → SessionStore → ℕ → List DiscoveredProcess → List SessionResponse → List SessionResponse
unfolding discovered_to_response
list_discovered view store now [] seen = seen
list_discovered view store now (d ∷ ds) seen = elim d.conversation_id [
  | none ↦ list_discovered view store now ds seen
  | some id ↦
      if is_new view store seen id
      then list_discovered view store now ds (seen ++ discovered_to_response d id now ∷ [])
      else list_discovered view store now ds seen
]

-- `list`.
unfoldable pub list_sessions : View → SessionStore → ℕ → List SessionResponse
unfolding list_managed list_discovered
list_sessions view store now =
    list_discovered view store now store.discovered (list_managed view store now store.managed)

first_response : String → ℕ → List DiscoveredProcess → Option SessionResponse
unfolding discovered_to_response
first_response id now [] = none
first_response id now (d ∷ ds) =
    if is id d.conversation_id
    then some (discovered_to_response d id now)
    else first_response id now ds

abbrev get_discovered : SessionStore → String → ℕ → Option SessionResponse
get_discovered store id now =
    if owns_conversation store id then none else first_response id now store.discovered

-- `get`.
unfoldable pub get_session : View → SessionStore → String → ℕ → Option SessionResponse
unfolding managed_to_response first_response
get_session view store id now = elim (get store.managed id) [
  | none ↦ get_discovered store id now
  | some s ↦
      if is_processless s && has_discovered store id
      then get_discovered store id now
      else some (respond view now s)
]
