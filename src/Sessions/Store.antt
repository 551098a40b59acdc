-- ===== src/Sessions/Store.antt =====
-- src/session-store.ts: the sessions that this run manages and the agent processes that it found.
pub mod Tests
pub mod History
pub mod Listing
pub mod Paging
use threadbase_streamer.Prelude.{
  ℕ, List, [], ◌∷◌, Option, none, some, Bool, true, false, not, ◌&&◌, ◌||◌, ◌==◌, String, str_eq,
  keep_if, if◌then◌else◌,
}
use threadbase_streamer.Prelude.Dict.{Dict, get, put, remove}
use threadbase_streamer.Sessions.Dedupe.{ProgressDedupeLru, create_progress_dedupe_lru}

pub data SessionStatus : Type 0 where
  running waiting_input idle : SessionStatus

pub data StatusSource : Type 0 where
  spawn_source prompt_marker screen_marker turn_signal user_input process_exit timeout_fallback
        quiet_fallback shutdown :
      StatusSource

-- What an optional field of a turn has: it is undefined outside of the multi-agent mode.
pub data CurrentTurn : Type 0 where
  not_multi_agent no_turn : CurrentTurn
  turn : String → CurrentTurn

-- Times are milliseconds. The fields that the store copies and never reads stand in `content`.
pub record ManagedSession : Type 0 where
  pub id : String
  pub status : SessionStatus
  pub started_at : ℕ
  pub completed_at : Option ℕ
  pub last_activity_at : Option ℕ
  pub status_source : Option StatusSource
  pub sub_status : Option String
  pub prompt_suggestion : Option String
  pub rehydrated : Bool
  pub reconciled : Bool
  pub bound_conversation_id : Option String
  pub resumed_from_conversation_id : Option String
  pub current_turn_id : CurrentTurn
  pub failure_reason : Option String
  pub project_name : String
  pub progress_dedupe_ids : Option ProgressDedupeLru
  pub status_updated_at : Option ℕ
  pub interrupted_status : Option SessionStatus
  pub content : String

pub record DiscoveredProcess : Type 0 where
  pub pid : ℕ
  pub conversation_id : Option String
  pub project_path : String
  pub project_name : String
  pub started_at : ℕ
  pub content : String

-- `managed` is keyed by session id, `discovered` by pid.
pub record SessionStore : Type 0 where
  pub managed : Dict ManagedSession
  pub discovered : List DiscoveredProcess

-- The fields of a `Partial<ManagedSession>`, the id among them.
pub data Update : Type 0 where
  new_status : SessionStatus → Update
  new_completed_at new_last_activity_at : Option ℕ → Update
  new_status_source : Option StatusSource → Update
  new_sub_status new_prompt_suggestion new_bound_conversation_id new_resumed_from_conversation_id
        new_failure_reason :
      Option String → Update
  new_rehydrated new_reconciled : Bool → Update
  new_current_turn_id : CurrentTurn → Update
  new_id new_project_name new_content : String → Update
  new_started_at : ℕ → Update
  new_status_updated_at : Option ℕ → Update
  new_interrupted_status : Option SessionStatus → Update
  new_progress_dedupe_ids : Option ProgressDedupeLru → Update

unfoldable pub add_managed : ManagedSession → SessionStore → SessionStore
add_managed s store = record store { managed = put store.managed s.id s }

-- A capacity that the memory refuses throws, as none.
with_lru : SessionStore → String → ManagedSession → Option ProgressDedupeLru → Option SessionStore
with_lru store id s none = none
with_lru store id s (some lru) =
    some (record store {
      managed = put store.managed id (record s { progress_dedupe_ids = some lru });
    })

unfoldable pub init_agent_session : String → ℕ → SessionStore → Option SessionStore
unfolding with_lru
init_agent_session id capacity store = elim (get store.managed id) [
  | none ↦ some store
  | some s ↦ elim s.progress_dedupe_ids [
    | some lru ↦ some store
    | none ↦ with_lru store id s (create_progress_dedupe_lru capacity)
  ]
]

assign_one : Update → ManagedSession → ManagedSession
assign_one (new_status v) s = record s { status = v }
assign_one (new_completed_at v) s = record s { completed_at = v }
assign_one (new_last_activity_at v) s = record s { last_activity_at = v }
assign_one (new_status_source v) s = record s { status_source = v }
assign_one (new_sub_status v) s = record s { sub_status = v }
assign_one (new_prompt_suggestion v) s = record s { prompt_suggestion = v }
assign_one (new_bound_conversation_id v) s = record s { bound_conversation_id = v }
assign_one (new_resumed_from_conversation_id v) s = record s { resumed_from_conversation_id = v }
assign_one (new_failure_reason v) s = record s { failure_reason = v }
assign_one (new_rehydrated v) s = record s { rehydrated = v }
assign_one (new_reconciled v) s = record s { reconciled = v }
assign_one (new_current_turn_id v) s = record s { current_turn_id = v }
assign_one (new_id v) s = record s { id = v }
assign_one (new_project_name v) s = record s { project_name = v }
assign_one (new_content v) s = record s { content = v }
assign_one (new_started_at v) s = record s { started_at = v }
assign_one (new_status_updated_at v) s = record s { status_updated_at = v }
assign_one (new_interrupted_status v) s = record s { interrupted_status = v }
assign_one (new_progress_dedupe_ids v) s = record s { progress_dedupe_ids = v }

assign : List Update → ManagedSession → ManagedSession
unfolding assign_one
assign [] s = s
assign (u ∷ us) s = assign us (assign_one u s)

-- `updates.status`.
status_in : List Update → Option SessionStatus
status_in [] = none
status_in (new_status v ∷ us) = elim (status_in us) [ none ↦ some v | some later ↦ some later ]
status_in (u ∷ us) = status_in us

-- A phase lives while a turn runs, a suggestion while the session waits for input.
settle_status : Option SessionStatus → ManagedSession → ManagedSession
settle_status none s = s
settle_status (some running) s = record s { prompt_suggestion = none }
settle_status (some waiting_input) s = record s { sub_status = none }
settle_status (some idle) s = record s { sub_status = none; prompt_suggestion = none }

abbrev updated_by : List Update → ManagedSession → ManagedSession
updated_by us s = settle_status (status_in us) (assign us s)

unfoldable pub update_managed :
    String → List Update → SessionStore → SessionStore × Option ManagedSession
unfolding assign status_in settle_status
update_managed id us store = elim (get store.managed id) [
  | none ↦ (store, none)
  | some s ↦
      (record store { managed = put store.managed id (updated_by us s) }, some (updated_by us s))
]

-- Whether there was one.
unfoldable pub remove_managed : String → SessionStore → SessionStore × Bool
remove_managed id store = (
  record store { managed = remove store.managed id },
  elim (get store.managed id) [ none ↦ false | some s ↦ true ],
)

pub get_managed : SessionStore → String → Option ManagedSession
get_managed store id = get store.managed id

-- A later process with the same pid takes the place of the earlier.
put_process : List DiscoveredProcess → DiscoveredProcess → List DiscoveredProcess
put_process [] d = d ∷ []
put_process (x ∷ xs) d = if x.pid == d.pid then d ∷ xs else x ∷ put_process xs d

put_processes : List DiscoveredProcess → List DiscoveredProcess → List DiscoveredProcess
unfolding put_process
put_processes found [] = found
put_processes found (d ∷ ds) = put_processes (put_process found d) ds

unfoldable pub set_discovered : List DiscoveredProcess → SessionStore → SessionStore
unfolding put_processes
set_discovered processes store = record store { discovered = put_processes [] processes }

unfoldable pub drop_discovered : ℕ → SessionStore → SessionStore
drop_discovered pid store = record store {
  discovered = keep_if (λ d. not (d.pid == pid)) store.discovered;
}

abbrev pub is : String → Option String → Bool
is id none = false
is id (some other) = str_eq other id

abbrev pub is_shutdown : Option StatusSource → Bool
is_shutdown (some shutdown) = true
is_shutdown _ = false

-- `isProcessless`.
abbrev pub is_processless : ManagedSession → Bool
is_processless s = s.rehydrated || is_shutdown s.status_source

abbrev pub owns : String → ManagedSession → Bool
owns id s =
    not (is_processless s)
    && (str_eq s.id id || is id s.bound_conversation_id || is id s.resumed_from_conversation_id)

any_owns : String → Dict ManagedSession → Bool
any_owns id [] = false
any_owns id ((key, s) ∷ rest) = owns id s || any_owns id rest

-- `ownsConversation`.
unfoldable pub owns_conversation : SessionStore → String → Bool
unfolding any_owns
owns_conversation store id = any_owns id store.managed

-- `hasDiscovered`.
runs : String → List DiscoveredProcess → Bool
runs id [] = false
runs id (d ∷ ds) = is id d.conversation_id || runs id ds

unfoldable pub has_discovered : SessionStore → String → Bool
unfolding runs
has_discovered store id = runs id store.discovered

abbrev pub is_external : SessionStore → DiscoveredProcess → Bool
is_external store d = elim d.conversation_id [
  | none ↦ true
  | some id ↦ not (owns_conversation store id)
]

unfoldable pub external_processes : SessionStore → List DiscoveredProcess
external_processes store = keep_if (is_external store) store.discovered

abbrev first_running : String → List DiscoveredProcess → Option DiscoveredProcess
first_running id [] = none
first_running id (d ∷ ds) = if is id d.conversation_id then some d else first_running id ds

unfoldable pub external_for : SessionStore → String → Option DiscoveredProcess
external_for store id = first_running id (external_processes store)
