-- ===== src/Sessions/Rehydrate.antt =====
-- src/services/sessions/rehydrateSessions.ts: which rows of the registry come back after a
-- restart, and as what. The disk and the conversation cache are parameters.
pub mod Boot
pub mod Tests
use threadbase_streamer.Prelude.{
  ℕ, ◌-◌, Option, none, some, Bool, true, false, not, ◌&&◌, ◌||◌, ◌==◌, ltb, String, str_eq,
  if◌then◌else◌,
}
use threadbase_streamer.Sessions.Reconcile.{ManagedSessionRow, resume_id_for_row, is_some}
use threadbase_streamer.Sessions.Store.{
  ManagedSession, SessionStatus, running, waiting_input, idle, StatusSource, shutdown, CurrentTurn,
  not_multi_agent,
}

-- 7 days.
abbrev pub rehydrate_window_ms : ℕ
rehydrate_window_ms = 604_800_000

abbrev pub copilot_provider : String
copilot_provider = "copilot"

-- `AGENT_EXIT_SOURCES`.
abbrev pub is_agent_exit : String → Bool
is_agent_exit source = str_eq source "exit" || str_eq source "process-exit"

pub record ShouldRehydrateOptions : Type 0 where
  pub now : ℕ
  pub project_exists : String → Bool
  pub has_conversation : Option (String → Bool)

pub data RehydrateSkipReason : Type 0 where
  never_prompted codex_unbound project_missing too_old agent_exited : RehydrateSkipReason

abbrev known : (String → Bool) → Option String → Bool
known has none = false
known has (some id) = has id

-- No conversation is cached under any of the ids; without a cache nothing is proved.
abbrev pub is_unheard : Option (String → Bool) → ManagedSessionRow → Bool
is_unheard none row = false
is_unheard (some has) row = not (
    has row.session_id
    || known has row.bound_conversation_id
    || known has row.resumed_from_conversation_id)

-- `rehydrateSkipReason`: none means that the row comes back. A clock that is behind the row gives
-- an age of 0 here and a negative one there, and neither is beyond the window.
unfoldable pub rehydrate_skip_reason :
    ManagedSessionRow → ShouldRehydrateOptions → Option RehydrateSkipReason
unfolding resume_id_for_row
rehydrate_skip_reason row opts =
    if not (str_eq row.provider copilot_provider)
      && row.prompt_count == 0
      && is_unheard opts.has_conversation row
    then some never_prompted
    else if not (is_some (resume_id_for_row row))
    then some codex_unbound
    else if not (opts.project_exists row.project_path)
    then some project_missing
    else if ltb rehydrate_window_ms (opts.now - row.status_updated_at)
    then some too_old
    else if is_agent_exit row.status_source && not (is_some row.failure_reason)
    then some agent_exited
    else none

-- A status that the stop cut short.
abbrev pub interrupted : String → Option SessionStatus
interrupted status =
    if str_eq status "running"
    then some running
    else if str_eq status "waiting_input"
    then some waiting_input
    else none

abbrev when {ℓ} : {A : Type ℓ} → Bool → Option A → Option A
when b o = if b then o else none

-- `rowToStubSession`.
unfoldable pub row_to_stub_session : ManagedSessionRow → ManagedSession
row_to_stub_session row =
    let stopped = str_eq row.status_source "shutdown" in
    record {
      id = row.session_id;
      status = idle;
      started_at = row.started_at;
      completed_at = row.completed_at;
      last_activity_at = row.last_activity_at;
      status_source = when stopped (some shutdown);
      sub_status = none;
      prompt_suggestion = none;
      rehydrated = true;
      reconciled = false;
      bound_conversation_id = row.bound_conversation_id;
      resumed_from_conversation_id = row.resumed_from_conversation_id;
      current_turn_id = not_multi_agent;
      failure_reason = row.failure_reason;
      project_name = row.project_name;
      progress_dedupe_ids = none;
      status_updated_at = when stopped (some row.status_updated_at);
      interrupted_status = when stopped (interrupted row.status);
      content = row.content;
    }
