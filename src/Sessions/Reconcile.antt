-- ===== src/Sessions/Reconcile.antt =====
-- src/services/sessions/reconcileSessions.ts and resumeIdentity.ts: what became of the sessions
-- that an earlier run recorded. The probe of processes is a parameter.
pub mod Identity
pub mod Tests
use text.Mathlib.Text.{find?}
use threadbase_streamer.Prelude.{
  ℕ, List, Option, none, some, Bool, true, false, not, ◌&&◌, ◌||◌, String, str_eq, map, ◌<>◌,
  if◌then◌else◌,
}

pub data SessionLifecycle : Type 0 where
  attached starting detached orphaned resumable completed failed : SessionLifecycle

-- A row of the registry. The fields that are only copied stand in `content`.
pub record ManagedSessionRow : Type 0 where
  pub session_id : String
  pub provider : String
  pub pid : Option ℕ
  pub cmdline : Option String
  pub completed_at : Option ℕ
  pub bound_conversation_id : Option String
  pub failure_reason : Option String
  pub status_source : String
  pub streamer_instance_id : String
  pub boot_token : Option String
  pub resumed_from_conversation_id : Option String
  pub project_path : String
  pub project_name : String
  pub prompt_count : ℕ
  pub status : String
  pub status_updated_at : ℕ
  pub started_at : ℕ
  pub last_activity_at : Option ℕ
  pub content : String

pub record ReconcileVerdict : Type 0 where
  pub session_id : String
  pub lifecycle : SessionLifecycle
  pub reason : String

-- What the host tells of processes. The command line may be absent or empty.
pub record ReconcileProbe : Type 0 where
  pub is_pid_alive : ℕ → Bool
  pub get_process_args : ℕ → Option String
  pub ended_cleanly : Option (ManagedSessionRow → Bool)

abbrev pub codex_cli_provider : String
codex_cli_provider = "codex-cli"

abbrev pub pre_boot_reason : String
pre_boot_reason = "recorded before this machine boot"

unfoldable pub resume_id_for_row : ManagedSessionRow → Option String
resume_id_for_row row =
    if str_eq row.provider codex_cli_provider
    then row.bound_conversation_id
    else some row.session_id

abbrev pub is_some {ℓ} : {A : Type ℓ} → Option A → Bool
is_some none = false
is_some (some a) = true

-- `if (!text)` for a text that may be absent.
abbrev is_empty : Option String → Bool
is_empty none = true
is_empty (some t) = str_eq t ""

verdict : ManagedSessionRow → SessionLifecycle → String → ReconcileVerdict
verdict row l reason = record { session_id = row.session_id; lifecycle = l; reason = reason }

resumable_or_failed : ManagedSessionRow → String → ReconcileVerdict
unfolding verdict resume_id_for_row
resumable_or_failed row reason = elim (resume_id_for_row row) [
  | none ↦ verdict row failed "Codex session ended before its rollout id was known"
  | some id ↦ verdict row resumable reason
]

abbrev pub asked_cleanly : ReconcileProbe → ManagedSessionRow → Bool → Bool
asked_cleanly probe row unanswered = elim probe.ended_cleanly [
  | none ↦ unanswered
  | some ask ↦ ask row
]

terminal : ManagedSessionRow → ReconcileProbe → ReconcileVerdict
unfolding verdict
terminal row probe =
    verdict row
      (if asked_cleanly probe row (not (is_some row.failure_reason)) then completed else failed)
      ("terminal (" <> row.status_source <> ")")

gone : ManagedSessionRow → ReconcileProbe → ReconcileVerdict
unfolding verdict resumable_or_failed
gone row probe =
    if asked_cleanly probe row false
    then verdict row completed "process gone, history ended cleanly"
    else if is_some row.failure_reason
    then verdict row failed "process gone, failure recorded"
    else resumable_or_failed row "process gone, resumable from provider history"

-- `token && args?.includes(token)`.
abbrev pub matches : Option String → Option String → Bool
matches none args = false
matches (some token) none = false
matches (some token) (some args) = not (str_eq token "") && is_some (find? args token)

alive : ManagedSessionRow → ReconcileProbe → String → Option String → ReconcileVerdict
unfolding verdict
alive row probe instance_id args =
    if matches row.cmdline args
    then (if str_eq row.streamer_instance_id instance_id
        then verdict row attached "owned by this run"
        else verdict row detached "survived a previous streamer run")
    else verdict row orphaned (
        if is_empty args
        then "pid alive but argv unreadable"
        else "pid alive but command line does not match")

-- `currentBootToken != null && row.boot_token !== currentBootToken`.
abbrev pub other_boot : Option String → Option String → Bool
other_boot none recorded = false
other_boot (some current) none = true
other_boot (some current) (some recorded) = not (str_eq recorded current)

unfoldable pub classify_session :
    ManagedSessionRow → ReconcileProbe → String → Option String → ReconcileVerdict
unfolding terminal gone alive resumable_or_failed
classify_session row probe instance_id boot_token =
    if is_some row.completed_at then terminal row probe else (elim row.pid [
      | none ↦ resumable_or_failed row "no pid recorded"
      | some pid ↦
          if other_boot boot_token row.boot_token
          then resumable_or_failed row pre_boot_reason
          else if probe.is_pid_alive pid
          then alive row probe instance_id (probe.get_process_args pid)
          else gone row probe
    ])

-- The verdicts come in the order of the rows.
pub reconcile_sessions :
    List ManagedSessionRow → ReconcileProbe → String → Option String → List ReconcileVerdict
reconcile_sessions rows probe instance_id boot_token =
    map (λ row. classify_session row probe instance_id boot_token) rows
