-- ===== src/Sessions/Busy.antt =====
-- src/services/sessions/conversationBusy.ts: whether another process seems to own a conversation that
-- is about to be resumed. The clock and the file's time are arguments, and so is the canonical form
-- of a path.
pub mod Recovered
use threadbase_streamer.Prelude.{
  ℕ, ◌+◌, ◌-◌, List, [], ◌∷◌, ◌++◌, Option, none, some, Bool, true, false, not, ◌&&◌, ◌||◌, leb,
  String, str_eq, if◌then◌else◌,
}
use threadbase_streamer.Sessions.Store.{DiscoveredProcess, is}

abbrev pub resume_busy_window_ms : ℕ
resume_busy_window_ms = 120_000

abbrev pub self_activity_skew_ms : ℕ
self_activity_skew_ms = 5_000

pub data BusySignal : Type 0 where
  jsonl_mtime process_argv process_cwd file_handle : BusySignal

-- `file_mtime` is what `statSync` tells of `jsonlPath`, or none without a path or a readable file.
pub record ConversationBusyInput : Type 0 where
  pub conversation_id : String
  pub project_path : Option String
  pub file_mtime : Option ℕ
  pub discovered : List DiscoveredProcess
  pub now : ℕ
  pub window_ms : ℕ
  pub is_win32 : Bool
  pub self_pty_ended_at : Option ℕ

pub data LikelyOwner : Type 0 where
  external unknown : LikelyOwner

pub record ConversationBusyResult : Type 0 where
  pub busy : Bool
  pub detected_by : List BusySignal
  pub last_activity_ms : Option ℕ
  pub likely_owner : LikelyOwner

-- Whether the file was last written by our own terminal, which had ended by then or a moment before.
abbrev pub is_self_echo : Option ℕ → ℕ → Bool
is_self_echo none mtime = false
is_self_echo (some ended) mtime = leb mtime (ended + self_activity_skew_ms)

abbrev pub is_active : ConversationBusyInput → Option ℕ → Bool
is_active input none = false
is_active input (some mtime) =
    leb input.now (mtime + input.window_ms) && not (is_self_echo input.self_pty_ended_at mtime)

abbrev age : ℕ → Option ℕ → Option ℕ
age now none = none
age now (some mtime) = some (now - mtime)

abbrev pub runs_conversation : String → List DiscoveredProcess → Bool
runs_conversation id [] = false
runs_conversation id (d ∷ ds) = is id d.conversation_id || runs_conversation id ds

abbrev when : Bool → BusySignal → List BusySignal
when true signal = signal ∷ []
when false signal = []

abbrev is_some_signal : List BusySignal → Bool
is_some_signal [] = false
is_some_signal (x ∷ xs) = true

module _ (canonicalize_project_path : String → String) where
  abbrev pub runs_in : String → List DiscoveredProcess → Bool
  runs_in target [] = false
  runs_in target (d ∷ ds) =
      (not (str_eq d.project_path "") && str_eq (canonicalize_project_path d.project_path) target)
      || runs_in target ds

  -- A process of the same directory, on a platform that tells the directory.
  abbrev pub is_shared : ConversationBusyInput → Option String → Bool
  is_shared input none = false
  is_shared input (some path) =
      not input.is_win32
      && not (str_eq path "")
      && runs_in (canonicalize_project_path path) input.discovered

  -- `conversationBusy`.
  unfoldable pub conversation_busy : ConversationBusyInput → ConversationBusyResult
  conversation_busy input =
      let by_file = is_active input input.file_mtime in
      let by_argv = runs_conversation input.conversation_id input.discovered in
      let by_cwd = is_shared input input.project_path in
      let detected =
        when by_file jsonl_mtime ++ when by_argv process_argv ++ when by_cwd process_cwd in
      record {
        busy = is_some_signal detected;
        detected_by = detected;
        last_activity_ms = age input.now input.file_mtime;
        likely_owner = if by_argv || by_cwd then external else unknown;
      }
