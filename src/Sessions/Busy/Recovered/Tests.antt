-- ===== src/Sessions/Busy/Recovered/Tests.antt =====
-- A resume right after a restart, of a session that ended at 5 and whose file was written at 4000.
use threadbase_streamer.Prelude.{◌≡◌, refl, [], ◌∷◌, none, some, true, false, str_eq, arith}
use threadbase_streamer.Prelude.Dict.{get, put}
use threadbase_streamer.Sessions.Reconcile.{ManagedSessionRow}
use threadbase_streamer.Sessions.Rehydrate.{ShouldRehydrateOptions, rehydrate_skip_reason}
use threadbase_streamer.Sessions.Rehydrate.Boot.{Boot, rehydrate_row, rehydrate_rows}
use threadbase_streamer.Sessions.Busy.{
  ConversationBusyInput, resume_busy_window_ms, conversation_busy,
}
use threadbase_streamer.Sessions.Busy.Recovered.{recovered-Free}

abbrev ended_row : ManagedSessionRow
ended_row = record {
  session_id = "s1";
  provider = "claude-code";
  pid = none;
  cmdline = none;
  completed_at = some 5;
  bound_conversation_id = none;
  failure_reason = none;
  status_source = "shutdown";
  streamer_instance_id = "run1";
  boot_token = none;
  resumed_from_conversation_id = none;
  project_path = "/work";
  project_name = "work";
  prompt_count = 2;
  status = "running";
  status_updated_at = 5;
  started_at = 3;
  last_activity_at = some 4;
  content = "";
}

abbrev at_boot : ShouldRehydrateOptions
at_boot = record { now = 9; project_exists = λ path. str_eq path "/work"; has_conversation = none }

abbrev unseeded : Boot
unseeded = record {
  store = record { managed = []; discovered = [] };
  session_verdicts = [];
  self_pty_ended_at = [];
  deleted = [];
}

abbrev resume : ConversationBusyInput
resume = record {
  conversation_id = "s1";
  project_path = some "/work";
  file_mtime = some 4000;
  discovered =
      record {
        pid = 7;
        conversation_id = some "s2";
        project_path = "/other";
        project_name = "other";
        started_at = 1;
        content = "";
      }
      ∷ [];
  now = 6000;
  window_ms = resume_busy_window_ms;
  is_win32 = false;
  self_pty_ended_at = some 5;
}

recovered-Free_example : (conversation_busy (λ path. path) resume).busy ≡ false
unfolding rehydrate_skip_reason rehydrate_row rehydrate_rows get put
recovered-Free_example =
    recovered-Free (λ path. path) at_boot [] ended_row [] unseeded resume 5 4000 refl refl refl refl
      refl (omega arith) refl refl

-- Without the mark the file's own recency makes the session busy.
unmarked :
    (conversation_busy (λ path. path) (record resume { self_pty_ended_at = none })).busy ≡ true
unfolding conversation_busy
unmarked = refl
