-- ===== src/Sessions/Rehydrate/Tests.antt =====
-- A row that a stop cut short, brought back at boot.
use threadbase_streamer.Prelude.{[], none, some, str_eq}
use threadbase_streamer.Sessions.Reconcile.{ManagedSessionRow}
use threadbase_streamer.Sessions.Rehydrate.{ShouldRehydrateOptions}
use threadbase_streamer.Sessions.Rehydrate.Boot.{Boot}

abbrev row : ManagedSessionRow
row = record {
  session_id = "s1";
  provider = "claude-code";
  pid = some 42;
  cmdline = some "s1";
  completed_at = some 5;
  bound_conversation_id = none;
  failure_reason = none;
  status_source = "shutdown";
  streamer_instance_id = "run1";
  boot_token = some "b1";
  resumed_from_conversation_id = none;
  project_path = "/work";
  project_name = "work";
  prompt_count = 2;
  status = "running";
  status_updated_at = 5;
  started_at = 3;
  last_activity_at = some 4;
  content = "";
}

abbrev opts : ShouldRehydrateOptions
opts = record { now = 9; project_exists = λ path. str_eq path "/work"; has_conversation = none }

abbrev fresh : Boot
fresh = record {
  store = record { managed = []; discovered = [] };
  session_verdicts = [];
  self_pty_ended_at = [];
  deleted = [];
}
