-- ===== src/Sessions/Reconcile/Tests.antt =====
-- Rows of an earlier run, on a host where process 42 runs `claude --session-id s1`.
use threadbase_streamer.Prelude.{inr, refl, none, some, ◌==◌}
use threadbase_streamer.Sessions.Reconcile.{ManagedSessionRow, ReconcileProbe, classify_session}
use threadbase_streamer.Sessions.Reconcile.Identity.{IsConfirmed, claimed-IsConfirmed}

abbrev row : ManagedSessionRow
row = record {
  session_id = "s1";
  provider = "claude-code";
  pid = some 42;
  cmdline = some "s1";
  completed_at = none;
  bound_conversation_id = none;
  failure_reason = none;
  status_source = "hook";
  streamer_instance_id = "run1";
  boot_token = some "b1";
  resumed_from_conversation_id = none;
  project_path = "/work";
  project_name = "work";
  prompt_count = 2;
  status = "running";
  status_updated_at = 5;
  started_at = 3;
  last_activity_at = some 4;
  content = "";
}

abbrev probe : ReconcileProbe
probe = record {
  is_pid_alive = λ pid. pid == 42;
  get_process_args = λ pid. some "claude --session-id s1";
  ended_cleanly = none;
}

claimed-IsConfirmed_example : IsConfirmed row probe (some "b1")
unfolding classify_session
claimed-IsConfirmed_example = claimed-IsConfirmed row probe "run2" (some "b1") (inr refl)
