-- ===== src/Sessions/Store/Tests.antt =====
-- A store with a live session, a stub whose conversation runs outside, and two outside processes.
use threadbase_streamer.Prelude.{◌≡◌, refl, List, [], ◌∷◌, none, some, true, false, map}
use threadbase_streamer.Prelude.Dict.{get, put}
use threadbase_streamer.Sessions.Store.{
  ManagedSession, DiscoveredProcess, running, idle, not_multi_agent, new_status, owns_conversation,
  has_discovered, set_discovered, update_managed, add_managed,
}
use threadbase_streamer.Sessions.Store.History.{
  keeps_id, after, Call, add, update, discover, run, empty,
}
use threadbase_streamer.Sessions.Store.Listing.{View, list_sessions}
use threadbase_streamer.Sessions.Store.Listing.Distinct.{Distinct, list_sessions-Distinct}

program : Unit {0}
unfolding list_sessions run owns_conversation has_discovered after set_discovered update_managed
    add_managed get put
program = tt

abbrev pub live : ManagedSession
live = record {
  id = "s1";
  status = running;
  started_at = 3;
  completed_at = none;
  last_activity_at = some 8;
  status_source = none;
  sub_status = some "working";
  prompt_suggestion = none;
  rehydrated = false;
  reconciled = false;
  bound_conversation_id = some "c1";
  resumed_from_conversation_id = none;
  current_turn_id = not_multi_agent;
  failure_reason = none;
  project_name = "work";
  progress_dedupe_ids = none;
  status_updated_at = none;
  interrupted_status = none;
  content = "";
}

abbrev stub : ManagedSession
stub = record live { id = "s2"; rehydrated = true; bound_conversation_id = none; status = idle }

abbrev process : DiscoveredProcess
process = record {
  pid = 7;
  conversation_id = some "s2";
  project_path = "/work";
  project_name = "work";
  started_at = 5;
  content = "";
}

abbrev script : List Call
script =
    add live
    ∷ add stub
    ∷ update "s1" (new_status idle ∷ [])
    ∷ discover (process ∷ record process { pid = 9; conversation_id = some "c1" } ∷ [])
    ∷ []

abbrev pub view : View
view = record { visibility = λ id s. true; has_open = λ id. false; attached_to = λ id. false }

list_sessions-Distinct_example : Distinct (list_sessions view (run empty script) 10)
unfolding keeps_id
list_sessions-Distinct_example =
    list_sessions-Distinct view 10 script (refl, (refl, (refl, (refl, tt))))

-- The outside process replaces the stub's row, and the live session hides its own process.
listed_ids : map (λ r. r.id) (list_sessions view (run empty script) 10) ≡ "s1" ∷ "s2" ∷ []
unfolding program
listed_ids = refl
