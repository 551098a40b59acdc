-- ===== src/PtyHost/Host/Calls.antt =====
-- The runner's callbacks, the requests of a streamer, and the timers of `SessionHost`.
use threadbase_streamer.Prelude.{
  ℕ, List, [], ◌∷◌, ◌++◌, Option, none, some, Bool, true, false, String, str_eq, if◌then◌else◌,
}
use threadbase_streamer.Prelude.Dict.{get, put, remove}
use threadbase_streamer.WsHub.{without, with_socket}
use threadbase_streamer.Sessions.Store.{ManagedSession}
use threadbase_streamer.PtyHost.Host.{
  HostPromptSnapshot, permission, question, output, status_change, ready, permission_change,
  phase_change, prompt_suggestion_change, live_question, live_question_gone, user_message, Effect,
  answered, put_on_hold, shut_down, runner_disposed, SessionHost, put_lease, drop_lease,
  is_idle_status, emit, forget, reap_idle, reap_orphan,
}

-- A callback of the runner. The last text of a prompt is the identifier for a new occurrence.
pub data Callback (Gate Questions : Type 0) : Type 0 where
  on_output : String → String → ℕ → Callback Gate Questions
  on_status_change : ManagedSession → Callback Gate Questions
  on_ready : ManagedSession → Callback Gate Questions
  on_permission_change : String → Option Gate → String → Callback Gate Questions
  on_phase_change : String → Option String → Callback Gate Questions
  on_prompt_suggestion_change : String → Option String → Callback Gate Questions
  on_live_question : String → Questions → String → Callback Gate Questions
  on_live_question_gone : String → Callback Gate Questions
  on_user_message : String → String → ℕ → Callback Gate Questions

-- A request. `on_runner` is any that only calls the runner, with whether that throws.
pub data HostRequest : Type 0 where
  subscribe status shutdown_host : HostRequest
  heartbeat : Bool → List String → HostRequest
  kill_hold : String → Bool → HostRequest
  on_runner : Bool → HostRequest

pub data Call (Gate Questions : Type 0) : Type 0 where
  callback : Callback Gate Questions → Call Gate Questions
  request : ℕ → ℕ → HostRequest → ℕ → Call Gate Questions
  disconnect : ℕ → Call Gate Questions
  idle_sweep : List ManagedSession → ℕ → Call Gate Questions
  orphan_sweep : List ManagedSession → ℕ → Call Gate Questions
  dispose : Call Gate Questions

module _ {Gate Questions : Type 0} (gate_key : Gate → String)
    (content_key : Questions → String) where
  -- The occurrence goes on while the same prompt is on the screen.
  abbrev gate_occurrence : Option (HostPromptSnapshot Gate Questions) → Gate → String → String
  gate_occurrence (some (permission occurrence was)) gate fresh =
      if str_eq (gate_key was) (gate_key gate) then occurrence else fresh
  gate_occurrence _ gate fresh = fresh

  abbrev question_occurrence :
      Option (HostPromptSnapshot Gate Questions) → Questions → String → String
  question_occurrence (some (question occurrence was)) questions fresh =
      if str_eq (content_key was) (content_key questions) then occurrence else fresh
  question_occurrence _ questions fresh = fresh

  abbrev occurrence_of : Option (HostPromptSnapshot Gate Questions) → Option String
  occurrence_of none = none
  occurrence_of (some (permission occurrence gate)) = some occurrence
  occurrence_of (some (question occurrence questions)) = some occurrence

  abbrev without_snapshot : String → SessionHost Gate Questions → SessionHost Gate Questions
  without_snapshot id host = record host { prompt_snapshots = remove host.prompt_snapshots id }

  abbrev with_snapshot :
      String
      → HostPromptSnapshot Gate Questions
      → SessionHost Gate Questions
      → SessionHost Gate Questions
  with_snapshot id snapshot host = record host {
    prompt_snapshots = put host.prompt_snapshots id snapshot;
  }

  unfoldable pub called_back :
      Callback Gate Questions → SessionHost Gate Questions → SessionHost Gate Questions
  called_back (on_output id text now) host =
      emit (output id text)
        (record host { last_agent_chunk_at = put host.last_agent_chunk_at id now })
  called_back (on_status_change session) host =
      emit (status_change session)
        (if is_idle_status session.status then without_snapshot session.id host else host)
  called_back (on_ready session) host = emit (ready session) host
  called_back (on_permission_change id none fresh) host =
      emit (permission_change id none (occurrence_of (get host.prompt_snapshots id)))
        (without_snapshot id host)
  called_back (on_permission_change id (some gate) fresh) host =
      let occurrence = gate_occurrence (get host.prompt_snapshots id) gate fresh in
      emit (permission_change id (some gate) (some occurrence))
        (with_snapshot id (permission occurrence gate) host)
  called_back (on_phase_change id phase) host = emit (phase_change id phase) host
  called_back (on_prompt_suggestion_change id text) host =
      emit (prompt_suggestion_change id text) host
  called_back (on_live_question id questions fresh) host =
      let occurrence = question_occurrence (get host.prompt_snapshots id) questions fresh in
      emit (live_question id questions occurrence)
        (with_snapshot id (question occurrence questions) host)
  called_back (on_live_question_gone id) host =
      emit (live_question_gone id) (without_snapshot id host)
  called_back (on_user_message id text ts) host = emit (user_message id text ts) host

module _ {Gate Questions : Type 0} where
  abbrev effect : Effect Gate Questions → SessionHost Gate Questions → SessionHost Gate Questions
  effect e host = record host { effects = host.effects ++ e ∷ [] }

  -- `handle`: the host afterwards, and whether the answer is a result. The caches that a subscribing
  -- streamer clears are not part of the host.
  unfoldable pub handle :
      ℕ → HostRequest → ℕ → SessionHost Gate Questions → SessionHost Gate Questions × Bool
  handle t subscribe now host = (record host { subscribers = with_socket t host.subscribers }, true)
  handle t status now host = (host, true)
  handle t shutdown_host now host = (host, true)
  handle t (heartbeat known referenced) now host = (
    record host {
      heartbeat_leases = put_lease host.heartbeat_leases t now;
      last_registry_heartbeat =
          some (record { known = known; referenced_session_ids = referenced; at = now });
    },
    true,
  )
  handle t (kill_hold id throws) now host =
      if throws then (host, false) else (forget id (effect (put_on_hold id) host), true)
  handle t (on_runner throws) now host = (host, if throws then false else true)

  abbrev after_answer : HostRequest → SessionHost Gate Questions → SessionHost Gate Questions
  after_answer shutdown_host host = effect shut_down host
  after_answer _ host = host

  -- `dispatch`: each request has one answer, of its transport and with its number.
  unfoldable pub dispatch :
      ℕ → ℕ → HostRequest → ℕ → SessionHost Gate Questions → SessionHost Gate Questions
  dispatch t id r now host =
      let h = handle t r now host in after_answer r (effect (answered t id h.1) h.0)

  -- The disposer that `accept` returns.
  unfoldable pub disconnected : ℕ → SessionHost Gate Questions → SessionHost Gate Questions
  disconnected t host = record host {
    subscribers = without t host.subscribers;
    heartbeat_leases = drop_lease host.heartbeat_leases t;
  }

  unfoldable pub disposed : SessionHost Gate Questions → SessionHost Gate Questions
  disposed host = record host {
    timers = false;
    subscribers = [];
    heartbeat_leases = [];
    effects = host.effects ++ runner_disposed ∷ [];
  }

  -- The two sweeps; a timer that was cleared does not fire.
  unfoldable pub swept_idle :
      List ManagedSession → ℕ → SessionHost Gate Questions → SessionHost Gate Questions
  swept_idle sessions now host = if host.timers then (reap_idle host sessions now).0 else host

  unfoldable pub swept_orphan :
      List ManagedSession → ℕ → SessionHost Gate Questions → SessionHost Gate Questions
  swept_orphan sessions now host = if host.timers then (reap_orphan host sessions now).0 else host

module _ {Gate Questions : Type 0} (gate_key : Gate → String)
    (content_key : Questions → String) where
  unfoldable pub perform :
      SessionHost Gate Questions → Call Gate Questions → SessionHost Gate Questions
  perform host (callback c) = called_back gate_key content_key c host
  perform host (request t id r now) = dispatch t id r now host
  perform host (disconnect t) = disconnected t host
  perform host (idle_sweep sessions now) = swept_idle sessions now host
  perform host (orphan_sweep sessions now) = swept_orphan sessions now host
  perform host dispose = disposed host

  unfoldable pub run :
      SessionHost Gate Questions → List (Call Gate Questions) → SessionHost Gate Questions
  run host [] = host
  run host (c ∷ cs) = run (perform host c) cs
