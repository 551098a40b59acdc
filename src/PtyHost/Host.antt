-- ===== src/PtyHost/Host.antt =====
-- src/pty-host/host.ts: `SessionHost`. The runner's sessions and random identifiers are arguments of
-- the calls that read them, and a callback that the runner makes is a call of its own. Sending to a
-- transport does not throw, and logging is left out.
pub mod Calls
pub mod Leases
pub mod Release
pub mod Tests
use threadbase_streamer.Prelude.{
  ℕ, ◌+◌, List, [], ◌∷◌, ◌++◌, map, Option, none, some, Bool, true, false, ◌==◌, ltb, leb, String,
  str_eq, has, if◌then◌else◌, keep_if, not,
}
use threadbase_streamer.Prelude.Dict.{Dict, get, put, remove}
use threadbase_streamer.Sessions.Store.{ManagedSession, SessionStatus, running, idle}

-- A gate is a permission prompt of an agent; the questions are those of its screen.
pub data HostPromptSnapshot (Gate Questions : Type 0) : Type 0 where
  permission : String → Gate → HostPromptSnapshot Gate Questions
  question : String → Questions → HostPromptSnapshot Gate Questions

pub data HostEvent (Gate Questions : Type 0) : Type 0 where
  output : String → String → HostEvent Gate Questions
  status_change : ManagedSession → HostEvent Gate Questions
  ready : ManagedSession → HostEvent Gate Questions
  permission_change : String → Option Gate → Option String → HostEvent Gate Questions
  phase_change : String → Option String → HostEvent Gate Questions
  prompt_suggestion_change : String → Option String → HostEvent Gate Questions
  live_question : String → Questions → String → HostEvent Gate Questions
  live_question_gone : String → HostEvent Gate Questions
  user_message : String → String → ℕ → HostEvent Gate Questions
  exit : String → ℕ → HostEvent Gate Questions

-- What the host does outside: an event or an answer to a transport, a session put on hold by the
-- runner, its two callbacks, and the end of the runner.
pub data Effect (Gate Questions : Type 0) : Type 0 where
  sent : ℕ → HostEvent Gate Questions → Effect Gate Questions
  answered : ℕ → ℕ → Bool → Effect Gate Questions
  put_on_hold : String → Effect Gate Questions
  shut_down orphan_released runner_disposed : Effect Gate Questions

-- `HostHeartbeatState` with its time; `known` is the state of the registry.
pub record Heartbeat : Type 0 where
  pub known : Bool
  pub referenced_session_ids : List String
  pub at : ℕ

-- Transports are numbers.
pub record SessionHost (Gate Questions : Type 0) : Type 0 where
  pub subscribers : List ℕ
  pub last_agent_chunk_at : Dict ℕ
  pub idle_after_ms : ℕ
  pub heartbeat_timeout_ms : ℕ
  pub heartbeat_leases : List (ℕ × ℕ)
  pub last_registry_heartbeat : Option Heartbeat
  pub orphaned : Bool
  pub prompt_snapshots : Dict (HostPromptSnapshot Gate Questions)
  pub timers : Bool
  pub effects : List (Effect Gate Questions)

abbrev pub host_idle_after_ms : ℕ
host_idle_after_ms = 21_600_000

abbrev pub host_heartbeat_timeout_ms : ℕ
host_heartbeat_timeout_ms = 30_000

-- `heartbeatLeases.set` and `.delete`.
abbrev pub put_lease : List (ℕ × ℕ) → ℕ → ℕ → List (ℕ × ℕ)
put_lease [] t now = (t, now) ∷ []
put_lease ((u, was) ∷ rest) t now =
    if u == t then (u, now) ∷ rest else (u, was) ∷ put_lease rest t now

abbrev pub drop_lease : List (ℕ × ℕ) → ℕ → List (ℕ × ℕ)
drop_lease leases t = keep_if (λ l. not (l.0 == t)) leases

-- Whether some lease was renewed within the timeout.
abbrev pub is_leased : List (ℕ × ℕ) → ℕ → ℕ → Bool
is_leased [] timeout now = false
is_leased ((t, seen) ∷ rest) timeout now =
    if leb now (seen + timeout) then true else is_leased rest timeout now

abbrev pub is_none_left {ℓ} : {A : Type ℓ} → List A → Bool
is_none_left [] = true
is_none_left (x ∷ xs) = false

abbrev pub is_idle_status : SessionStatus → Bool
is_idle_status idle = true
is_idle_status _ = false

abbrev pub is_running : SessionStatus → Bool
is_running running = true
is_running _ = false

-- Whether the last heartbeat leaves nothing to wait for.
abbrev pub is_unreferenced : Option Heartbeat → ℕ → ℕ → Bool
is_unreferenced none timeout now = false
is_unreferenced (some registry) timeout now =
    if registry.known
    then (if leb now (registry.at + timeout)
        then false
        else is_none_left registry.referenced_session_ids)
    else false

module _ {Gate Questions : Type 0} where
  abbrev pub emit_all : List ℕ → HostEvent Gate Questions → List (Effect Gate Questions)
  emit_all subscribers event = map (λ t. sent t event) subscribers

  -- `emit`: a copy for each subscriber.
  unfoldable pub emit :
      HostEvent Gate Questions → SessionHost Gate Questions → SessionHost Gate Questions
  emit event host = record host { effects = host.effects ++ emit_all host.subscribers event }

  unfoldable pub forget : String → SessionHost Gate Questions → SessionHost Gate Questions
  forget id host = record host {
    last_agent_chunk_at = remove host.last_agent_chunk_at id;
    prompt_snapshots = remove host.prompt_snapshots id;
  }

  -- When the session was last active, as far as the host knows.
  abbrev pub last_active : SessionHost Gate Questions → ManagedSession → ℕ
  last_active host session = elim (get host.last_agent_chunk_at session.id) [
    | some at ↦ at
    | none ↦ elim session.last_activity_at [ some at ↦ at | none ↦ session.started_at ]
  ]

  abbrev pub is_due : SessionHost Gate Questions → ManagedSession → ℕ → Bool
  is_due host session now =
      if is_running session.status
      then false
      else leb (last_active host session + host.idle_after_ms) now

  unfoldable pub release : ManagedSession → SessionHost Gate Questions → SessionHost Gate Questions
  release session host =
      emit (exit session.id 0)
        (forget session.id (record host { effects = host.effects ++ put_on_hold session.id ∷ [] }))

  -- `reapIdle` over the runner's sessions: the ids that it released.
  unfoldable pub reap_idle :
      SessionHost Gate Questions
      → List ManagedSession
      → ℕ
      → SessionHost Gate Questions × List String
  reap_idle host [] now = (host, [])
  reap_idle host (session ∷ sessions) now =
      let kept = reap_idle host sessions now in
      let rest = reap_idle (release session host) sessions now in
      if is_due host session now then (rest.0, session.id ∷ rest.1) else kept

  -- `reapOrphan`, for the number of sessions of the runner.
  unfoldable pub reap_orphan :
      SessionHost Gate Questions → List ManagedSession → ℕ → SessionHost Gate Questions × Bool
  reap_orphan host sessions now =
      if host.orphaned
      then (host, false)
      else if is_leased host.heartbeat_leases host.heartbeat_timeout_ms now
      then (host, false)
      else if is_unreferenced host.last_registry_heartbeat host.heartbeat_timeout_ms now
      then (if is_none_left sessions
          then (
            record host { orphaned = true; effects = host.effects ++ orphan_released ∷ [] },
            true,
          )
          else (host, false))
      else (host, false)
