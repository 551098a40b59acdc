-- ===== src/PtyHost/Host/Tests.antt =====
-- A host with one streamer that beats at 1000, and the host that nobody holds.
use threadbase_streamer.Prelude.{◌≡◌, ◌↔◌, refl, [], ◌∷◌, some, true, false, String}
use threadbase_streamer.PtyHost.Host.{
  SessionHost, host_idle_after_ms, host_heartbeat_timeout_ms, reap_orphan,
}
use threadbase_streamer.PtyHost.Host.Calls.{
  heartbeat, callback, on_live_question_gone, request, disconnect, orphan_sweep, dispatch, run,
}
use threadbase_streamer.PtyHost.Host.Leases.{leased_stays}
use threadbase_streamer.PtyHost.Host.Release.{IsAbandoned, reap_orphan-IsAbandoned}

abbrev host : SessionHost String String
host = record {
  subscribers = 1 ∷ [];
  last_agent_chunk_at = [];
  idle_after_ms = host_idle_after_ms;
  heartbeat_timeout_ms = host_heartbeat_timeout_ms;
  heartbeat_leases = [];
  last_registry_heartbeat = some (record { known = true; referenced_session_ids = []; at = 500 });
  orphaned = false;
  prompt_snapshots = [];
  timers = true;
  effects = [];
}

leased_stays_example :
    (run
      (λ g. g)
      (λ q. q)
      (dispatch 1 7 (heartbeat true []) 1000 host)
      (callback (on_live_question_gone "s")
        ∷ orphan_sweep [] 30900
        ∷ request 2 8 (heartbeat true []) 1500
        ∷ disconnect 2
        ∷ orphan_sweep [] 31000
        ∷ [])).orphaned
    ≡ false
leased_stays_example =
    leased_stays (λ g. g) (λ q. q) host 1 7 1000 true []
      (callback (on_live_question_gone "s")
        ∷ orphan_sweep [] 30900
        ∷ request 2 8 (heartbeat true []) 1500
        ∷ disconnect 2
        ∷ orphan_sweep [] 31000
        ∷ [])
      (refl, (refl, (refl, (refl, (refl, tt)))))

released : (reap_orphan host [] 30501).1 ≡ true
unfolding reap_orphan
released = refl

kept : (reap_orphan host [] 30500).1 ≡ false
unfolding reap_orphan
kept = refl

reap_orphan-IsAbandoned_example : ((reap_orphan host [] 30501).1 ≡ true) ↔ IsAbandoned host [] 30501
reap_orphan-IsAbandoned_example = reap_orphan-IsAbandoned host [] 30501
