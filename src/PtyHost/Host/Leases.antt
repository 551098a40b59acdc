-- ===== src/PtyHost/Host/Leases.antt =====
-- A host that a streamer holds a lease of is not released.
use threadbase_streamer.Prelude.{
  ℕ, ◌+◌, ◌≤◌, ◌≡◌, refl, List, [], ◌∷◌, none, some, Bool, true, false, not, ◌==◌, leb, String,
  if◌then◌else◌, All, arith, ==_iff, if_both, Bool-cases, inl, inr,
}
use threadbase_streamer.Sessions.Store.{ManagedSession}
use threadbase_streamer.PtyHost.Host.{
  SessionHost, put_lease, drop_lease, is_leased, is_idle_status, is_due, emit, forget, release,
  reap_idle, reap_orphan,
}
use threadbase_streamer.PtyHost.Host.Calls.{
  Callback, on_output, on_status_change, on_ready, on_permission_change, on_phase_change,
  on_prompt_suggestion_change, on_live_question, on_live_question_gone, on_user_message,
  HostRequest, subscribe, status, shutdown_host, heartbeat, kill_hold, on_runner, Call, callback,
  request, disconnect, idle_sweep, orphan_sweep, dispose, called_back, handle, dispatch,
  disconnected, swept_idle, swept_orphan, perform, run,
}

-- Whether a transport has a lease that is at least as new.
abbrev pub is_held : ℕ → ℕ → List (ℕ × ℕ) → Bool
is_held t at [] = false
is_held t at ((u, seen) ∷ rest) = if u == t then leb at seen else is_held t at rest

held-put_lease :
    (t at u now : ℕ) (leases : List (ℕ × ℕ))
    → at ≤ now
    → is_held t at leases ≡ true
    → is_held t at (put_lease leases u now) ≡ true
held-put_lease t at u now [] h held = absurd (ground arith)
held-put_lease t at u now ((v, seen) ∷ rest) h held =
    ground (arith, ==_iff v t, ==_iff v u, held-put_lease t at u now rest h)

put_lease-held : (t now : ℕ) (leases : List (ℕ × ℕ)) → is_held t now (put_lease leases t now) ≡ true
put_lease-held t now [] = ground (arith, ==_iff t t)
put_lease-held t now ((v, seen) ∷ rest) = ground (arith, ==_iff v t, put_lease-held t now rest)

held-drop_lease :
    (t at u : ℕ) (leases : List (ℕ × ℕ))
    → (u == t) ≡ false
    → is_held t at leases ≡ true
    → is_held t at (drop_lease leases u) ≡ true
held-drop_lease t at u [] h held = absurd (ground arith)
held-drop_lease t at u ((v, seen) ∷ rest) h held =
    ground (arith, ==_iff v t, ==_iff v u, ==_iff u t, held-drop_lease t at u rest h)

held-leased :
    (t at timeout now : ℕ) (leases : List (ℕ × ℕ))
    → now ≤ at + timeout
    → is_held t at leases ≡ true
    → is_leased leases timeout now ≡ true
held-leased t at timeout now [] h held = absurd (ground arith)
held-leased t at timeout now ((v, seen) ∷ rest) h held =
    ground (arith, ==_iff v t, held-leased t at timeout now rest h)

module _ {Gate Questions : Type 0} where
  -- What a lease is judged by is the same in both hosts.
  abbrev Same : SessionHost Gate Questions → SessionHost Gate Questions → Type 0
  Same after host =
      (after.heartbeat_leases ≡ host.heartbeat_leases)
      × (after.heartbeat_timeout_ms ≡ host.heartbeat_timeout_ms)
      × (after.orphaned ≡ host.orphaned)

  -- The host holds the lease, with the timeout and the mark that it had.
  abbrev pub Held : ℕ → ℕ → ℕ → Bool → SessionHost Gate Questions → Type 0
  Held t at timeout orphaned host =
      (is_held t at host.heartbeat_leases ≡ true)
      × (host.heartbeat_timeout_ms ≡ timeout)
      × (host.orphaned ≡ orphaned)

  called_back-Same :
      (gate_key : Gate → String) (content_key : Questions → String) (c : Callback Gate Questions)
      (host : SessionHost Gate Questions)
      → Same (called_back gate_key content_key c host) host
  unfolding called_back emit
  called_back-Same g q (on_output id text now) host = (refl, refl, refl)
  called_back-Same g q (on_status_change session) host =
      elim (Bool-cases (is_idle_status session.status)) [
        | inl h ↦ rw h (refl, refl, refl)
        | inr h ↦ rw h (refl, refl, refl)
      ]
  called_back-Same g q (on_ready session) host = (refl, refl, refl)
  called_back-Same g q (on_permission_change id none fresh) host = (refl, refl, refl)
  called_back-Same g q (on_permission_change id (some gate) fresh) host = (refl, refl, refl)
  called_back-Same g q (on_phase_change id phase) host = (refl, refl, refl)
  called_back-Same g q (on_prompt_suggestion_change id text) host = (refl, refl, refl)
  called_back-Same g q (on_live_question id questions fresh) host = (refl, refl, refl)
  called_back-Same g q (on_live_question_gone id) host = (refl, refl, refl)
  called_back-Same g q (on_user_message id text ts) host = (refl, refl, refl)

  reap_idle-Same :
      (host : SessionHost Gate Questions) (sessions : List ManagedSession) (now : ℕ)
      → Same (reap_idle host sessions now).0 host
  unfolding reap_idle release emit forget
  reap_idle-Same host [] now = (refl, refl, refl)
  reap_idle-Same host (session ∷ sessions) now = elim (Bool-cases (is_due host session now)) [
    | inl h ↦ rw h (reap_idle-Same (release session host) sessions now)
    | inr h ↦ rw h (reap_idle-Same host sessions now)
  ]

  Same-Held :
      (t at timeout : ℕ) (b : Bool) (after host : SessionHost Gate Questions)
      → Same after host
      → Held t at timeout b host
      → Held t at timeout b after
  Same-Held t at timeout b after host (l, w, o) held = rw (l, w, o) held

  swept_orphan-leased :
      (sessions : List ManagedSession) (now : ℕ) (host : SessionHost Gate Questions)
      → is_leased host.heartbeat_leases host.heartbeat_timeout_ms now ≡ true
      → swept_orphan sessions now host ≡ host
  unfolding swept_orphan reap_orphan
  swept_orphan-leased sessions now host h = ground arith

  swept_orphan-Held :
      (t at timeout : ℕ) (b : Bool) (sessions : List ManagedSession) (now : ℕ)
      (host : SessionHost Gate Questions)
      → now ≤ at + timeout
      → Held t at timeout b host
      → Held t at timeout b (swept_orphan sessions now host)
  swept_orphan-Held t at timeout b sessions now host h (held, w, o) =
      rw
        (swept_orphan-leased sessions now host
          (rw w (held-leased t at timeout now host.heartbeat_leases h held)))
        (held, w, o)

  swept_idle-Held :
      (t at timeout : ℕ) (b : Bool) (sessions : List ManagedSession) (now : ℕ)
      (host : SessionHost Gate Questions)
      → Held t at timeout b host
      → Held t at timeout b (swept_idle sessions now host)
  unfolding swept_idle
  swept_idle-Held t at timeout b sessions now host held =
      let reaped = (reap_idle host sessions now).0 in
      if_both (Held t at timeout b) host.timers reaped host
        (Same-Held t at timeout b reaped host (reap_idle-Same host sessions now) held) held

  -- A request renews a lease at the earliest at the time of the first.
  dispatch-Held :
      (t at timeout : ℕ) (b : Bool) (u id : ℕ) (r : HostRequest) (now : ℕ)
      (host : SessionHost Gate Questions)
      → at ≤ now
      → Held t at timeout b host
      → Held t at timeout b (dispatch u id r now host)
  unfolding dispatch handle forget
  dispatch-Held t at timeout b u id subscribe now host h held = held
  dispatch-Held t at timeout b u id status now host h held = held
  dispatch-Held t at timeout b u id shutdown_host now host h held = held
  dispatch-Held t at timeout b u id (heartbeat known referenced) now host h (held, w, o) =
      (held-put_lease t at u now host.heartbeat_leases h held, w, o)
  dispatch-Held t at timeout b u id (kill_hold session true) now host h held = held
  dispatch-Held t at timeout b u id (kill_hold session false) now host h held = held
  dispatch-Held t at timeout b u id (on_runner throws) now host h held = held

  -- Whether a call can come while a lease of the time `at` holds: its transport is not disconnected,
  -- the host not disposed of, and the clock between `at` and the timeout.
  abbrev pub is_within : ℕ → ℕ → ℕ → Call Gate Questions → Bool
  is_within t at timeout (callback c) = true
  is_within t at timeout (request u id r now) = leb at now
  is_within t at timeout (disconnect u) = not (u == t)
  is_within t at timeout (idle_sweep sessions now) = true
  is_within t at timeout (orphan_sweep sessions now) = leb now (at + timeout)
  is_within t at timeout dispose = false

module _ {Gate Questions : Type 0} (gate_key : Gate → String)
    (content_key : Questions → String) where
  perform-Held :
      (t at timeout : ℕ) (b : Bool) (c : Call Gate Questions) (host : SessionHost Gate Questions)
      → is_within t at timeout c ≡ true
      → Held t at timeout b host
      → Held t at timeout b (perform gate_key content_key host c)
  unfolding perform disconnected
  perform-Held t at timeout b (callback c) host h held =
      Same-Held t at timeout b (called_back gate_key content_key c host) host
        (called_back-Same gate_key content_key c host) held
  perform-Held t at timeout b (request u id r now) host h held =
      dispatch-Held t at timeout b u id r now host (ground arith) held
  perform-Held t at timeout b (disconnect u) host h (held, w, o) =
      (held-drop_lease t at u host.heartbeat_leases (ground arith) held, w, o)
  perform-Held t at timeout b (idle_sweep sessions now) host h held =
      swept_idle-Held t at timeout b sessions now host held
  perform-Held t at timeout b (orphan_sweep sessions now) host h held =
      swept_orphan-Held t at timeout b sessions now host (ground arith) held
  perform-Held t at timeout b dispose host h held = absurd (ground arith)

  run-Held :
      (t at timeout : ℕ) (b : Bool) (cs : List (Call Gate Questions))
      (host : SessionHost Gate Questions)
      → All (λ c. is_within t at timeout c ≡ true) cs
      → Held t at timeout b host
      → Held t at timeout b (run gate_key content_key host cs)
  unfolding run
  run-Held t at timeout b [] host h held = held
  run-Held t at timeout b (c ∷ cs) host (h, hs) held =
      run-Held t at timeout b cs (perform gate_key content_key host c) hs
        (perform-Held t at timeout b c host h held)

  -- After a heartbeat, no calls release the host as orphaned while its streamer stays connected, the
  -- host is not disposed of, and the sweeps for orphans come within the timeout.
  pub leased_stays :
      (host : SessionHost Gate Questions) (t id at : ℕ) (known : Bool) (referenced : List String)
      (cs : List (Call Gate Questions))
      → All (λ c. is_within t at host.heartbeat_timeout_ms c ≡ true) cs
      → (run gate_key content_key (dispatch t id (heartbeat known referenced) at host) cs).orphaned
        ≡ host.orphaned
  unfolding dispatch handle
  leased_stays host t id at known referenced cs h =
      (run-Held t at host.heartbeat_timeout_ms host.orphaned cs
        (dispatch t id (heartbeat known referenced) at host) h
        (put_lease-held t at host.heartbeat_leases, refl, refl)).2
