-- ===== src/PtyHost/Host/Release.antt =====
-- When an orphaned host is released.
use threadbase_streamer.Prelude.{
  ℕ, ◌+◌, ◌<◌, ◌≡◌, ◌↔◌, refl, List, [], ◌∷◌, Option, none, some, true, false, All, arith,
}
use threadbase_streamer.Sessions.Store.{ManagedSession}
use threadbase_streamer.PtyHost.Host.{
  Heartbeat, SessionHost, is_leased, is_none_left, is_unreferenced, reap_orphan,
}

-- The last heartbeat is from a readable registry, older than the timeout, and names no session.
pub record IsUnreferenced (last : Option Heartbeat) (timeout now : ℕ) : Type 0 where
  pub registry : Heartbeat
  pub is_last : last ≡ some registry
  pub readable : registry.known ≡ true
  pub late : registry.at + timeout < now
  pub nothing : registry.referenced_session_ids ≡ []

-- What must hold at the release of a host.
pub record IsAbandoned {Gate Questions : Type 0} (host : SessionHost Gate Questions)
    (sessions : List ManagedSession) (now : ℕ) : Type 0 where
  pub unreleased : host.orphaned ≡ false
  pub stale : All (λ l. l.1 + host.heartbeat_timeout_ms < now) host.heartbeat_leases
  pub unreferenced : IsUnreferenced host.last_registry_heartbeat host.heartbeat_timeout_ms now
  pub empty : sessions ≡ []

none_left : {A : Type 0} (xs : List A) → is_none_left xs ≡ true → xs ≡ []
none_left [] h = refl
none_left (x ∷ xs) h = absurd (ground arith)

leases-stale :
    (leases : List (ℕ × ℕ)) (timeout now : ℕ)
    → is_leased leases timeout now ≡ false
    → All (λ l. l.1 + timeout < now) leases
leases-stale [] timeout now h = tt
leases-stale ((t, seen) ∷ rest) timeout now h =
    (ground arith, leases-stale rest timeout now (ground arith))

stale-leases :
    (leases : List (ℕ × ℕ)) (timeout now : ℕ)
    → All (λ l. l.1 + timeout < now) leases
    → is_leased leases timeout now ≡ false
stale-leases [] timeout now h = refl
stale-leases ((t, seen) ∷ rest) timeout now (h, hs) =
    ground (arith, stale-leases rest timeout now hs)

is_unreferenced-IsUnreferenced :
    (last : Option Heartbeat) (timeout now : ℕ)
    → is_unreferenced last timeout now ≡ true
    → IsUnreferenced last timeout now
is_unreferenced-IsUnreferenced none timeout now h = absurd (ground arith)
is_unreferenced-IsUnreferenced (some registry) timeout now h = record {
  registry = registry;
  is_last = refl;
  readable = ground arith;
  late = ground arith;
  nothing = none_left registry.referenced_session_ids (ground arith);
}

IsUnreferenced-is_unreferenced :
    (last : Option Heartbeat) (timeout now : ℕ)
    → IsUnreferenced last timeout now
    → is_unreferenced last timeout now ≡ true
IsUnreferenced-is_unreferenced last timeout now u =
    rw (u.is_last, u.readable, u.nothing) (ground (arith, u.late))

module _ {Gate Questions : Type 0} (host : SessionHost Gate Questions)
    (sessions : List ManagedSession) (now : ℕ) where
  -- A sweep releases the host just if it is abandoned: not released before, each lease older than the
  -- timeout, the last heartbeat too, from a readable registry that names no session, and no session
  -- left.
  pub reap_orphan-IsAbandoned :
      ((reap_orphan host sessions now).1 ≡ true) ↔ IsAbandoned host sessions now
  unfolding reap_orphan
  reap_orphan-IsAbandoned = (
    (λ h. record {
      unreleased = ground arith;
      stale = leases-stale host.heartbeat_leases host.heartbeat_timeout_ms now (ground arith);
      unreferenced =
          is_unreferenced-IsUnreferenced host.last_registry_heartbeat host.heartbeat_timeout_ms now
            (ground arith);
      empty = none_left sessions (ground arith);
    }),
    (λ a.
        rw
          (
            a.unreleased,
            stale-leases host.heartbeat_leases host.heartbeat_timeout_ms now a.stale,
            IsUnreferenced-is_unreferenced host.last_registry_heartbeat host.heartbeat_timeout_ms
                now a.unreferenced,
            a.empty,
          )
          refl),
  )
