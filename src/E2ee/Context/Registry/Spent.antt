-- ===== src/E2ee/Context/Registry/Spent.antt =====
-- A ticket of the registry after it was presented, through any calls that follow.
use threadbase_streamer.Prelude.{
  ℕ, ◌+◌, ◌≡◌, refl, List, [], ◌∷◌, Option, none, some, Bool, true, not, leb, ltb, String, str_eq,
  eq_iff, eq_refl, get_elem?, All, arith, if◌then◌else◌, if_both,
}
use threadbase_streamer.Prelude.Dict.{Dict, get, get-put, get-remove, remove}
use threadbase_streamer.E2ee.Context
use threadbase_streamer.E2ee.Context.{
  Context, ContextKind, TrafficKeys, ticket_ttl_ms, deadline, invalidate, mark_used,
}
use threadbase_streamer.E2ee.Context.Registry.{
  Registry, Ticket, DestroyedContexts, keep_tickets, destroy, lookup, destroy_owned, sweep_tickets,
  issue_ticket, consume_ticket, use_context, sweep_list, sweep_device, for_device, retire_all,
  registered, open_context, victims, candidates, destroy_list, destroy_device, clear,
  context_drain_ms, write, tally, count_tickets,
}
use threadbase_streamer.E2ee.Context.Registry.Destruction.{tickets-destroy}

-- A call of the registry. A context is named by its address.
pub data Call (Key : Type 0) : Type 0 where
  opens : String → ContextKind → List ℕ → String → TrafficKeys Key → ℕ → Call Key
  looks_up : String → ℕ → Call Key
  destroys : String → Call Key
  destroys_owned : ℕ → Call Key
  destroys_device : String → Call Key
  issues : String → String → ℕ → Call Key
  consumes : String → ℕ → Call Key
  sweeps : String → ℕ → Call Key
  clears : Call Key

get-keep_none :
    (p : Ticket → Bool) (m : Dict Ticket) (ticket : String)
    → get m ticket ≡ none
    → get (keep_tickets p m) ticket ≡ none
unfolding get keep_tickets
get-keep_none p [] ticket h = refl
get-keep_none p ((k, u) ∷ m) ticket h = ground (arith, get-keep_none p m ticket)

module _ {Key : Type 0} where
  unfoldable pub after : Registry Key → Call Key → Registry Key
  after r (opens device kind raw ctx_id keys now) =
      (open_context r device kind raw ctx_id keys now).0
  after r (looks_up id now) = (lookup r id now).0
  after r (destroys id) = (destroy r id).0
  after r (destroys_owned a) = elim (get_elem? r.objects a) [
    | none ↦ r
    | some x ↦ (destroy_owned r a x).0
  ]
  after r (destroys_device device) = (destroy_device r device).0
  after r (issues ticket ctx_id now) = issue_ticket r ticket ctx_id now
  after r (consumes ticket now) = (consume_ticket r ticket now).0
  after r (sweeps device now) = sweep_device r device now
  after r clears = clear r

  unfoldable pub run : Registry Key → List (Call Key) → Registry Key
  run r [] = r
  run r (c ∷ cs) = run (after r c) cs

  -- Whether a call leaves a ticket unissued.
  abbrev pub issues_none : String → Call Key → Bool
  issues_none ticket (issues other ctx_id now) = not (str_eq other ticket)
  issues_none ticket c = true

  module _ (ticket : String) where
    abbrev Spent : Registry Key → Type 0
    Spent r = get r.tickets ticket ≡ none

    destroy-Spent : (r : Registry Key) (id : String) → Spent r → Spent (destroy r id).0
    destroy-Spent r id h =
        rw (tickets-destroy r id) (get-keep_none (λ t. not (str_eq t.ctx_id id)) r.tickets ticket h)

    lookup-Spent : (r : Registry Key) (id : String) (now : ℕ) → Spent r → Spent (lookup r id now).0
    unfolding lookup
    lookup-Spent r id now h = ground (arith, destroy-Spent r id)

    destroy_owned-Spent :
        (r : Registry Key) (a : ℕ) (x : Context Key) → Spent r → Spent (destroy_owned r a x).0
    unfolding destroy_owned
    destroy_owned-Spent r a x h = ground (arith, destroy-Spent r x.ctx_id)

    sweep_list-Spent :
        (r : Registry Key) (now : ℕ) (es : List (ℕ × Context Key))
        → Spent r
        → Spent (sweep_list r now es)
    unfolding sweep_list
    sweep_list-Spent r now [] h = h
    sweep_list-Spent r now ((a, x) ∷ es) h =
        sweep_list-Spent (if leb (deadline x) now then (destroy r x.ctx_id).0 else r) now es (
          if_both Spent (leb (deadline x) now) (destroy r x.ctx_id).0 r (destroy-Spent r x.ctx_id h)
            h)

    sweep_device-Spent :
        (r : Registry Key) (device : String) (now : ℕ) → Spent r → Spent (sweep_device r device now)
    unfolding sweep_device
    sweep_device-Spent r device now h = sweep_list-Spent r now (for_device r device) h

    retire_all-Spent :
        (r : Registry Key) (es : List (ℕ × Context Key)) (at : ℕ)
        → Spent r
        → Spent (retire_all r es at)
    unfolding retire_all
    retire_all-Spent r [] at h = h
    retire_all-Spent r ((a, x) ∷ es) at h =
        retire_all-Spent (write r a (Context.retire x at)) es at h

    open_context-Spent :
        (r : Registry Key) (device : String) (kind : ContextKind) (raw : List ℕ) (ctx_id : String)
        (keys : TrafficKeys Key) (now : ℕ)
        → Spent r
        → Spent (open_context r device kind raw ctx_id keys now).0
    unfolding open_context sweep_tickets registered
    open_context-Spent r device kind raw ctx_id keys now h =
        let swept = sweep_tickets (sweep_device r device now) now in
        let r' =
          retire_all swept (victims kind (candidates swept device kind)) (now + context_drain_ms) in
        let spent =
          retire_all-Spent swept (victims kind (candidates swept device kind))
            (now + context_drain_ms)
            (get-keep_none (λ t. ltb now t.expires_at) (sweep_device r device now).tickets ticket
              (sweep_device-Spent r device now h)) in
        ground (arith, spent)

    use_context-Spent :
        (r : Registry Key) (o : Option (ℕ × Context Key)) (now : ℕ)
        → Spent r
        → Spent (use_context r o now)
    unfolding use_context
    use_context-Spent r none now h = h
    use_context-Spent r (some (a, x)) now h = h

    consume_ticket-Spent :
        (r : Registry Key) (other : String) (now : ℕ)
        → Spent r
        → Spent (consume_ticket r other now).0
    unfolding consume_ticket
    consume_ticket-Spent r other now h = ground (
      arith,
      get-remove r.tickets other ticket,
      λ (o : Option (ℕ × Context Key)).
          use_context-Spent (record r { tickets = remove r.tickets other }) o now,
    )

    destroy_list-Spent :
        (r : Registry Key) (d : DestroyedContexts) (es : List (ℕ × Context Key))
        → Spent r
        → Spent (destroy_list r d es).0
    unfolding destroy_list
    destroy_list-Spent r d [] h = h
    destroy_list-Spent r d ((a, x) ∷ es) h =
        let d' = record d { tickets = d.tickets + count_tickets x.ctx_id r.tickets } in
        destroy_list-Spent (destroy r x.ctx_id).0
          (if (destroy r x.ctx_id).1 then tally d' x.kind x.ctx_id else d') es
          (destroy-Spent r x.ctx_id h)

    destroy_device-Spent :
        (r : Registry Key) (device : String) → Spent r → Spent (destroy_device r device).0
    unfolding destroy_device
    destroy_device-Spent r device h =
        destroy_list-Spent r (record { socket_ctx_ids = []; rest_ctx_ids = []; tickets = 0 })
          (for_device r device) h

    issue_ticket-Spent :
        (r : Registry Key) (other ctx_id : String) (now : ℕ)
        → not (str_eq other ticket) ≡ true
        → Spent r
        → Spent (issue_ticket r other ctx_id now)
    unfolding issue_ticket sweep_tickets
    issue_ticket-Spent r other ctx_id now differs h = ground (
      arith,
      get-put (keep_tickets (λ t. ltb now t.expires_at) r.tickets) other
          (record { ctx_id = ctx_id; expires_at = now + ticket_ttl_ms }) ticket,
      get-keep_none (λ t. ltb now t.expires_at) r.tickets ticket h,
      eq_iff other ticket,
      eq_iff ticket other,
    )

    destroyed_at-Spent :
        (r : Registry Key) (a : ℕ) (o : Option (Context Key))
        → Spent r
        → Spent (elim o [ none ↦ r | some x ↦ (destroy_owned r a x).0 ])
    destroyed_at-Spent r a none h = h
    destroyed_at-Spent r a (some x) h = destroy_owned-Spent r a x h

    after-Spent :
        (r : Registry Key) (c : Call Key)
        → issues_none ticket c ≡ true
        → Spent r
        → Spent (after r c)
    unfolding after clear get
    after-Spent r (opens device kind raw ctx_id keys now) unissued h =
        open_context-Spent r device kind raw ctx_id keys now h
    after-Spent r (looks_up id now) unissued h = lookup-Spent r id now h
    after-Spent r (destroys id) unissued h = destroy-Spent r id h
    after-Spent r (destroys_owned a) unissued h = destroyed_at-Spent r a (get_elem? r.objects a) h
    after-Spent r (destroys_device device) unissued h = destroy_device-Spent r device h
    after-Spent r (issues other ctx_id now) unissued h =
        issue_ticket-Spent r other ctx_id now unissued h
    after-Spent r (consumes other now) unissued h = consume_ticket-Spent r other now h
    after-Spent r (sweeps device now) unissued h = sweep_device-Spent r device now h
    after-Spent r clears unissued h = refl

    run-Spent :
        (r : Registry Key) (cs : List (Call Key))
        → All (λ c. issues_none ticket c ≡ true) cs
        → Spent r
        → Spent (run r cs)
    unfolding run
    run-Spent r [] unissued h = h
    run-Spent r (c ∷ cs) (u, us) h = run-Spent (after r c) cs us (after-Spent r c u h)

    presented-Spent : (r : Registry Key) (now : ℕ) → Spent (consume_ticket r ticket now).0
    unfolding consume_ticket
    presented-Spent r now = ground (
      arith,
      get-remove r.tickets ticket ticket,
      eq_refl ticket,
      λ (o : Option (ℕ × Context Key)).
          use_context-Spent (record r { tickets = remove r.tickets ticket }) o now,
    )

    Spent-refused : (r : Registry Key) (now : ℕ) → Spent r → (consume_ticket r ticket now).1 ≡ none
    unfolding consume_ticket
    Spent-refused r now h = ground arith

  -- A ticket that was presented, whatever that gave, gives nothing at any later presentation,
  -- whatever calls of the registry were made in between, as long as none issues this same ticket
  -- again.
  pub consumed_once :
      (r : Registry Key) (ticket : String) (now later : ℕ) (cs : List (Call Key))
      → All (λ c. issues_none ticket c ≡ true) cs
      → (consume_ticket (run (consume_ticket r ticket now).0 cs) ticket later).1 ≡ none
  consumed_once r ticket now later cs unissued =
      let spent = consume_ticket r ticket now in
      Spent-refused ticket (run spent.0 cs) later
        (run-Spent ticket spent.0 cs unissued (presented-Spent ticket r now))
