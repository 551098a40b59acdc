-- ===== src/E2ee/Context/Registry/Tickets.antt =====
-- The tickets of the registry: what a presented ticket gives, and when.
use threadbase_streamer.Prelude.{
  ℕ, ◌+◌, ◌≡◌, none, some, Bool, true, String, [], ◌∷◌, leb, ltb, eq_refl, arith, if◌then◌else◌,
}
use threadbase_streamer.Prelude.Dict.{Dict, get, get-put}
use threadbase_streamer.E2ee.Context.{ticket_ttl_ms}
use threadbase_streamer.E2ee.Context.Registry.{
  Registry, Ticket, issue_ticket, consume_ticket, keep_tickets,
}

-- Tickets that a filter keeps passed its test.
pub get-keep_tickets :
    (p : Ticket → Bool) (m : Dict Ticket) (ticket : String) (t : Ticket)
    → get (keep_tickets p m) ticket ≡ some t
    → p t ≡ true
unfolding get keep_tickets
get-keep_tickets p [] ticket t h = ground arith
get-keep_tickets p ((k, u) ∷ m) ticket t h = ground (arith, get-keep_tickets p m ticket t)

module _ {Key : Type 0} where
  -- A new ticket is good for its context from its issue until 30 seconds later, and for nothing
  -- from then on.
  issued_window :
      (r : Registry Key) (ticket ctx_id : String) (now later : ℕ)
      → (consume_ticket (issue_ticket r ticket ctx_id now) ticket later).1
        ≡ (if leb (now + ticket_ttl_ms) later then none else some ctx_id)
  unfolding consume_ticket issue_ticket
  issued_window r ticket ctx_id now later = ground (
    arith,
    get-put (keep_tickets (λ t. ltb now t.expires_at) r.tickets) ticket
        (record { ctx_id = ctx_id; expires_at = now + ticket_ttl_ms }) ticket,
    eq_refl ticket,
  )
