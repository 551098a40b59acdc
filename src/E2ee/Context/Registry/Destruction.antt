-- ===== src/E2ee/Context/Registry/Destruction.antt =====
-- What is left of a context that the registry destroys: its handle, its tickets, and the object
-- that holders of it still have.
use threadbase_streamer.Prelude.{
  ℕ, ◌<◌, ◌≡◌, ◌≢◌, refl, List, none, some, not, String, str_eq, leb, leb→le, le→leb, eq_iff,
  eq_refl, arith, get_elem?, get_elem?-set, set, ◌≤◌, ◌⊎◌, inl, inr, Bool-cases,
}
use threadbase_streamer.Prelude.Dict.{get, remove, get-remove}
use threadbase_streamer.E2ee.Protocol.{err, ctx_unknown}
use threadbase_streamer.E2ee.Record.{Aead}
use threadbase_streamer.E2ee.Context.{
  Context, deadline, invalidate, unseal_request, seal_response, send_state, receive_state,
}
use threadbase_streamer.E2ee.Context.Registry.{
  Registry, Ticket, consume_ticket, keep_tickets, destroy, find, lookup,
}
use threadbase_streamer.E2ee.Context.Registry.Tickets.{get-keep_tickets}

module _ {Key : Type 0} where
  -- No operation of the context seals or opens anything.
  abbrev pub Refuses : Aead Key → Context Key → ℕ → ℕ → List ℕ → List ℕ → ℕ → ℕ → Type 0
  Refuses aead x channel counter frame target limit now =
      (send_state x channel ≡ err ctx_unknown)
      × (receive_state x channel ≡ err ctx_unknown)
      × ((unseal_request aead x frame target limit now).1 ≡ err ctx_unknown)
      × ((seal_response aead x counter frame target).1 ≡ err ctx_unknown)

  -- Destroying a handle leaves the other handles' tickets.
  pub tickets-destroy :
      (r : Registry Key) (id : String)
      → (destroy r id).0.tickets ≡ keep_tickets (λ t. not (str_eq t.ctx_id id)) r.tickets
  unfolding destroy
  tickets-destroy r id = ground arith

  contexts-destroy :
      (r : Registry Key) (id : String)
      → find r id ≢ none
      → (destroy r id).0.contexts ≡ remove r.contexts id
  unfolding destroy
  contexts-destroy r id h = ground arith

  objects-destroy :
      (r : Registry Key) (id : String) (a : ℕ) (x : Context Key)
      → find r id ≡ some (a, x)
      → (destroy r id).0.objects ≡ set r.objects a (invalidate x)
  unfolding destroy
  objects-destroy r id a x h = ground arith

  -- The entry that a ticket's handle comes from.
  consumed :
      (r : Registry Key) (ticket id : String) (now : ℕ)
      → (consume_ticket r ticket now).1 ≡ some id
      → (t : Ticket) × ((get r.tickets ticket ≡ some t) × (t.ctx_id ≡ id))
  unfolding consume_ticket
  consumed r ticket id now h = ground arith

  -- After `destroy` no ticket leads to the handle, whether or not it named a context.
  pub destroy-tickets :
      (r : Registry Key) (id ticket : String) (now : ℕ)
      → (consume_ticket (destroy r id).0 ticket now).1 ≢ some id
  destroy-tickets r id ticket now h =
      let (t, (kept, same)) = consumed (destroy r id).0 ticket id now h in
      ground (
        arith,
        get-keep_tickets (λ t. not (str_eq t.ctx_id id)) r.tickets ticket t,
        tickets-destroy r id,
        eq_iff t.ctx_id id,
      )

  find-object :
      (r : Registry Key) (id : String) (a : ℕ) (x : Context Key)
      → find r id ≡ some (a, x)
      → get_elem? r.objects a ≡ some x
  unfolding find
  find-object r id a x h = ground arith

  find-removed : (r : Registry Key) (id : String) → get r.contexts id ≡ none → find r id ≡ none
  unfolding find
  find-removed r id h = ground arith

  find-destroy :
      (r : Registry Key) (id : String) → find r id ≢ none → find (destroy r id).0 id ≡ none
  find-destroy r id h =
      find-removed (destroy r id).0 id
        (ground (arith, contexts-destroy r id h, get-remove r.contexts id id, eq_refl id))

  -- An invalidated context refuses every operation, whoever still holds it.
  invalidate-Refuses :
      (aead : Aead Key) (x : Context Key) (channel counter : ℕ) (frame target : List ℕ)
      (limit now : ℕ)
      → Refuses aead (invalidate x) channel counter frame target limit now
  unfolding invalidate unseal_request seal_response send_state receive_state
  invalidate-Refuses aead x channel counter frame target limit now = (refl, refl, refl, refl)

  -- Destroying a context that a handle names takes the handle out, lets no ticket lead to it, and
  -- leaves every holder of the object with one that refuses each operation.
  pub destroyed_context :
      (aead : Aead Key) (r : Registry Key) (id : String) (a : ℕ) (x : Context Key)
      → find r id ≡ some (a, x)
      → (channel counter : ℕ) (frame target : List ℕ) (limit now : ℕ) (ticket : String)
      → (find (destroy r id).0 id ≡ none)
        × ((consume_ticket (destroy r id).0 ticket now).1 ≢ some id)
        × (get_elem? (destroy r id).0.objects a ≡ some (invalidate x))
        × Refuses aead (invalidate x) channel counter frame target limit now
  destroyed_context aead r id a x h channel counter frame target limit now ticket = (
    find-destroy r id (ground arith),
    destroy-tickets r id ticket now,
    ground (
      arith,
      objects-destroy r id a x h,
      get_elem?-set r.objects a x (invalidate x) (find-object r id a x h),
    ),
    invalidate-Refuses aead x channel counter frame target limit now,
  )

  -- A lookup gives the object that the handle names, before its deadline; at its deadline or after
  -- it gives nothing and the handle is gone.
  lookup-deadline :
      (r : Registry Key) (id : String) (now a : ℕ) (x : Context Key)
      → find r id ≡ some (a, x)
      → (now < deadline x × ((lookup r id now).1 ≡ some a))
        ⊎ ((deadline x ≤ now)
            × (((lookup r id now).1 ≡ none) × (find (lookup r id now).0 id ≡ none)))
  unfolding lookup
  lookup-deadline r id now a x h = elim (Bool-cases (leb (deadline x) now)) [
    | inl e ↦ inr (leb→le (deadline x) now e, ground (arith, find-destroy r id))
    | inr e ↦ inl (ground (arith, le→leb (deadline x) now), ground arith)
  ]
