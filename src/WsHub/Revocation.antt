-- ===== src/WsHub/Revocation.antt =====
-- What `closeDevice` and `closeContexts` do to each socket.
use threadbase_streamer.Prelude.{
  ℕ, ◌≡◌, refl, List, [], ◌∷◌, ◌++◌, none, some, Bool, true, false, ◌||◌, ◌&&◌, ◌==◌, ◌+◌, arith,
  has, ==_iff, String, str_eq, Option-cases, Bool-cases, inl, inr, if◌then◌else◌,
}
use threadbase_streamer.E2ee.Protocol.{RejectionCode, device_revoked}
use threadbase_streamer.E2ee.Context.{Context}
use threadbase_streamer.WsHub.{
  WsHub, Effect, closed, without, context_of, drop_context, object_at, forget_context,
  close_for_e2ee,
}
use threadbase_streamer.WsHub.Calls.{close_where, close_device}

abbrev is_revoked : RejectionCode → Bool
is_revoked device_revoked = true
is_revoked code = false

-- Whether a socket was closed as revoked.
abbrev pub was_revoked : ℕ → List Effect → Bool
was_revoked ws [] = false
was_revoked ws (closed x code ∷ es) =
    if x == ws then is_revoked code || was_revoked ws es else was_revoked ws es
was_revoked ws (e ∷ es) = was_revoked ws es

was_revoked-append :
    (ws x : ℕ) (es : List Effect)
    → was_revoked ws (es ++ closed x device_revoked ∷ []) ≡ (x == ws || was_revoked ws es)
was_revoked-append ws x [] = ground arith
was_revoked-append ws x (closed y code ∷ es) = ground (arith, was_revoked-append ws x es)
was_revoked-append ws x (e ∷ es) = was_revoked-append ws x es

has-without :
    (ws x : ℕ) (xs : List ℕ) → has ws (without x xs) ≡ (if x == ws then false else has ws xs)
has-without ws x [] = ground arith
has-without ws x (y ∷ ys) = ground (arith, has-without ws x ys)

context_of-drop_context :
    (es : List (ℕ × ℕ)) (x ws : ℕ)
    → context_of (drop_context es x) ws ≡ (if x == ws then none else context_of es ws)
unfolding context_of drop_context
context_of-drop_context [] x ws = ground arith
context_of-drop_context ((y, a) ∷ es) x ws = ground (arith, context_of-drop_context es x ws)

module _ {Key : Type 0} where
  -- How a hub stands to another in which the marked sockets were cut off as revoked.
  abbrev pub CutOff : WsHub Key → WsHub Key → ℕ → Bool → Type 0
  CutOff hub after ws marked =
      (context_of after.contexts ws ≡ (if marked then none else context_of hub.contexts ws))
      × (has ws after.clients ≡ (if marked then false else has ws hub.clients))
      × (was_revoked ws after.effects ≡ (marked || was_revoked ws hub.effects))

  close-CutOff :
      (hub : WsHub Key) (x ws : ℕ) → CutOff hub (close_for_e2ee x device_revoked hub) ws (x == ws)
  unfolding close_for_e2ee forget_context
  close-CutOff hub x ws = elim (Option-cases (context_of hub.contexts x)) [
    | inl e ↦ (
      ground (arith, ==_iff x ws),
      ground (arith, has-without ws x hub.clients),
      ground (arith, was_revoked-append ws x hub.effects),
    )
    | inr (a, e) ↦ (
      ground (arith, context_of-drop_context hub.contexts x ws),
      ground (arith, has-without ws x hub.clients),
      ground (arith, was_revoked-append ws x hub.effects),
    )
  ]

  -- Whether an entry of a socket has a context that passes the test.
  abbrev pub marked : (Context Key → Bool) → WsHub Key → List (ℕ × ℕ) → ℕ → Bool
  marked test start [] ws = false
  marked test start ((x, a) ∷ es) ws =
      (elim (object_at start a) [ none ↦ false | some c ↦ x == ws && test c ])
      || marked test start es ws

  close_where-CutOff :
      (test : Context Key → Bool) (start hub : WsHub Key) (es : List (ℕ × ℕ)) (n ws : ℕ)
      → CutOff hub (close_where test es start (hub, n)).0 ws (marked test start es ws)
  unfolding close_where
  close_where-CutOff test start hub [] n ws = (refl, refl, refl)
  close_where-CutOff test start hub ((x, a) ∷ es) n ws = elim (Option-cases (object_at start a)) [
    | inl e ↦ ground (arith, close_where-CutOff test start hub es n ws)
    | inr (c, e) ↦ elim (Bool-cases (test c)) [
      | inl f ↦ ground (
        arith,
        close_where-CutOff test start (close_for_e2ee x device_revoked hub) es (n + 1) ws,
        close-CutOff hub x ws,
      )
      | inr f ↦ ground (arith, close_where-CutOff test start hub es n ws)
    ]
  ]

  -- Revoking a device takes the context and the place among the clients from just the sockets that have
  -- a context of the device, and closes them as revoked; for any other socket all three stay.
  pub close_device_lem :
      (hub : WsHub Key) (device : String) (ws : ℕ)
      → CutOff hub
          (close_device device hub).0
          ws
          (marked (λ c. str_eq c.device_id device) hub hub.contexts ws)
  unfolding close_device
  close_device_lem hub device ws =
      close_where-CutOff (λ c. str_eq c.device_id device) hub hub hub.contexts 0 ws
