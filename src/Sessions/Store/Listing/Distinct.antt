-- ===== src/Sessions/Store/Listing/Distinct.antt =====
-- The listing shows no id twice, whatever calls made the store.
use threadbase_streamer.Prelude.{
  ℕ, ◌≡◌, refl, List, [], ◌∷◌, ◌++◌, none, true, false, All, String, str_eq, arith, eq_iff,
  Option-cases, Bool-cases, inl, inr,
}
use threadbase_streamer.Prelude.Dict.{Dict, get}
use threadbase_streamer.Sessions.Store.{ManagedSession, DiscoveredProcess, SessionStore}
use threadbase_streamer.Sessions.Store.History.{Call, run, keeps_id, empty, Keyed, run-Keyed}
use threadbase_streamer.Sessions.Store.Listing.{
  SessionResponse, View, is_listed, list_managed, list_discovered, list_sessions, has_id, is_new,
  managed_to_response, discovered_to_response,
}

abbrev pub Distinct : List SessionResponse → Type 0
Distinct [] = Unit
Distinct (x ∷ xs) = (has_id x.id xs ≡ false) × Distinct xs

has_id-append :
    (id : String) (xs : List SessionResponse) (y : SessionResponse)
    → has_id id xs ≡ false
    → str_eq y.id id ≡ false
    → has_id id (xs ++ y ∷ []) ≡ false
has_id-append id [] y h k = ground arith
has_id-append id (x ∷ xs) y h k = ground (arith, has_id-append id xs y)

-- A response whose id is new goes at the end.
Distinct-append :
    (xs : List SessionResponse) (y : SessionResponse)
    → Distinct xs
    → has_id y.id xs ≡ false
    → Distinct (xs ++ y ∷ [])
Distinct-append [] y d h = (refl, tt)
Distinct-append (x ∷ xs) y (a, b) h = (
  has_id-append x.id xs y a (ground (arith, eq_iff y.id x.id, eq_iff x.id y.id)),
  Distinct-append xs y b (ground arith),
)

module _ (view : View) (store : SessionStore) (now : ℕ) where
  -- An id with no entry is not in the managed part of the list.
  has_id-list_managed :
      (m : Dict ManagedSession) (id : String)
      → Keyed m
      → get m id ≡ none
      → has_id id (list_managed view store now m) ≡ false
  unfolding list_managed get managed_to_response
  has_id-list_managed [] id k h = refl
  has_id-list_managed ((key, s) ∷ rest) id (a, b, c) h =
      elim (Bool-cases (is_listed view store s)) [
        | inl e ↦
            rw e (ground (arith, eq_iff id key, eq_iff s.id id, has_id-list_managed rest id c))
        | inr e ↦ rw e (has_id-list_managed rest id c (ground arith))
      ]

  list_managed-Distinct :
      (m : Dict ManagedSession) → Keyed m → Distinct (list_managed view store now m)
  unfolding list_managed managed_to_response
  list_managed-Distinct [] k = tt
  list_managed-Distinct ((key, s) ∷ rest) (a, b, c) = elim (Bool-cases (is_listed view store s)) [
    | inl e ↦ rw e (has_id-list_managed rest s.id c (rw a b), list_managed-Distinct rest c)
    | inr e ↦ rw e (list_managed-Distinct rest c)
  ]

  list_discovered-Distinct :
      (ds : List DiscoveredProcess) (seen : List SessionResponse)
      → Distinct seen
      → Distinct (list_discovered view store now ds seen)
  unfolding list_discovered discovered_to_response
  list_discovered-Distinct [] seen d = d
  list_discovered-Distinct (p ∷ ps) seen d = elim (Option-cases p.conversation_id) [
    | inl e ↦ rw e (list_discovered-Distinct ps seen d)
    | inr (id, e) ↦ rw e (elim (Bool-cases (is_new view store seen id)) [
      | inl f ↦ rw f (
          list_discovered-Distinct ps (seen ++ discovered_to_response p id now ∷ [])
            (Distinct-append seen (discovered_to_response p id now) d (ground arith)))
      | inr f ↦ rw f (list_discovered-Distinct ps seen d)
    ])
  ]

-- After any sequence of calls of a new store in which no update gives a session an id other than
-- its own, the list of sessions has each id once.
pub list_sessions-Distinct :
    (view : View) (now : ℕ) (cs : List Call)
    → All (λ c. keeps_id c ≡ true) cs
    → Distinct (list_sessions view (run empty cs) now)
unfolding list_sessions
list_sessions-Distinct view now cs own =
    list_discovered-Distinct view (run empty cs) now (run empty cs).discovered _ (
      list_managed-Distinct view (run empty cs) now (run empty cs).managed
        (run-Keyed empty cs own tt))
