-- ===== src/Sessions/Store/History.antt =====
-- The store under any sequence of its calls: each session stands under its own id.
use threadbase_streamer.Prelude.{
  ℕ, ◌≡◌, refl, List, [], ◌∷◌, Option, none, some, String, str_eq, arith, eq_iff, ◌∙◌, subst, Bool,
  true, ◌&&◌, All,
}
use threadbase_streamer.Prelude.Dict.{Dict, get, put, remove, get-put, get-remove}
use threadbase_streamer.Sessions.Dedupe.{ProgressDedupeLru, create_progress_dedupe_lru}
use threadbase_streamer.Sessions.Store.{
  ManagedSession, DiscoveredProcess, SessionStore, SessionStatus, Update, add_managed,
  init_agent_session, with_lru, assign_one, assign, settle_status, status_in, updated_by,
  update_managed, remove_managed, set_discovered, drop_discovered, running, waiting_input, idle,
  new_id,
}

-- A call of the store, with its arguments.
pub data Call : Type 0 where
  add : ManagedSession → Call
  init_agent : String → ℕ → Call
  update : String → List Update → Call
  forget : String → Call
  discover : List DiscoveredProcess → Call
  drop_process : ℕ → Call

abbrev kept : SessionStore → Option SessionStore → SessionStore
kept store none = store
kept store (some s) = s

-- A call that throws leaves the store as it was.
unfoldable pub after : SessionStore → Call → SessionStore
after store (add s) = add_managed s store
after store (init_agent id capacity) = kept store (init_agent_session id capacity store)
after store (update id us) = (update_managed id us store).0
after store (forget id) = (remove_managed id store).0
after store (discover ds) = set_discovered ds store
after store (drop_process pid) = drop_discovered pid store

unfoldable pub run : SessionStore → List Call → SessionStore
run store [] = store
run store (c ∷ cs) = run (after store c) cs

abbrev pub empty : SessionStore
empty = record { managed = []; discovered = [] }

-- Each entry's key is the id of its session, and no later entry has it.
abbrev pub Keyed : Dict ManagedSession → Type 0
Keyed [] = Unit
Keyed ((key, s) ∷ rest) = (s.id ≡ key) × (get rest key ≡ none) × Keyed rest

put-Keyed :
    (m : Dict ManagedSession) (s : ManagedSession) (id : String)
    → s.id ≡ id
    → Keyed m
    → Keyed (put m id s)
unfolding put get
put-Keyed [] s id e k = (e, refl, tt)
put-Keyed ((key, old) ∷ rest) s id e (a, b, c) =
    ground (arith, eq_iff id key, eq_iff key id, get-put rest id s key, put-Keyed rest s id e c)

remove-Keyed : (m : Dict ManagedSession) (id : String) → Keyed m → Keyed (remove m id)
unfolding remove get
remove-Keyed [] id k = tt
remove-Keyed ((key, old) ∷ rest) id (a, b, c) =
    ground (arith, get-remove rest id key, remove-Keyed rest id c)

get-Keyed :
    (m : Dict ManagedSession) (id : String) (s : ManagedSession)
    → Keyed m
    → get m id ≡ some s
    → s.id ≡ id
unfolding get
get-Keyed [] id s k h = absurd (ground arith)
get-Keyed ((key, old) ∷ rest) id s (a, b, c) h =
    ground (arith, eq_iff id key, get-Keyed rest id s c)

-- Whether an update writes no id but this one, and whether a call gives no session another id.
names_only : String → List Update → Bool
names_only id [] = true
names_only id (new_id v ∷ us) = str_eq v id && names_only id us
names_only id (u ∷ us) = names_only id us

unfoldable pub keeps_id : Call → Bool
unfolding names_only
keeps_id (update id us) = names_only id us
keeps_id c = true

assign-id :
    (id : String) (us : List Update) (s : ManagedSession)
    → names_only id us ≡ true
    → s.id ≡ id
    → (assign us s).id ≡ id
unfolding assign assign_one names_only
assign-id id [] s own e = e
assign-id id (new_id v ∷ us) s own e =
    assign-id id us (record s { id = v }) (ground arith) (ground (arith, eq_iff v id))
assign-id id (u ∷ us) s own e = assign-id id us (assign_one u s) own e

settle_status-id :
    (status : Option SessionStatus) (s : ManagedSession) → (settle_status status s).id ≡ s.id
unfolding settle_status
settle_status-id none s = refl
settle_status-id (some running) s = refl
settle_status-id (some waiting_input) s = refl
settle_status-id (some idle) s = refl

updated_by-id :
    (id : String) (us : List Update) (s : ManagedSession)
    → names_only id us ≡ true
    → s.id ≡ id
    → (updated_by us s).id ≡ id
updated_by-id id us s own e =
    settle_status-id (status_in us) (assign us s) ∙ assign-id id us s own e

with_lru-Keyed :
    (store : SessionStore) (id : String) (s : ManagedSession) (lru : Option ProgressDedupeLru)
    → s.id ≡ id
    → Keyed store.managed
    → Keyed (kept store (with_lru store id s lru)).managed
unfolding with_lru
with_lru-Keyed store id s none e k = k
with_lru-Keyed store id s (some lru) e k =
    put-Keyed store.managed (record s { progress_dedupe_ids = some lru }) id e k

init_agent-Keyed :
    (store : SessionStore) (id : String) (capacity : ℕ)
    → Keyed store.managed
    → Keyed (kept store (init_agent_session id capacity store)).managed
unfolding init_agent_session
init_agent-Keyed store id capacity k = found (get store.managed id) refl
  where
    started :
        (s : ManagedSession) (lru : Option ProgressDedupeLru)
        → get store.managed id ≡ some s
        → Keyed
            (kept store (elim lru [
              | some _ ↦ some store
              | none ↦ with_lru store id s (create_progress_dedupe_lru capacity)
            ])).managed
    started s none e =
        with_lru-Keyed store id s (create_progress_dedupe_lru capacity)
          (get-Keyed store.managed id s k e) k
    started s (some lru) e = k

    found :
        (o : Option ManagedSession)
        → get store.managed id ≡ o
        → Keyed
            (kept store (elim o [
              | none ↦ some store
              | some s ↦ elim s.progress_dedupe_ids [
                | some _ ↦ some store
                | none ↦ with_lru store id s (create_progress_dedupe_lru capacity)
              ]
            ])).managed
    found none e = k
    found (some s) e = started s s.progress_dedupe_ids e

update-Keyed :
    (store : SessionStore) (id : String) (us : List Update) (o : Option ManagedSession)
    → names_only id us ≡ true
    → get store.managed id ≡ o
    → Keyed store.managed
    → Keyed (update_managed id us store).0.managed
unfolding update_managed
update-Keyed store id us none own e k = subst (λ t. Keyed t) (ground arith) k
update-Keyed store id us (some s) own e k =
    subst (λ t. Keyed t) (ground arith)
      (put-Keyed store.managed (updated_by us s) id
        (updated_by-id id us s own (get-Keyed store.managed id s k e)) k)

after-Keyed :
    (store : SessionStore) (c : Call)
    → keeps_id c ≡ true
    → Keyed store.managed
    → Keyed (after store c).managed
unfolding after add_managed remove_managed set_discovered drop_discovered keeps_id
after-Keyed store (add s) own k = put-Keyed store.managed s s.id refl k
after-Keyed store (init_agent id capacity) own k = init_agent-Keyed store id capacity k
after-Keyed store (update id us) own k = update-Keyed store id us (get store.managed id) own refl k
after-Keyed store (forget id) own k = remove-Keyed store.managed id k
after-Keyed store (discover ds) own k = k
after-Keyed store (drop_process pid) own k = k

-- A sequence of calls that gives no session another id leaves each session under its own id.
pub run-Keyed :
    (store : SessionStore) (cs : List Call)
    → All (λ c. keeps_id c ≡ true) cs
    → Keyed store.managed
    → Keyed (run store cs).managed
unfolding run
run-Keyed store [] own k = k
run-Keyed store (c ∷ cs) (o, own) k = run-Keyed (after store c) cs own (after-Keyed store c o k)
