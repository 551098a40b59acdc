-- ===== src/E2ee/Context/Registry.antt =====
-- src/e2ee/context.ts, the class `E2eeContextRegistry`. A context is an object that its holders
-- share: `objects` holds each at the address of its creation, and `contexts` maps a handle to an
-- address. The random ticket and handle are arguments.
pub mod Tickets
pub mod Spent
pub mod Eviction
pub mod Destruction
pub mod Tests
use threadbase_streamer.Prelude.{
  ℕ, ◌+◌, ◌-◌, List, [], ◌∷◌, ◌++◌, Option, none, some, Bool, true, false, not, ◌&&◌, ◌==◌, leb,
  ltb, String, str_eq, length, get_elem?, set, take, keep_if, if◌then◌else◌,
}
use threadbase_streamer.Prelude.Dict.{Dict, get, put, remove}
use threadbase_streamer.E2ee.Protocol.{Result, ok, err}
use threadbase_streamer.E2ee.Context
use threadbase_streamer.E2ee.Context.{
  Context, ContextKind, ws, rest, TrafficKeys, deadline, retire, mark_used, invalidate,
  ticket_ttl_ms,
}

abbrev pub max_ws_contexts_per_device : ℕ
max_ws_contexts_per_device = 4

abbrev pub max_rest_contexts_per_device : ℕ
max_rest_contexts_per_device = 2

abbrev pub context_drain_ms : ℕ
context_drain_ms = 10000

pub record Ticket : Type 0 where
  pub ctx_id : String
  pub expires_at : ℕ

pub record Registry (Key : Type 0) : Type 0 where
  pub objects : List (Context Key)
  pub contexts : Dict ℕ
  pub by_device : Dict (List String)
  pub tickets : Dict Ticket

pub record DestroyedContexts : Type 0 where
  pub socket_ctx_ids : List String
  pub rest_ctx_ids : List String
  pub tickets : ℕ

abbrev pub is_kind : ContextKind → ContextKind → Bool
is_kind ws ws = true
is_kind rest rest = true
is_kind _ _ = false

abbrev pub cap_of : ContextKind → ℕ
cap_of ws = max_ws_contexts_per_device
cap_of rest = max_rest_contexts_per_device

-- `Map` entries whose ticket passes a test.
unfoldable pub keep_tickets : (Ticket → Bool) → Dict Ticket → Dict Ticket
keep_tickets p [] = []
keep_tickets p ((k, t) ∷ ts) = if p t then (k, t) ∷ keep_tickets p ts else keep_tickets p ts

count_tickets : String → Dict Ticket → ℕ
count_tickets id [] = 0
count_tickets id ((k, t) ∷ ts) = (if str_eq t.ctx_id id then 1 else 0) + count_tickets id ts

-- `Set.add` and `Set.delete` on a set of handles.
contains : String → List String → Bool
contains id [] = false
contains id (x ∷ xs) = if str_eq x id then true else contains id xs

unfoldable pub add : String → List String → List String
unfolding contains
add id xs = if contains id xs then xs else xs ++ id ∷ []

unfoldable pub drop_id : String → List String → List String
drop_id id = keep_if (λ x. not (str_eq x id))

unfoldable drop_from_device : Dict (List String) → String → String → Dict (List String)
drop_from_device m device id = elim (get m device) [
  | none ↦ m
  | some ids ↦ put m device (drop_id id ids)
]

abbrev tally : DestroyedContexts → ContextKind → String → DestroyedContexts
tally d ws id = record d { socket_ctx_ids = d.socket_ctx_ids ++ id ∷ [] }
tally d rest id = record d { rest_ctx_ids = d.rest_ctx_ids ++ id ∷ [] }

module _ {Key : Type 0} where
  unfoldable pub empty : Registry Key
  empty = record { objects = []; contexts = []; by_device = []; tickets = [] }

  -- The object that a handle names.
  abbrev found : List (Context Key) → Option ℕ → Option (ℕ × Context Key)
  found objects none = none
  found objects (some a) = elim (get_elem? objects a) [ none ↦ none | some x ↦ some (a, x) ]

  unfoldable pub find : Registry Key → String → Option (ℕ × Context Key)
  find r id = found r.objects (get r.contexts id)

  -- A write to a shared object.
  abbrev pub write : Registry Key → ℕ → Context Key → Registry Key
  write r a x = record r { objects = set r.objects a x }

  abbrev untied : Registry Key → String → Registry Key
  untied r id = record r { tickets = keep_tickets (λ t. not (str_eq t.ctx_id id)) r.tickets }

  -- `destroy`: the tickets first, whether or not the context is there.
  unfoldable pub destroy : Registry Key → String → Registry Key × Bool
  unfolding drop_from_device
  destroy r id = elim (find r id) [
    | none ↦ (untied r id, false)
    | some (a, x) ↦ (
      record (untied r id) {
        objects = set r.objects a (invalidate x);
        contexts = remove r.contexts id;
        by_device = drop_from_device r.by_device x.device_id id;
      },
      true,
    )
  ]

  -- `get`: a context past its deadline is destroyed.
  unfoldable pub lookup : Registry Key → String → ℕ → Registry Key × Option ℕ
  lookup r id now = elim (find r id) [
    | none ↦ (r, none)
    | some (a, x) ↦ if leb (deadline x) now then ((destroy r id).0, none) else (r, some a)
  ]

  resolve_all : Registry Key → List String → List (ℕ × Context Key)
  resolve_all r [] = []
  resolve_all r (id ∷ ids) = elim (find r id) [
    | none ↦ resolve_all r ids
    | some e ↦ e ∷ resolve_all r ids
  ]

  -- `forDevice`.
  pub for_device : Registry Key → String → List (ℕ × Context Key)
  unfolding resolve_all
  for_device r device = elim (get r.by_device device) [ none ↦ [] | some ids ↦ resolve_all r ids ]

  -- `destroyOwned`: only if the handle still names this very object.
  unfoldable pub destroy_owned : Registry Key → ℕ → Context Key → Registry Key × Bool
  destroy_owned r a x = elim (get r.contexts x.ctx_id) [
    | none ↦ (write r a (invalidate x), false)
    | some b ↦ if b == a then destroy r x.ctx_id else (write r a (invalidate x), false)
  ]

  unfoldable pub sweep_tickets : Registry Key → ℕ → Registry Key
  sweep_tickets r now = record r { tickets = keep_tickets (λ t. ltb now t.expires_at) r.tickets }

  -- `issueTicket`, with the random ticket.
  unfoldable pub issue_ticket : Registry Key → String → String → ℕ → Registry Key
  unfolding sweep_tickets
  issue_ticket r ticket ctx_id now =
      let r' = sweep_tickets r now in
      record r' {
        tickets =
            put r'.tickets ticket (record { ctx_id = ctx_id; expires_at = now + ticket_ttl_ms });
      }

  unfoldable pub use_context : Registry Key → Option (ℕ × Context Key) → ℕ → Registry Key
  use_context r none now = r
  use_context r (some (a, x)) now = write r a (mark_used x now)

  -- `consumeTicket`: the entry goes first, also where it has expired.
  unfoldable pub consume_ticket : Registry Key → String → ℕ → Registry Key × Option String
  unfolding use_context
  consume_ticket r ticket now = elim (get r.tickets ticket) [
    | none ↦ (r, none)
    | some t ↦
        (let r' = record r { tickets = remove r.tickets ticket } in
          if leb t.expires_at now
          then (r', none)
          else (use_context r' (find r' t.ctx_id) now, some t.ctx_id))
  ]

  unfoldable pub sweep_list : Registry Key → ℕ → List (ℕ × Context Key) → Registry Key
  sweep_list r now [] = r
  sweep_list r now ((a, x) ∷ xs) =
      sweep_list (if leb (deadline x) now then (destroy r x.ctx_id).0 else r) now xs

  unfoldable pub sweep_device : Registry Key → String → ℕ → Registry Key
  unfolding sweep_list
  sweep_device r device now = sweep_list r now (for_device r device)

  -- Whether `a` is evicted before `b`, or may stay before it: provisional contexts first, then the
  -- oldest.
  abbrev pub goes_first : Context Key → Context Key → Bool
  goes_first a b =
      if a.provisional
      then (if b.provisional then leb a.created_at b.created_at else true)
      else (if b.provisional then false else leb a.created_at b.created_at)

  -- The stable sort.
  place : ℕ × Context Key → List (ℕ × Context Key) → List (ℕ × Context Key)
  place e [] = e ∷ []
  place e (f ∷ fs) = if goes_first e.1 f.1 then e ∷ f ∷ fs else f ∷ place e fs

  unfoldable pub by_usefulness : List (ℕ × Context Key) → List (ℕ × Context Key)
  unfolding place
  by_usefulness [] = []
  by_usefulness (e ∷ es) = place e (by_usefulness es)

  abbrev pub is_candidate : ContextKind → ℕ × Context Key → Bool
  is_candidate kind (a, x) =
      is_kind x.kind kind && (elim x.retire_at [ none ↦ true | some at ↦ false ])

  pub candidates : Registry Key → String → ContextKind → List (ℕ × Context Key)
  candidates r device kind = by_usefulness (keep_if (is_candidate kind) (for_device r device))

  -- `candidates.slice(0, Math.max(0, candidates.length + 1 - cap))`.
  unfoldable pub victims : ContextKind → List (ℕ × Context Key) → List (ℕ × Context Key)
  victims kind es = take (length es + 1 - cap_of kind) es

  unfoldable pub retire_all : Registry Key → List (ℕ × Context Key) → ℕ → Registry Key
  retire_all r [] at = r
  retire_all r ((a, x) ∷ es) at = retire_all (write r a (retire x at)) es at

  unfoldable pub registered : Registry Key → Context Key → Registry Key × Result ℕ
  registered r x = (
    record r {
      objects = r.objects ++ x ∷ [];
      contexts = put r.contexts x.ctx_id (length r.objects);
      by_device =
          put r.by_device x.device_id
            (add x.ctx_id (elim (get r.by_device x.device_id) [ none ↦ [] | some ids ↦ ids ]));
    },
    ok (length r.objects),
  )

  -- `open`: sweep, evict down to the cap, create.
  unfoldable pub open_context :
      Registry Key
      → String
      → ContextKind
      → List ℕ
      → String
      → TrafficKeys Key
      → ℕ
      → Registry Key × Result ℕ
  unfolding sweep_tickets sweep_device retire_all registered
  open_context r device kind raw ctx_id keys now =
      let swept = sweep_tickets (sweep_device r device now) now in
      let r' =
        retire_all swept (victims kind (candidates swept device kind)) (now + context_drain_ms) in
      elim (Context.create ctx_id raw device kind keys now) [
        | ok x ↦ registered r' x
        | err e ↦ (r', err e)
      ]

  unfoldable pub destroy_list :
      Registry Key → DestroyedContexts → List (ℕ × Context Key) → Registry Key × DestroyedContexts
  unfolding count_tickets
  destroy_list r d [] = (r, d)
  destroy_list r d ((a, x) ∷ xs) =
      let d' = record d { tickets = d.tickets + count_tickets x.ctx_id r.tickets } in
      let (r', gone) = destroy r x.ctx_id in
      destroy_list r' (if gone then tally d' x.kind x.ctx_id else d') xs

  -- `destroyDevice`.
  unfoldable pub destroy_device : Registry Key → String → Registry Key × DestroyedContexts
  unfolding destroy_list
  destroy_device r device =
      let (r', d) =
        destroy_list r (record { socket_ctx_ids = []; rest_ctx_ids = []; tickets = 0 })
          (for_device r device) in
      (record r' { by_device = remove r'.by_device device }, d)

  invalidate_named : List (Context Key) → Dict ℕ → List (Context Key)
  invalidate_named objects [] = objects
  invalidate_named objects ((id, a) ∷ m) =
      invalidate_named
        (elim (get_elem? objects a) [ none ↦ objects | some x ↦ set objects a (invalidate x) ]) m

  -- `clear`.
  unfoldable pub clear : Registry Key → Registry Key
  unfolding invalidate_named
  clear r = record {
    objects = invalidate_named r.objects r.contexts;
    contexts = [];
    by_device = [];
    tickets = [];
  }
