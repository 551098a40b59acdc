-- ===== src/Relay/Flow.antt =====
-- src/relay/flow.ts: credit-based flow control of one stream. What the sender hands to its
-- callbacks (`emit`, the source's `pause` and `resume`, `done`) is the list of events of the call.
-- The parsing of a WINDOW payload is not modelled.
pub mod Invariant
pub mod Steps
pub mod Delivery
pub mod Tests
use threadbase_streamer.Prelude.{
  ℕ, zero, suc, ◌+◌, ◌-◌, List, [], ◌∷◌, ◌++◌, Option, none, some, Bool, true, false, ltb, leb,
  ◌==◌, length, take, drop, min, if◌then◌else◌,
}

abbrev pub stream_window_bytes : ℕ
stream_window_bytes = 262144

pub data FlowEvent : Type 0 where
  emit : List ℕ → Bool → FlowEvent
  pause resume done : FlowEvent

-- `queue` is oldest first, `on_drained` says whether `end` waits for the queue.
pub record FlowSender : Type 0 where
  pub credit : ℕ
  pub queue : List (List ℕ)
  pub on_drained : Bool

-- `outstanding` is `received - given_back`, which may be negative.
pub record FlowReceiver : Type 0 where
  pub received : ℕ
  pub given_back : ℕ

unfoldable pub create_flow_sender : FlowSender
create_flow_sender = record { credit = stream_window_bytes; queue = []; on_drained = false }

-- The size of the piece that goes next.
abbrev pub piece : ℕ → ℕ → List ℕ → ℕ
piece max_piece credit head = min (min (length head) credit) max_piece

-- The loop of `flush`, one turn for each piece of fuel.
unfoldable pub flush_loop : ℕ → ℕ → ℕ → List (List ℕ) → Option (ℕ × List (List ℕ) × List FlowEvent)
flush_loop zero max_piece credit queue = none
flush_loop (suc fuel) max_piece credit [] = some (credit, [], [])
flush_loop (suc fuel) max_piece zero (head ∷ queue) = some (0, head ∷ queue, [])
flush_loop (suc fuel) max_piece (suc c) (head ∷ queue) =
    let size = piece max_piece (suc c) head in
    let whole = size == length head in
    let turn =
      flush_loop fuel max_piece (suc c - size) (if whole then queue else drop size head ∷ queue) in
    elim turn [
      | none ↦ none
      | some (left, rest, events) ↦ some (left, rest, emit (take size head) whole ∷ events)
    ]

-- After the loop: pause while bytes wait; else resume, and tell the one who waits for the end.
unfoldable pub settle : Bool → List (List ℕ) → Bool × List FlowEvent
settle on_drained (head ∷ queue) = (on_drained, pause ∷ [])
settle false [] = (false, resume ∷ [])
settle true [] = (false, resume ∷ done ∷ [])

-- Every turn sends a byte or takes a chunk off.
unfoldable pub work : List (List ℕ) → ℕ
work [] = 1
work (chunk ∷ queue) = suc (length chunk + work queue)

unfoldable pub flush : ℕ → FlowSender → Option (FlowSender × List FlowEvent)
unfolding flush_loop settle work
flush max_piece s = elim (flush_loop (work s.queue) max_piece s.credit s.queue) [
  | none ↦ none
  | some (credit, queue, events) ↦
      (let (waits, after) = settle s.on_drained queue in
        some (record { credit = credit; queue = queue; on_drained = waits }, events ++ after))
]

unfoldable pub write : ℕ → FlowSender → List ℕ → Option (FlowSender × List FlowEvent)
write max_piece s chunk = flush max_piece (record s { queue = s.queue ++ chunk ∷ [] })

pub data Granted : Type 0 where
  exceeds : Granted
  granted : Option (FlowSender × List FlowEvent) → Granted

-- `grant` throws where the credit would pass the window, before it changes anything.
unfoldable pub grant : ℕ → FlowSender → ℕ → Granted
grant max_piece s more =
    if ltb stream_window_bytes (s.credit + more)
    then exceeds
    else granted (flush max_piece (record s { credit = s.credit + more }))

unfoldable pub end : FlowSender → FlowSender × List FlowEvent
end s = elim s.queue [ [] ↦ (s, done ∷ []) | head ∷ queue ↦ (record s { on_drained = true }, []) ]

unfoldable pub create_flow_receiver : FlowReceiver
create_flow_receiver = record { received = 0; given_back = 0 }

-- False where the peer sent more than it was granted.
unfoldable pub accept : FlowReceiver → ℕ → FlowReceiver × Bool
accept r bytes = (
  record r { received = r.received + bytes },
  leb (r.received + bytes) (stream_window_bytes + r.given_back),
)

-- The credit that is granted back, if any.
unfoldable pub drained : FlowReceiver → ℕ → FlowReceiver × Option ℕ
drained r bytes =
    if bytes == 0 then (r, none) else (record r { given_back = r.given_back + bytes }, some bytes)
