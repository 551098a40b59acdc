-- ===== src/Relay/Flow/Delivery.antt =====
-- What the flow sender promises over any history of its calls.
use threadbase_streamer.Prelude.{
  ℕ, ◌+◌, ◌≤◌, ◌≡◌, refl, sym, ◌∙◌, List, [], ◌∷◌, ◌++◌, some, ltb, arith, inl, inr, Bool-cases,
  Option-cases, ◌⊎◌, subst,
}
use threadbase_streamer.Relay.Flow.{
  FlowSender, FlowEvent, create_flow_sender, flush, settle, work, write, grant, end,
  stream_window_bytes,
}
use threadbase_streamer.Relay.Flow.Steps.{
  Op, writes, grants, ends, step, run, written, gained_by, end_lem, run-Stepped,
}
use threadbase_streamer.Relay.Flow.Invariant.{sent, messages, whole, Clean, flush_loop-Flushed}

-- The sender does not stall: it holds bytes back only for want of credit.
abbrev pub IsFlowing : FlowSender → Type 0
IsFlowing s = (s.queue ≡ []) ⊎ (s.credit ≡ 0)

flush-IsFlowing :
    (max_piece : ℕ) (s s' : FlowSender) (es : List FlowEvent)
    → 1 ≤ max_piece
    → flush max_piece s ≡ some (s', es)
    → IsFlowing s'
unfolding flush
flush-IsFlowing max_piece s s' es hm h =
    let (left, rest, events, ran, (spent, kept, stopped, cleaned)) =
      flush_loop-Flushed (work s.queue) max_piece [] s.credit s.queue hm (omega arith) in
    let same : s'
        ≡ record { credit = left; queue = rest; on_drained = (settle s.on_drained rest).0 } =
      ground arith in
    subst IsFlowing (sym same) stopped

step-IsFlowing :
    (max_piece : ℕ) (s s' : FlowSender) (op : Op) (es : List FlowEvent)
    → 1 ≤ max_piece
    → IsFlowing s
    → step max_piece s op ≡ some (s', es)
    → IsFlowing s'
unfolding step write grant
step-IsFlowing max_piece s s' (writes chunk) es hm flows h =
    flush-IsFlowing max_piece (record s { queue = s.queue ++ chunk ∷ [] }) s' es hm h
step-IsFlowing max_piece s s' (grants more) es hm flows h =
    elim (Bool-cases (ltb stream_window_bytes (s.credit + more))) [
      | inl e ↦ (let same : s' ≡ s = ground arith in subst IsFlowing (sym same) flows)
      | inr e ↦
          flush-IsFlowing max_piece (record s { credit = s.credit + more }) s' es hm (ground arith)
    ]
step-IsFlowing max_piece s s' ends es hm flows h =
    let (credit, queue, _, _) = end_lem [] s in
    let same : s' ≡ (end s).0 = ground arith in
    subst IsFlowing (sym same) (elim flows [ inl e ↦ inl (queue ∙ e) | inr e ↦ inr (credit ∙ e) ])

run-IsFlowing :
    (max_piece : ℕ) (s s' : FlowSender) (ops : List Op) (es : List FlowEvent)
    → 1 ≤ max_piece
    → IsFlowing s
    → run max_piece s ops ≡ some (s', es)
    → IsFlowing s'
unfolding run
run-IsFlowing max_piece s s' [] es hm flows h =
    let same : s' ≡ s = ground arith in subst IsFlowing (sym same) flows
run-IsFlowing max_piece s s' (op ∷ ops) es hm flows h = elim (Option-cases (step max_piece s op)) [
  | inl e ↦ absurd (ground arith)
  | inr ((t, fs), e) ↦ elim (Option-cases (run max_piece t ops)) [
    | inl k ↦ absurd (ground arith)
    | inr ((u, gs), k) ↦
        (let same : s' ≡ u = ground arith in
          run-IsFlowing max_piece t s' ops gs hm (step-IsFlowing max_piece s t op fs hm flows e)
            (rw same k))
  ]
]

-- Over any history of `write`, `grant` and `end` calls, refused grants among them, the sender
-- returns from each call; what it sent and the credit it has left make up the window and the credit
-- granted; the chunks that its pieces make up, then the piece under way joined to the queue, are the
-- chunks written, in order and with their bounds; and bytes wait only if no credit is left.
pub delivered :
    (max_piece : ℕ) (ops : List Op)
    → 1 ≤ max_piece
    → (s : FlowSender) × (events : List FlowEvent) × (run max_piece create_flow_sender ops
        ≡ some (s, events))
      × (s.credit + sent events ≡ stream_window_bytes + gained_by max_piece create_flow_sender ops)
      × ((messages [] events).0 ++ whole (messages [] events).1 s.queue ≡ written ops)
      × IsFlowing s
unfolding create_flow_sender whole Clean
delivered max_piece ops hm =
    let (s, events, ran, (credit, kept, clean)) =
      run-Stepped max_piece [] create_flow_sender ops hm refl in
    (
      s,
      events,
      ran,
      sym credit,
      kept,
      run-IsFlowing max_piece create_flow_sender s ops events hm (inl refl) ran,
    )
