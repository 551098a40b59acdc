-- ===== src/Relay/Flow/Tests.antt =====
-- The flow sender on a history of calls.
use threadbase_streamer.Prelude.{◌+◌, ◌≡◌, List, [], ◌∷◌, ◌++◌, some, arith}
use threadbase_streamer.Relay.Flow.{FlowSender, FlowEvent, create_flow_sender, stream_window_bytes}
use threadbase_streamer.Relay.Flow.Invariant.{sent, messages, whole}
use threadbase_streamer.Relay.Flow.Steps.{Op, writes, grants, ends, run, written, gained_by}
use threadbase_streamer.Relay.Flow.Delivery.{IsFlowing, delivered}

abbrev history : List Op
history = writes (1 ∷ 2 ∷ 3 ∷ []) ∷ writes (4 ∷ []) ∷ ends ∷ grants 2 ∷ grants 300000 ∷ []

delivered_example :
    (s : FlowSender) × (events : List FlowEvent) × (run 2 create_flow_sender history
      ≡ some (s, events))
    × (s.credit + sent events ≡ stream_window_bytes + gained_by 2 create_flow_sender history)
    × ((messages [] events).0 ++ whole (messages [] events).1 s.queue ≡ written history)
    × IsFlowing s
delivered_example = delivered 2 history (omega arith)
