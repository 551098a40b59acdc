-- ===== src/Relay/Flow/Invariant.antt =====
-- The loop of `flush`: it ends, it spends the credit of what it sends, and it stops only for want
-- of bytes or of credit.
use threadbase_streamer.Prelude.{
  ℕ, zero, suc, ◌+◌, ◌-◌, ◌≤◌, ◌≡◌, refl, List, [], ◌∷◌, ◌++◌, some, true, false, ◌==◌, ==_iff,
  length, length-take, length-drop, take, drop, arith, Bool-cases, inl, inr, ◌⊎◌, ap, ◌∙◌,
  take-append-drop,
}
use mathlib.Core.List.{append_assoc}
use threadbase_streamer.Relay.Flow.{FlowEvent, emit, pause, resume, done, flush_loop, piece, work}

unfoldable pub sent : List FlowEvent → ℕ
sent [] = 0
sent (emit bytes last ∷ es) = length bytes + sent es
sent (pause ∷ es) = sent es
sent (resume ∷ es) = sent es
sent (done ∷ es) = sent es

-- The chunks that the pieces make up, and the piece of the chunk that is still under way. A piece
-- marked `last` ends its chunk.
unfoldable pub messages : List ℕ → List FlowEvent → List (List ℕ) × List ℕ
messages acc [] = ([], acc)
messages acc (emit bytes true ∷ es) = let (ms, left) = messages [] es in ((acc ++ bytes) ∷ ms, left)
messages acc (emit bytes false ∷ es) = messages (acc ++ bytes) es
messages acc (pause ∷ es) = messages acc es
messages acc (resume ∷ es) = messages acc es
messages acc (done ∷ es) = messages acc es

-- The queue with what was sent of its head put back.
unfoldable pub whole : List ℕ → List (List ℕ) → List (List ℕ)
whole acc [] = []
whole acc (head ∷ queue) = (acc ++ head) ∷ queue

-- No piece is under way where no chunk waits.
unfoldable pub Clean : List ℕ → List (List ℕ) → Type 0
Clean acc [] = acc ≡ []
Clean acc (head ∷ queue) = Unit

-- What a run of the loop does: the credit that it spends, the bytes that it keeps, and why it stops.
take_all : (n : ℕ) (xs : List ℕ) → n ≡ length xs → take n xs ≡ xs
take_all zero [] h = refl
take_all zero (x ∷ xs) h = absurd (omega arith)
take_all (suc n) [] h = refl
take_all (suc n) (x ∷ xs) h = ap (λ t. x ∷ t) (take_all n xs (omega arith))

abbrev pub IsFlushed : List ℕ → ℕ → ℕ → List (List ℕ) → List (List ℕ) → List FlowEvent → Type 0
IsFlushed acc credit left queue rest events =
    (credit ≡ left + sent events)
    × ((messages acc events).0 ++ whole (messages acc events).1 rest ≡ whole acc queue)
    × ((rest ≡ []) ⊎ (left ≡ 0))
    × (Clean acc queue → Clean (messages acc events).1 rest)

abbrev pub Flushed : ℕ → ℕ → List ℕ → ℕ → List (List ℕ) → Type 0
Flushed fuel max_piece acc credit queue =
    (left : ℕ) × (rest : List (List ℕ)) × (events : List FlowEvent) × (flush_loop fuel max_piece
        credit queue
      ≡ some (left, rest, events))
    × IsFlushed acc credit left queue rest events

whole-nil : (queue : List (List ℕ)) → whole [] queue ≡ queue
unfolding whole
whole-nil [] = refl
whole-nil (head ∷ queue) = refl

Clean-nil : (queue : List (List ℕ)) → Clean [] queue
unfolding Clean
Clean-nil [] = refl
Clean-nil (head ∷ queue) = tt

-- A turn that sends the whole of the chunk at the front.
turn_whole :
    (fuel max_piece : ℕ) (acc : List ℕ) (c : ℕ) (head : List ℕ) (queue : List (List ℕ))
    → piece max_piece (suc c) head ≡ length head
    → Flushed fuel max_piece [] (suc c - piece max_piece (suc c) head) queue
    → Flushed (suc fuel) max_piece acc (suc c) (head ∷ queue)
unfolding flush_loop sent messages whole Clean
turn_whole fuel max_piece acc c head queue e
      (left, rest, events, run, (spent, kept, stopped, clean)) =
    let size = piece max_piece (suc c) head in
    (
      left,
      rest,
      emit (take size head) true ∷ events,
      ground (arith, ==_iff size (length head)),
      (
        omega (arith, length-take size head),
        ground (arith, take_all size head (omega arith), whole-nil queue),
        stopped,
        λ h. clean (Clean-nil queue),
      ),
    )

-- A turn that leaves a part of it.
turn_part :
    (fuel max_piece : ℕ) (acc : List ℕ) (c : ℕ) (head : List ℕ) (queue : List (List ℕ))
    → (piece max_piece (suc c) head == length head) ≡ false
    → Flushed fuel max_piece
        (acc ++ take (piece max_piece (suc c) head) head)
        (suc c - piece max_piece (suc c) head)
        (drop (piece max_piece (suc c) head) head ∷ queue)
    → Flushed (suc fuel) max_piece acc (suc c) (head ∷ queue)
unfolding flush_loop sent messages whole Clean
turn_part fuel max_piece acc c head queue e
      (left, rest, events, run, (spent, kept, stopped, clean)) =
    let size = piece max_piece (suc c) head in
    (
      left,
      rest,
      emit (take size head) false ∷ events,
      ground arith,
      (
        omega (arith, length-take size head),
        kept
            ∙ ap (λ b. b ∷ queue)
                (append_assoc acc (take size head) (drop size head)
                  ∙ ap (λ b. acc ++ b) (take-append-drop size head)),
        stopped,
        λ h. clean tt,
      ),
    )

pub flush_loop-Flushed :
    (fuel max_piece : ℕ) (acc : List ℕ) (credit : ℕ) (queue : List (List ℕ))
    → 1 ≤ max_piece
    → work queue ≤ fuel
    → Flushed fuel max_piece acc credit queue
unfolding flush_loop work sent messages whole
flush_loop-Flushed zero max_piece acc credit [] hm hf = absurd (omega arith)
flush_loop-Flushed zero max_piece acc credit (head ∷ queue) hm hf = absurd (omega arith)
flush_loop-Flushed (suc fuel) max_piece acc credit [] hm hf =
    (credit, [], [], refl, (omega arith, refl, inl refl, λ h. h))
flush_loop-Flushed (suc fuel) max_piece acc zero (head ∷ queue) hm hf =
    (0, head ∷ queue, [], refl, (omega arith, refl, inr refl, λ h. h))
flush_loop-Flushed (suc fuel) max_piece acc (suc c) (head ∷ queue) hm hf =
    let size = piece max_piece (suc c) head in
    elim (Bool-cases (size == length head)) [
      | inl e ↦
          turn_whole fuel max_piece acc c head queue (((==_iff size (length head)).0 e))
            (flush_loop-Flushed fuel max_piece [] (suc c - size) queue hm (omega arith))
      | inr e ↦ turn_part fuel max_piece acc c head queue e (
          flush_loop-Flushed fuel max_piece (acc ++ take size head) (suc c - size)
            (drop size head ∷ queue) hm
            (ground (arith, length-drop size head, ==_iff size (length head))))
    ]
