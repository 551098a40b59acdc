-- ===== src/Relay/Flow/Steps.antt =====
-- Histories of the flow sender's calls: what they send, and what becomes of the credit.
use mathlib.Core.List.{append_assoc, append-nil}
use threadbase_streamer.Prelude.{
  ℕ, ◌+◌, ◌≤◌, ◌≡◌, refl, sym, ap, ◌∙◌, List, [], ◌∷◌, ◌++◌, Option, none, some, Bool, true, false,
  ltb, arith, if◌then◌else◌, inl, inr, Bool-cases, subst,
}
use threadbase_streamer.Relay.Flow.{
  FlowSender, FlowEvent, emit, pause, resume, done, Granted, exceeds, granted, flush, settle, work,
  write, grant, end, stream_window_bytes,
}
use threadbase_streamer.Relay.Flow.Invariant.{sent, messages, whole, Clean, flush_loop-Flushed}

pub data Op : Type 0 where
  writes : List ℕ → Op
  grants : ℕ → Op
  ends : Op

-- A refused grant throws and changes nothing.
abbrev pub outcome : FlowSender → Granted → Option (FlowSender × List FlowEvent)
outcome s exceeds = some (s, [])
outcome s (granted r) = r

unfoldable pub step : ℕ → FlowSender → Op → Option (FlowSender × List FlowEvent)
step max_piece s (writes chunk) = write max_piece s chunk
step max_piece s (grants more) = outcome s (grant max_piece s more)
step max_piece s ends = some (end s)

abbrev pub carry :
    List FlowEvent → Option (FlowSender × List FlowEvent) → Option (FlowSender × List FlowEvent)
carry es none = none
carry es (some (s, fs)) = some (s, es ++ fs)

unfoldable pub run : ℕ → FlowSender → List Op → Option (FlowSender × List FlowEvent)
run max_piece s [] = some (s, [])
run max_piece s (op ∷ ops) = elim (step max_piece s op) [
  | none ↦ none
  | some (s', es) ↦ carry es (run max_piece s' ops)
]

unfoldable pub written : List Op → List (List ℕ)
written [] = []
written (writes chunk ∷ ops) = chunk ∷ written ops
written (grants more ∷ ops) = written ops
written (ends ∷ ops) = written ops

-- The chunk of one call, and the credit that it brings.
abbrev chunk_of : Op → List (List ℕ)
chunk_of (writes chunk) = chunk ∷ []
chunk_of (grants more) = []
chunk_of ends = []

abbrev gained : FlowSender → Op → ℕ
gained s (writes chunk) = 0
gained s (grants more) = if ltb stream_window_bytes (s.credit + more) then 0 else more
gained s ends = 0

messages-append :
    (acc : List ℕ) (es fs : List FlowEvent)
    → ((messages acc (es ++ fs)).0 ≡ (messages acc es).0 ++ (messages (messages acc es).1 fs).0)
      × ((messages acc (es ++ fs)).1 ≡ (messages (messages acc es).1 fs).1)
unfolding messages
messages-append acc [] fs = (refl, refl)
messages-append acc (emit bytes true ∷ es) fs =
    (ap (λ ms. (acc ++ bytes) ∷ ms) (messages-append [] es fs).0, (messages-append [] es fs).1)
messages-append acc (emit bytes false ∷ es) fs = messages-append (acc ++ bytes) es fs
messages-append acc (pause ∷ es) fs = messages-append acc es fs
messages-append acc (resume ∷ es) fs = messages-append acc es fs
messages-append acc (done ∷ es) fs = messages-append acc es fs

sent-append : (es fs : List FlowEvent) → sent (es ++ fs) ≡ sent es + sent fs
unfolding sent
sent-append [] fs = omega arith
sent-append (emit bytes last ∷ es) fs = omega (arith, sent-append es fs)
sent-append (pause ∷ es) fs = sent-append es fs
sent-append (resume ∷ es) fs = sent-append es fs
sent-append (done ∷ es) fs = sent-append es fs

sent-settle : (waits : Bool) (queue : List (List ℕ)) → sent (settle waits queue).1 ≡ 0
unfolding settle sent
sent-settle waits (head ∷ queue) = refl
sent-settle false [] = refl
sent-settle true [] = refl

messages-settle :
    (acc : List ℕ) (es : List FlowEvent) (waits : Bool) (queue : List (List ℕ))
    → messages acc (es ++ (settle waits queue).1) ≡ messages acc es
unfolding messages settle
messages-settle acc [] waits (head ∷ queue) = refl
messages-settle acc [] false [] = refl
messages-settle acc [] true [] = refl
messages-settle acc (emit bytes true ∷ es) waits queue =
    ap (λ m. ((acc ++ bytes) ∷ m.0, m.1)) (messages-settle [] es waits queue)
messages-settle acc (emit bytes false ∷ es) waits queue =
    messages-settle (acc ++ bytes) es waits queue
messages-settle acc (pause ∷ es) waits queue = messages-settle acc es waits queue
messages-settle acc (resume ∷ es) waits queue = messages-settle acc es waits queue
messages-settle acc (done ∷ es) waits queue = messages-settle acc es waits queue

-- What calls do to a sender whose front chunk has had `acc` sent of it.
abbrev pub IsStepped :
    List ℕ → FlowSender → ℕ → List (List ℕ) → FlowSender → List FlowEvent → Type 0
IsStepped acc s gain chunks s' events =
    (s.credit + gain ≡ s'.credit + sent events)
    × ((messages acc events).0 ++ whole (messages acc events).1 s'.queue
        ≡ whole acc s.queue ++ chunks)
    × Clean (messages acc events).1 s'.queue

abbrev pub Stepped :
    List ℕ → FlowSender → ℕ → List (List ℕ) → Option (FlowSender × List FlowEvent) → Type 0
Stepped acc s gain chunks result =
    (s' : FlowSender) × (events : List FlowEvent) × (result ≡ some (s', events))
    × IsStepped acc s gain chunks s' events

flush-Stepped :
    (max_piece : ℕ) (acc : List ℕ) (s : FlowSender)
    → 1 ≤ max_piece
    → Clean acc s.queue
    → Stepped acc s 0 [] (flush max_piece s)
unfolding flush
flush-Stepped max_piece acc s hm clean =
    let (left, rest, events, ran, (spent, kept, stopped, cleaned)) =
      flush_loop-Flushed (work s.queue) max_piece acc s.credit s.queue hm (omega arith) in
    let after = (settle s.on_drained rest).1 in
    let same = messages-settle acc events s.on_drained rest in
    (
      record { credit = left; queue = rest; on_drained = (settle s.on_drained rest).0 },
      events ++ after,
      ground arith,
      (
        omega (arith, sent-append events after, sent-settle s.on_drained rest, spent),
        ap (λ m. m.0 ++ whole m.1 rest) same ∙ kept ∙ sym (append-nil (whole acc s.queue)),
        subst (λ m. Clean m.1 rest) (sym same) (cleaned clean),
      ),
    )

whole-append :
    (acc : List ℕ) (queue : List (List ℕ)) (chunk : List ℕ)
    → Clean acc queue
    → (whole acc (queue ++ chunk ∷ []) ≡ whole acc queue ++ chunk ∷ [])
      × Clean acc (queue ++ chunk ∷ [])
unfolding whole Clean
whole-append acc [] chunk clean = (ap (λ a. (a ++ chunk) ∷ []) clean, tt)
whole-append acc (head ∷ queue) chunk clean = (refl, tt)

pub end_lem :
    (acc : List ℕ) (s : FlowSender)
    → ((end s).0.credit ≡ s.credit)
      × ((end s).0.queue ≡ s.queue)
      × (sent (end s).1 ≡ 0)
      × (messages acc (end s).1 ≡ ([], acc))
unfolding end sent messages
end_lem acc s = (ground arith, ground arith, ground arith, ground arith)

step-Stepped :
    (max_piece : ℕ) (acc : List ℕ) (s : FlowSender) (op : Op)
    → 1 ≤ max_piece
    → Clean acc s.queue
    → Stepped acc s (gained s op) (chunk_of op) (step max_piece s op)
unfolding step write grant messages sent
step-Stepped max_piece acc s (writes chunk) hm clean =
    let (fits, clean') = whole-append acc s.queue chunk clean in
    let (s', es, ran, (credit, kept, cleaned)) =
      flush-Stepped max_piece acc (record s { queue = s.queue ++ chunk ∷ [] }) hm clean' in
    (s', es, ran, (credit, kept ∙ append-nil (whole acc (s.queue ++ chunk ∷ [])) ∙ fits, cleaned))
step-Stepped max_piece acc s (grants more) hm clean =
    let (s', es, ran, (credit, kept, cleaned)) =
      flush-Stepped max_piece acc (record s { credit = s.credit + more }) hm clean in
    elim (Bool-cases (ltb stream_window_bytes (s.credit + more))) [
      | inl e ↦ (s, [], ground arith, (ground arith, sym (append-nil (whole acc s.queue)), clean))
      | inr e ↦ (s', es, ground arith, (ground arith, kept, cleaned))
    ]
step-Stepped max_piece acc s ends hm clean =
    let (credit, queue, none_sent, none_done) = end_lem acc s in
    (
      (end s).0,
      (end s).1,
      refl,
      (
        omega (arith, credit, none_sent),
        ap (λ m. m.0 ++ whole m.1 (end s).0.queue) none_done
            ∙ ap (λ q. whole acc q) queue
            ∙ sym (append-nil (whole acc s.queue)),
        subst (λ m. Clean m.1 (end s).0.queue) (sym none_done)
            (subst (λ q. Clean acc q) (sym queue) clean),
      ),
    )

-- The state and the credit after a history.
abbrev next : FlowSender → Option (FlowSender × List FlowEvent) → FlowSender
next s none = s
next s (some (s', es)) = s'

unfoldable pub gained_by : ℕ → FlowSender → List Op → ℕ
unfolding step
gained_by max_piece s [] = 0
gained_by max_piece s (op ∷ ops) =
    gained s op + gained_by max_piece (next s (step max_piece s op)) ops

written-cons : (op : Op) (ops : List Op) → chunk_of op ++ written ops ≡ written (op ∷ ops)
unfolding written
written-cons (writes chunk) ops = refl
written-cons (grants more) ops = refl
written-cons ends ops = refl

-- Two stages of delivery, put together.
rejoin {ℓ} :
    {A : Type ℓ} (first second rest middle more before chunk : List A)
    → second ++ rest ≡ middle ++ more
    → first ++ middle ≡ before ++ chunk
    → first ++ second ++ rest ≡ before ++ (chunk ++ more)
rejoin first second rest middle more before chunk h k =
    append_assoc first second rest
    ∙ ap (λ t. first ++ t) h
    ∙ sym (append_assoc first middle more)
    ∙ ap (λ t. t ++ more) k
    ∙ append_assoc before chunk more

pub run-Stepped :
    (max_piece : ℕ) (acc : List ℕ) (s : FlowSender) (ops : List Op)
    → 1 ≤ max_piece
    → Clean acc s.queue
    → Stepped acc s (gained_by max_piece s ops) (written ops) (run max_piece s ops)
unfolding run gained_by written messages sent
run-Stepped max_piece acc s [] hm clean =
    (s, [], refl, (refl, sym (append-nil (whole acc s.queue)), clean))
run-Stepped max_piece acc s (op ∷ ops) hm clean =
    let (s', es, ran, (credit, kept, cleaned)) = step-Stepped max_piece acc s op hm clean in
    let (s'', fs, ran', (credit', kept', cleaned')) =
      run-Stepped max_piece (messages acc es).1 s' ops hm cleaned in
    let (chunks, left) = messages-append acc es fs in
    (
      s'',
      es ++ fs,
      ground arith,
      (
        ground (arith, sent-append es fs),
        ap (λ m. m ++ whole (messages acc (es ++ fs)).1 s''.queue) chunks
            ∙ ap
                (λ a.
                  (messages acc es).0 ++ (messages (messages acc es).1 fs).0 ++ whole a s''.queue)
                left
            ∙ rejoin (messages acc es).0 (messages (messages acc es).1 fs).0 _ _ _ _ _ kept' kept
            ∙ ap (λ cs. whole acc s.queue ++ cs) (written-cons op ops),
        subst (λ a. Clean a s''.queue) (sym left) cleaned',
      ),
    )
