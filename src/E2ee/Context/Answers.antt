-- ===== src/E2ee/Context/Answers.antt =====
-- What a REST context does with a request, and with the response that the request is owed.
use threadbase_streamer.Prelude.{
  ℕ, ◌<◌, ◌^◌, ◌≡◌, refl, ap, ◌∙◌, List, [], ◌∷◌, some, true, ==_iff, has, arith, length, String,
}
use threadbase_streamer.Prelude.Int.{pos}
use threadbase_streamer.E2ee.Protocol.{ok, err, RejectionCode, sequence_violation}
use threadbase_streamer.E2ee.RestWindow
use threadbase_streamer.E2ee.RestWindow.{RestReceiveWindow}
use threadbase_streamer.E2ee.RestWindow.Admission.{admit_again}
use threadbase_streamer.E2ee.Record
use threadbase_streamer.E2ee.Record.{
  Aead, RecordState, channel_rest_request, channel_rest_response, is_valid_target,
  target_hash_bytes, seal_with, record_header, record_aad,
}
use threadbase_streamer.E2ee.Record.Sealer
use threadbase_streamer.E2ee.Record.Sealer.{RestResponseSealer, spend, response_header}
use threadbase_streamer.E2ee.Record.Sealer.Invariant.{has-append}
use threadbase_streamer.E2ee.Record.Sealer.Response.{seal_waiting, seal_spent}
use threadbase_streamer.E2ee.Context.{
  Context, rest, TrafficKeys, create, unseal_request, seal_response, responded,
}
use threadbase_streamer.E2ee.Context.Coupling.{armed}
use threadbase_streamer.E2ee.Context.Requests.{
  IsServing, unseal_request-served, served, served-IsServing, unseal_request-refused, served-parts,
}
use threadbase_streamer.E2ee.Context.History.{
  Call, run, create-IsServing, run-IsServing, seal_response-responded, seal_response-some,
}

admit-bound :
    (w : RestReceiveWindow) (c : ℕ) (w' : RestReceiveWindow)
    → RestWindow.admit w (pos c) ≡ ok w'
    → c < 256 ^ 8
unfolding RestWindow.admit
admit-bound w c w' h = ground arith

module _ {Key : Type 0} (aead : Aead Key) where
  -- A frame authenticates with counter `c`, and the window admits `c`.
  pub record Admissible (x : Context Key) (frame target : List ℕ) (limit : ℕ) (p : List ℕ) (c : ℕ)
      : Type 0 where
    pub state : RecordState Key
    pub seen : RestReceiveWindow
    pub moved : RestReceiveWindow
    pub receive : x.receive ≡ (channel_rest_request, state) ∷ []
    pub window : x.window ≡ some seen
    pub authentic : Record.unseal_unchecked aead state frame target limit ≡ ok (p, c)
    pub admitted : RestWindow.admit seen (pos c) ≡ ok moved

  -- The parts that the hypothesis names are the context's own.
  own_parts :
      (x : Context Key) (v : IsServing x) (frame target : List ℕ) (limit : ℕ) (p : List ℕ) (c : ℕ)
      → Admissible x frame target limit p c
      → (w' : RestReceiveWindow) × (Record.unseal_unchecked aead v.at frame target limit
          ≡ ok (p, c))
        × (RestWindow.admit v.seen (pos c) ≡ ok w')
  own_parts x v frame target limit p c a =
      (a.moved, rw (← same_state) a.authentic, rw (← same_window) a.admitted)
    where
      same_state : a.state ≡ v.at
      same_state = ground (arith, a.receive, v.receive)

      same_window : a.seen ≡ v.seen
      same_window = ground (arith, a.window, v.window)

module _ {Key : Type 0} (aead : Aead Key) (id : String) (raw : List ℕ) (device : String)
    (keys : TrafficKeys Key) (start : ℕ) (x : Context Key)
    (made : create id raw device rest keys start ≡ ok x) (ys : List Call) where
  serving : IsServing (run aead x ys)
  serving = run-IsServing aead x ys (create-IsServing id raw device keys start x made)

  module _ (frame target : List ℕ) (limit now : ℕ) (p : List ℕ) (c : ℕ)
      (a : Admissible aead (run aead x ys) frame target limit p c) where
    parts :
        (w' : RestReceiveWindow) × (Record.unseal_unchecked aead serving.at frame target limit
          ≡ ok (p, c))
        × (RestWindow.admit serving.seen (pos c) ≡ ok w')
    parts = own_parts aead (run aead x ys) serving frame target limit p c a

    answered_context : Context Key
    answered_context = served aead (run aead x ys) serving frame target limit now parts.0 c

    request-served :
        unseal_request aead (run aead x ys) frame target limit now ≡ (answered_context, ok p)
    unfolding answered_context
    request-served =
        unseal_request-served aead (run aead x ys) serving frame target limit now p c parts.0
          parts.1 parts.2

    served-serving : IsServing answered_context
    unfolding answered_context
    served-serving =
        served-IsServing aead (run aead x ys) serving frame target limit now c parts.0 parts.2

    same_parts :
        (served-serving.at ≡ serving.at)
        × (served-serving.seen ≡ parts.0)
        × (served-serving.sealer ≡ armed serving.sealer c)
    unfolding answered_context served-serving
    same_parts = served-parts aead (run aead x ys) serving frame target limit now c parts.0 parts.2

    waiting : has c served-serving.sealer.outstanding ≡ true
    waiting = rw same_parts.2 (
        ground (
          arith,
          has-append c (Sealer.advance_to serving.sealer c).outstanding (c ∷ []),
          ==_iff c c,
        ))

    -- The window admits no counter of more than 8 bytes.
    in_range : c < 256 ^ 8
    in_range = admit-bound serving.seen c parts.0 parts.2

    answered :
        (q t : List ℕ)
        → length t ≡ target_hash_bytes
        → (f : List ℕ) × (seal_response aead answered_context c q t
            ≡ (record answered_context { responses = some (spend served-serving.sealer c) }, ok f))
    unfolding responded
    answered q t h =
        let (f, sealed) =
          seal_waiting aead served-serving.sealer c q t waiting h served-serving.handle in_range in
        (
          f,
          seal_response-responded aead answered_context c q t served-serving
              ∙ ap (responded answered_context) sealed,
        )

    refused_again :
        (r t : List ℕ)
        → (e : RejectionCode) × ((seal_response aead
              (record answered_context { responses = some (spend served-serving.sealer c) })
              c
              r
              t).1
            ≡ err e)
    unfolding responded
    refused_again r t =
        let (e, spent) = seal_spent aead served-serving.sealer c r t in
        (
          e,
          ap (λ z. z.1)
              (seal_response-some aead _ c r t (spend served-serving.sealer c) refl
                ∙ ap
                    (responded (record answered_context {
                      responses = some (spend served-serving.sealer c);
                    }))
                    spent),
        )

    -- After any history of a REST context, a request whose frame authenticates and whose counter
    -- the window admits is handed on with its plaintext: the response sealer never refuses it.
    pub request_accepted : (unseal_request aead (run aead x ys) frame target limit now).1 ≡ ok p
    request_accepted = ap (λ r. r.1) request-served

    -- The same frame, sent again, is refused as a sequence violation.
    pub request_replayed :
        (later : ℕ)
        → (unseal_request aead
            (unseal_request aead (run aead x ys) frame target limit now).0
            frame
            target
            limit
            later).1
          ≡ err sequence_violation
    request_replayed later = rw request-served (
        unseal_request-refused aead answered_context served-serving frame target limit later p c
          sequence_violation (rw same_parts.0 parts.1)
          (rw same_parts.1 (admit_again serving.seen c parts.0 serving.coupled.seen parts.2)))

    -- The one response that it is owed can be sealed, over any 32-byte target, and no second one.
    pub response_once :
        (q r t : List ℕ)
        → length t ≡ target_hash_bytes
        → let x' = (unseal_request aead (run aead x ys) frame target limit now).0 in
          let answer = seal_response aead x' c q t in
          ((f : List ℕ) × (answer.1 ≡ ok f))
          × ((e : RejectionCode) × ((seal_response aead answer.0 c r t).1 ≡ err e))
    response_once q r t h =
        rw request-served
          (let (f, e) = answered q t h in ((f, ap (λ z. z.1) e), rw e (refused_again r t)))
