-- ===== src/E2ee/Context/Requests.antt =====
-- The request channel of a REST context over a whole history of requests and responses.
use threadbase_streamer.Prelude.{ℕ, ◌≡◌, refl, ap, ◌∙◌, List, [], ◌∷◌, some, arith, length}
use threadbase_streamer.Prelude.Int.{pos}
use threadbase_streamer.E2ee.Protocol.{Result, ok, err, RejectionCode}
use threadbase_streamer.E2ee.RestWindow
use threadbase_streamer.E2ee.RestWindow.{RestReceiveWindow}
use threadbase_streamer.E2ee.Record
use threadbase_streamer.E2ee.Record.{Aead, RecordState, channel_rest_request}
use threadbase_streamer.E2ee.Record.Sealer
use threadbase_streamer.E2ee.Record.Sealer.{RestResponseSealer}
use threadbase_streamer.E2ee.Context.{
  Context, mark_used, unseal_request, opened, admitted, accepted,
}
use threadbase_streamer.E2ee.Context.Coupling.{Coupled, armed, accept-admit}

module _ {Key : Type 0} where
  -- A REST context in service: its parts are there, and the window and the sealer are coupled.
  pub record IsServing (x : Context Key) : Type 0 where
    pub at : RecordState Key
    pub seen : RestReceiveWindow
    pub sealer : RestResponseSealer Key
    pub receive : x.receive ≡ (channel_rest_request, at) ∷ []
    pub window : x.window ≡ some seen
    pub responses : x.responses ≡ some sealer
    pub coupled : Coupled seen sealer
    pub handle : length sealer.ctx_id ≡ 16

  mark_used-IsServing : (x : Context Key) (now : ℕ) → IsServing x → IsServing (mark_used x now)
  unfolding mark_used
  mark_used-IsServing x now v = record {
    at = v.at;
    seen = v.seen;
    sealer = v.sealer;
    receive = ground (arith, v.receive);
    window = ground (arith, v.window);
    responses = ground (arith, v.responses);
    coupled = v.coupled;
    handle = v.handle;
  }

  advance_to-ctx_id :
      (s : RestResponseSealer Key) (c : ℕ) → (Sealer.advance_to s c).ctx_id ≡ s.ctx_id
  unfolding Sealer.advance_to
  advance_to-ctx_id s c = ground arith

  module _ (aead : Aead Key) (x : Context Key) (v : IsServing x) (frame target : List ℕ)
      (limit now : ℕ) where
    -- A request on a context in service runs through its own three parts.
    unseal_request-opened :
        unseal_request aead x frame target limit now
        ≡ opened x v.sealer v.seen now (Record.unseal_unchecked aead v.at frame target limit)
    unfolding unseal_request
    unseal_request-opened = rw (v.responses, v.window, v.receive)

    -- The context after a request whose counter was admitted.
    abbrev pub served : RestReceiveWindow → ℕ → Context Key
    served w' c = mark_used (record x { window = some w'; responses = some (armed v.sealer c) }) now

    pub unseal_request-served :
        (p : List ℕ) (c : ℕ) (w' : RestReceiveWindow)
        → Record.unseal_unchecked aead v.at frame target limit ≡ ok (p, c)
        → RestWindow.admit v.seen (pos c) ≡ ok w'
        → unseal_request aead x frame target limit now ≡ (served w' c, ok p)
    unfolding opened admitted accepted
    unseal_request-served p c w' e a =
        unseal_request-opened
        ∙ rw e (rw a (rw (accept-admit v.seen w' v.sealer c v.coupled a).0 refl))

    pub served-IsServing :
        (c : ℕ) (w' : RestReceiveWindow)
        → RestWindow.admit v.seen (pos c) ≡ ok w'
        → IsServing (served w' c)
    served-IsServing c w' a = mark_used-IsServing _ now (record {
      at = v.at;
      seen = w';
      sealer = armed v.sealer c;
      receive = v.receive;
      window = refl;
      responses = refl;
      coupled = (accept-admit v.seen w' v.sealer c v.coupled a).1;
      handle = ap length (advance_to-ctx_id v.sealer c) ∙ v.handle;
    })

    -- A counter that the window refuses is refused with the window's code.
    pub unseal_request-refused :
        (p : List ℕ) (c : ℕ) (e : RejectionCode)
        → Record.unseal_unchecked aead v.at frame target limit ≡ ok (p, c)
        → RestWindow.admit v.seen (pos c) ≡ err e
        → (unseal_request aead x frame target limit now).1 ≡ err e
    unfolding opened admitted
    unseal_request-refused p c e h k = rw unseal_request-opened (rw h (rw k refl))

    -- The parts of the context after a request.
    pub served-parts :
        (c : ℕ) (w' : RestReceiveWindow) (a : RestWindow.admit v.seen (pos c) ≡ ok w')
        → ((served-IsServing c w' a).at ≡ v.at)
          × ((served-IsServing c w' a).seen ≡ w')
          × ((served-IsServing c w' a).sealer ≡ armed v.sealer c)
    unfolding served-IsServing mark_used-IsServing
    served-parts c w' a = (refl, refl, refl)

    -- Either the request throws and the context is as before, or it is served.
    pub request_cases :
        (P : Context Key × Result (List ℕ) → Type 0)
        → ((e : RejectionCode) → P (x, err e))
        → ((p : List ℕ) (c : ℕ) (w' : RestReceiveWindow)
            → Record.unseal_unchecked aead v.at frame target limit ≡ ok (p, c)
            → RestWindow.admit v.seen (pos c) ≡ ok w'
            → P (served w' c, ok p))
        → P (unseal_request aead x frame target limit now)
    unfolding opened admitted
    request_cases P thrown taken =
        of_frame (Record.unseal_unchecked aead v.at frame target limit) refl
      where
        of_counter :
            (p : List ℕ) (c : ℕ) (a : Result RestReceiveWindow)
            → Record.unseal_unchecked aead v.at frame target limit ≡ ok (p, c)
            → RestWindow.admit v.seen (pos c) ≡ a
            → P (unseal_request aead x frame target limit now)
        of_counter p c (err e) h k = rw unseal_request-opened (rw h (rw k (thrown e)))
        of_counter p c (ok w') h k = rw (unseal_request-served p c w' h k) (taken p c w' h k)

        of_frame :
            (r : Result (List ℕ × ℕ))
            → Record.unseal_unchecked aead v.at frame target limit ≡ r
            → P (unseal_request aead x frame target limit now)
        of_frame (err e) h = rw unseal_request-opened (rw h (thrown e))
        of_frame (ok (p, c)) h = of_counter p c (RestWindow.admit v.seen (pos c)) h refl

    pub request-IsServing : IsServing (unseal_request aead x frame target limit now).0
    request-IsServing =
        request_cases (λ r. IsServing r.0) (λ e. v) (λ p c w' h k. served-IsServing c w' k)
