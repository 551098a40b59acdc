-- ===== src/E2ee/Record/Sealer/Once.antt =====
-- At most one response for each request counter, over any history of calls.
use threadbase_streamer.Prelude.{
  ℕ, ◌^◌, ◌<◌, ◌≡◌, ◌≢◌, refl, sym, ap, subst, ◌∙◌, List, [], ◌∷◌, some, true, false, ==_iff, has,
  arith, map, All, Bool-cases, inl, inr,
}
use threadbase_streamer.E2ee.Protocol.{Result, ok, err, RejectionCode}
use threadbase_streamer.E2ee.RestWindow.Spec.{Distinct}
use threadbase_streamer.E2ee.Record.{
  Aead, RecordHeader, is_valid_target, channel_rest_response, direction_s2c, record_nonce,
  seal_with,
}
use threadbase_streamer.E2ee.Record.Frames.{
  record_nonce-injective, nonce_of, IsUnder, UnderDistinct, IsSealed, seal_with-IsSealed,
}
use threadbase_streamer.E2ee.Record.Sealer.{
  RestResponseSealer, create, accept, advance_to, mark_answered, response_header, spend, seal,
}
use threadbase_streamer.E2ee.Record.Sealer.Invariant.{
  Inv, create-Inv, accept-Inv, accept-eq-ok, spend-Inv, forget-Inv,
}

-- A call on the sealer.
pub data Call : Type 0 where
  accepts : ℕ → Call
  seals : ℕ → List ℕ → List ℕ → Call

module _ {Key : Type 0} (aead : Aead Key) where
  abbrev after_accept :
      RestResponseSealer Key → Result (RestResponseSealer Key) → RestResponseSealer Key
  after_accept s (ok s') = s'
  after_accept s (err e) = s

  pub step : RestResponseSealer Key → Call → RestResponseSealer Key
  step s (accepts c) = after_accept s (accept s c)
  step s (seals c p t) = (seal aead s c p t).0

  abbrev log_frame : Result (List ℕ) → ℕ → List (ℕ × List ℕ) → List (ℕ × List ℕ)
  log_frame (ok frame) c log = (c, frame) ∷ log
  log_frame (err e) c log = log

  -- The responses that were sealed, each with its request counter, the last first.
  pub log_step : RestResponseSealer Key → Call → List (ℕ × List ℕ) → List (ℕ × List ℕ)
  log_step s (accepts c) log = log
  log_step s (seals c p t) log = log_frame (seal aead s c p t).1 c log

  pub sealed : RestResponseSealer Key → List (ℕ × List ℕ) → List Call → List (ℕ × List ℕ)
  sealed s log [] = log
  sealed s log (x ∷ xs) = sealed (step s x) (log_step s x log) xs

  pub seal_cases :
      (P : RestResponseSealer Key × Result (List ℕ) → Type 0) (s : RestResponseSealer Key) (c : ℕ)
      (p t : List ℕ)
      → ((e : RejectionCode) → P (s, err e))
      → (has c s.outstanding ≡ true
          → P (spend s c, seal_with aead s.key (response_header s c) p (some t)))
      → P (seal aead s c p t)
  unfolding seal
  seal_cases P s c p t refused spent =
      elim (Bool-cases (is_valid_target channel_rest_response (some t))) [
        | inr e ↦ rw e (refused _)
        | inl e ↦ rw e (elim (Bool-cases (has c s.outstanding)) [
          | inr h ↦ rw h (refused _)
          | inl h ↦ rw h (spent h)
        ])
      ]

  -- A response is a frame of its request counter under the server's key.
  abbrev IsResponse : Key → ℕ × List ℕ → Type 0
  IsResponse key (c, f) =
      (h : RecordHeader) × IsSealed aead key h f × (h.direction ≡ direction_s2c) × (h.counter ≡ c)

  -- Every call keeps the invariant, and a counter is logged once.
  record Logged (key : Key) (s : RestResponseSealer Key) (log : List (ℕ × List ℕ)) : Type 0 where
    invariant : Inv s (map (λ e. e.0) log)
    distinct : Distinct (map (λ e. e.0) log)
    same_key : s.key ≡ key
    responses : All (IsResponse key) log

  log_frame-Logged :
      (key : Key) (s : RestResponseSealer Key) (c : ℕ) (log : List (ℕ × List ℕ)) (p t : List ℕ)
      (r : Result (List ℕ))
      → has c s.outstanding ≡ true
      → seal_with aead s.key (response_header s c) p (some t) ≡ r
      → Logged key s log
      → Logged key (spend s c) (log_frame r c log)
  unfolding spend mark_answered
  log_frame-Logged key s c log p t (ok frame) h e l = record {
    invariant = spend-Inv s (map (λ e. e.0) log) c h l.invariant;
    distinct = ((l.invariant.waiting c h).2, l.distinct);
    same_key = l.same_key;
    responses = (
      (
        response_header s c,
        subst (λ k. IsSealed aead k (response_header s c) frame) l.same_key
            (seal_with-IsSealed aead s.key (response_header s c) p (some t) frame e),
        refl,
        refl,
      ),
      l.responses,
    );
  }
  log_frame-Logged key s c log p t (err x) h e l = record {
    invariant =
        forget-Inv (spend s c) (map (λ e. e.0) log) c
          (spend-Inv s (map (λ e. e.0) log) c h l.invariant);
    distinct = l.distinct;
    same_key = l.same_key;
    responses = l.responses;
  }

  accept-key : (s s' : RestResponseSealer Key) (c : ℕ) → accept s c ≡ ok s' → s'.key ≡ s.key
  unfolding advance_to
  accept-key s s' c e = ground (arith, accept-eq-ok s s' c e)

  after_accept-Logged :
      (key : Key) (s : RestResponseSealer Key) (c : ℕ) (log : List (ℕ × List ℕ))
      (r : Result (RestResponseSealer Key))
      → accept s c ≡ r
      → Logged key s log
      → Logged key (after_accept s r) log
  after_accept-Logged key s c log (ok s') e l = record {
    invariant = accept-Inv s s' (map (λ e. e.0) log) c e l.invariant;
    distinct = l.distinct;
    same_key = accept-key s s' c e ∙ l.same_key;
    responses = l.responses;
  }
  after_accept-Logged key s c log (err x) e l = l

  step-Logged :
      (key : Key) (s : RestResponseSealer Key) (x : Call) (log : List (ℕ × List ℕ))
      → Logged key s log
      → Logged key (step s x) (log_step s x log)
  unfolding step log_step
  step-Logged key s (accepts c) log l = after_accept-Logged key s c log (accept s c) refl l
  step-Logged key s (seals c p t) log l =
      seal_cases (λ r. Logged key r.0 (log_frame r.1 c log)) s c p t (λ e. l)
        (λ h. log_frame-Logged key s c log p t _ h refl l)

  sealed-Logged :
      (key : Key) (s : RestResponseSealer Key) (log : List (ℕ × List ℕ)) (xs : List Call)
      → Logged key s log
      → (end : RestResponseSealer Key) × Logged key end (sealed s log xs)
  unfolding sealed
  sealed-Logged key s log [] l = (s, l)
  sealed-Logged key s log (x ∷ xs) l =
      sealed-Logged key (step s x) (log_step s x log) xs (step-Logged key s x log l)

  IsResponse-nonce :
      (key : Key) (c : ℕ) (f : List ℕ)
      → IsResponse key (c, f)
      → (nonce_of f ≡ record_nonce direction_s2c c) × c < 256 ^ 8 × IsUnder aead key (nonce_of f) f
  IsResponse-nonce key c f (h, s, d, n) = (
    s.nonce ∙ ap (λ k. record_nonce k h.counter) d ∙ ap (record_nonce direction_s2c) n,
    omega (arith, n, s.framed.counter_fits),
    s.under,
  )

  -- Responses of other counters are under other nonces.
  nonces-differ :
      (key : Key) (c : ℕ) (f : List ℕ) (log : List (ℕ × List ℕ))
      → IsResponse key (c, f)
      → has c (map (λ e. e.0) log) ≡ false
      → All (IsResponse key) log
      → All (λ g. nonce_of f ≢ nonce_of g) (map (λ e. e.1) log)
  nonces-differ key c f [] r h rs = tt
  nonces-differ key c f ((d, g) ∷ log) r h (q, rs) =
      let (nonce, fits, under) = IsResponse-nonce key c f r in
      let (other, fits', under') = IsResponse-nonce key d g q in
      (
        λ same. absurd (
            ground (
              arith,
              record_nonce-injective direction_s2c c d fits fits' (sym nonce ∙ same ∙ other),
              ==_iff c d,
              ==_iff d c,
            )),
        nonces-differ key c f log r (ground arith) rs,
      )

  responses-UnderDistinct :
      (key : Key) (log : List (ℕ × List ℕ))
      → Distinct (map (λ e. e.0) log)
      → All (IsResponse key) log
      → UnderDistinct aead key (map (λ e. e.1) log)
        × All (λ e. nonce_of e.1 ≡ record_nonce direction_s2c e.0) log
  responses-UnderDistinct key [] d rs = (tt, tt)
  responses-UnderDistinct key ((c, f) ∷ log) (new, d) (r, rs) =
      let (nonce, fits, under) = IsResponse-nonce key c f r in
      let (apart, own) = responses-UnderDistinct key log d rs in
      ((under, nonces-differ key c f log r new rs, apart), (nonce, own))

  -- From a new sealer, whatever calls of `accept` and `seal` are made in whatever order, no two
  -- responses are sealed for one request counter; each is encrypted under the nonce of the server's
  -- direction and its request counter, and no two under one nonce.
  pub sealed-Distinct :
      (key : Key) (ctx_id : List ℕ) (s : RestResponseSealer Key) (xs : List Call)
      → create key ctx_id ≡ ok s
      → Distinct (map (λ e. e.0) (sealed s [] xs))
        × UnderDistinct aead key (map (λ e. e.1) (sealed s [] xs))
        × All (λ e. nonce_of e.1 ≡ record_nonce direction_s2c e.0) (sealed s [] xs)
  unfolding create
  sealed-Distinct key ctx_id s xs e =
      let start : Logged key s [] = record {
        invariant = create-Inv key ctx_id s e;
        distinct = tt;
        same_key = ground arith;
        responses = tt;
      } in
      let (end, l) = sealed-Logged key s [] xs start in
      let (apart, own) = responses-UnderDistinct key (sealed s [] xs) l.distinct l.responses in
      (l.distinct, apart, own)
