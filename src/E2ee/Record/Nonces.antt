-- ===== src/E2ee/Record/Nonces.antt =====
-- The nonces that a sending record state spends.
use threadbase_streamer.Prelude.{
  ℕ, ◌<◌, ◌≡◌, ◌≢◌, refl, sym, ap, subst, ◌∙◌, List, [], ◌∷◌, Option, arith, All,
}
use threadbase_streamer.E2ee.Protocol.{Result, ok, err}
use threadbase_streamer.E2ee.RestWindow.{max_counter}
use threadbase_streamer.E2ee.Record.{Aead, RecordState, header_of, record_nonce, seal_with, seal}
use threadbase_streamer.E2ee.Record.State.{next}
use threadbase_streamer.E2ee.Record.Frames.{
  record_nonce-injective, nonce_of, UnderDistinct, IsSealed, seal_with-IsSealed,
}

module _ {Key : Type 0} (aead : Aead Key) where
  abbrev sealed_state : RecordState Key → Result (List ℕ × RecordState Key) → RecordState Key
  sealed_state s (ok (f, s')) = s'
  sealed_state s (err e) = s

  abbrev add_frame : Result (List ℕ × RecordState Key) → List (List ℕ) → List (List ℕ)
  add_frame (ok (f, s')) fs = f ∷ fs
  add_frame (err e) fs = fs

  -- The frames that a history of `seal` calls returns; a call that throws leaves the state as it
  -- was.
  pub frames : RecordState Key → List (List ℕ × Option (List ℕ)) → List (List ℕ)
  frames s [] = []
  frames s ((p, t) ∷ calls) =
      add_frame (seal aead s p t) (frames (sealed_state s (seal aead s p t)) calls)

  abbrev Sealed : RecordState Key → Result (List ℕ × RecordState Key) → Type 0
  Sealed s (err e) = Unit
  Sealed s (ok (f, s')) =
      s.counter < max_counter × IsSealed aead s.key (header_of s) f × (s' ≡ next aead s)

  seal_parts :
      (s : RecordState Key) (p : List ℕ) (t : Option (List ℕ)) {f : List ℕ} {s' : RecordState Key}
      → seal aead s p t ≡ ok (f, s')
      → s.counter < max_counter
        × (seal_with aead s.key (header_of s) p t ≡ ok f)
        × (s' ≡ next aead s)
  unfolding seal
  seal_parts s p t h = (ground arith, ground arith, ground arith)

  -- A successful call spends the nonce of the state's own counter.
  seal-Sealed :
      (s : RecordState Key) (p : List ℕ) (t : Option (List ℕ)) → Sealed s (seal aead s p t)
  seal-Sealed s p t = go (seal aead s p t) refl
    where
      go : (r : Result (List ℕ × RecordState Key)) → seal aead s p t ≡ r → Sealed s r
      go (err e) h = tt
      go (ok (f, s')) h =
          let (low, made, moved) = seal_parts s p t h in
          (low, seal_with-IsSealed aead s.key (header_of s) p t f made, moved)

  -- Every frame of the history is under the nonce of the state's counter or of a later one.
  module _ (direction m : ℕ) where
    Later : RecordState Key → List (List ℕ × Option (List ℕ)) → Type 0
    Later s calls = All (λ g. record_nonce direction m ≢ nonce_of g) (frames s calls)

    frames-Later :
        (s : RecordState Key) (calls : List (List ℕ × Option (List ℕ)))
        → s.direction ≡ direction
        → m < s.counter
        → Later s calls
    unfolding Later frames
    frames-Later s [] e h = tt
    frames-Later s ((p, t) ∷ calls) e h =
        go (seal aead s p t) (seal-Sealed s p t) (λ s' d c. frames-Later s' calls d c)
      where
        go :
            (r : Result (List ℕ × RecordState Key))
            → Sealed s r
            → ((s' : RecordState Key) → s'.direction ≡ direction → m < s'.counter → Later s' calls)
            → All
                (λ g. record_nonce direction m ≢ nonce_of g)
                (add_frame r (frames (sealed_state s r) calls))
        go (err x) w ih = ih s e h
        go (ok (f, s')) (low, sealed, moved) ih = (
          λ q. absurd (
              omega (
                arith,
                record_nonce-injective direction m s.counter (omega arith) (omega arith)
                    (q ∙ sealed.nonce ∙ ap (λ d. record_nonce d s.counter) e),
              )),
          ih s' (ap (λ x. x.direction) moved ∙ e)
              (omega (arith, ap (λ (x : RecordState Key). x.counter) moved)),
        )

  -- Whatever calls of `seal` are made, and whichever of them throw, each frame that comes back was
  -- encrypted under the state's key and the nonce that its header tells, and no two of the frames
  -- under one nonce.
  pub frames-UnderDistinct :
      (s : RecordState Key) (calls : List (List ℕ × Option (List ℕ)))
      → UnderDistinct aead s.key (frames s calls)
  unfolding frames Later
  frames-UnderDistinct s [] = tt
  frames-UnderDistinct s ((p, t) ∷ calls) = go (seal aead s p t) (seal-Sealed s p t) (λ s' k.
      subst (λ key. UnderDistinct aead key (frames s' calls)) k (frames-UnderDistinct s' calls))
    where
      go :
          (r : Result (List ℕ × RecordState Key))
          → Sealed s r
          → ((s' : RecordState Key) → s'.key ≡ s.key → UnderDistinct aead s.key (frames s' calls))
          → UnderDistinct aead s.key (add_frame r (frames (sealed_state s r) calls))
      go (err x) w ih = ih s refl
      go (ok (f, s')) (low, sealed, moved) ih = (
        sealed.under,
        subst (λ n. All (λ g. n ≢ nonce_of g) (frames s' calls)) (sym sealed.nonce)
            (frames-Later s.direction s.counter s' calls (ap (λ x. x.direction) moved)
              (omega (arith, ap (λ (x : RecordState Key). x.counter) moved))),
        ih s' (ap (λ x. x.key) moved),
      )
