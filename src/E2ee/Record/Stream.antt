-- ===== src/E2ee/Record/Stream.antt =====
-- Whole streams of records over one channel: what a sender seals in a row a receiver opens in a
-- row, and no two sealed records share a nonce.
use threadbase_streamer.Prelude.{
  ℕ, ◌+◌, ◌≤◌, ◌≡◌, refl, List, [], ◌∷◌, Option, true, arith, length, All,
}
use threadbase_streamer.E2ee.Protocol.{Result, ok, ◌>>=◌}
use threadbase_streamer.E2ee.RestWindow.{max_counter}
use threadbase_streamer.E2ee.Record.{
  Aead, RecordState, header_of, is_valid_target, seal, unseal, header_bytes, tag_bytes,
  max_record_bytes,
}
use threadbase_streamer.E2ee.Record.Framing.{IsFramed}
use threadbase_streamer.E2ee.Record.State.{
  IsAead, next, frame_of, seal-frame_of, unseal-frame_of, next-IsFramed,
}

module _ {Key : Type 0} (aead : Aead Key) where
  -- A run of calls, which stops at the first throw.
  pub seal_all :
      RecordState Key → List (List ℕ) → Option (List ℕ) → Result (List (List ℕ) × RecordState Key)
  seal_all s [] target = ok ([], s)
  seal_all s (p ∷ ps) target = do
    sealed ← seal aead s p target
    rest ← seal_all sealed.1 ps target
    ok (sealed.0 ∷ rest.0, rest.1)

  pub unseal_all :
      RecordState Key → List (List ℕ) → Option (List ℕ) → Result (List (List ℕ) × RecordState Key)
  unseal_all s [] target = ok ([], s)
  unseal_all s (f ∷ fs) target = do
    opened ← unseal aead s f target
    rest ← unseal_all opened.1 fs target
    ok (opened.0 ∷ rest.0, rest.1)

  -- Small enough for one record.
  abbrev pub Fits : List ℕ → Type 0
  Fits p = length p + header_bytes + tag_bytes ≤ max_record_bytes

  -- With an AEAD that opens what it sealed, any run of plaintexts that fit is sealed, and the
  -- receiver in the sender's starting state opens the frames in order, to the same plaintexts and
  -- the sender's final state.
  pub unseal_all-seal_all :
      (a : IsAead aead) (s : RecordState Key) (ps : List (List ℕ)) (target : Option (List ℕ))
      → IsFramed (header_of s)
      → is_valid_target s.channel target ≡ true
      → All Fits ps
      → s.counter + length ps ≤ max_counter
      → (fs : List (List ℕ)) × (s' : RecordState Key) × (seal_all s ps target ≡ ok (fs, s'))
        × (unseal_all s fs target ≡ ok (ps, s'))
        × (s'.counter ≡ s.counter + length ps)
  unfolding seal_all unseal_all
  unseal_all-seal_all a s [] target f valid fits h = ([], s, refl, refl, omega arith)
  unseal_all-seal_all a s (p ∷ ps) target f valid (fit, fits) h =
      let (fs, s', sealed, opened, count) =
        unseal_all-seal_all a (next aead s) ps target
          (next-IsFramed aead s p target f valid (omega arith)) valid fits (omega arith) in
      (
        frame_of aead s p target ∷ fs,
        s',
        rw (seal-frame_of aead s p target f valid (omega arith)) (rw sealed refl),
        rw (unseal-frame_of aead s p target f valid a (omega arith) fit) (rw opened refl),
        omega arith,
      )
