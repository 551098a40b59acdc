-- ===== src/E2ee/Record/Sealer/Tests.antt =====
-- The response sealer on a concrete history.
use threadbase_streamer.Prelude.{ℕ, ◌≡◌, refl, List, [], ◌∷◌, replicate, map, All}
use threadbase_streamer.Prelude.Int.{negsuc}
use threadbase_streamer.E2ee.Protocol.{ok}
use threadbase_streamer.E2ee.Bitmap.{blank}
use threadbase_streamer.E2ee.RestWindow.Spec.{Distinct}
use threadbase_streamer.E2ee.Record.{direction_s2c, record_nonce}
use threadbase_streamer.E2ee.Record.Frames.{nonce_of, UnderDistinct}
use threadbase_streamer.E2ee.Record.Sealer.{RestResponseSealer, create}
use threadbase_streamer.E2ee.Record.Sealer.Once.{Call, accepts, seals, sealed, sealed-Distinct}
use threadbase_streamer.E2ee.Record.Tests.{toy}

abbrev sealer : RestResponseSealer ℕ
sealer = record {
  key = 7;
  ctx_id = replicate 16 5;
  outstanding = [];
  answered_bits = unfold blank in blank;
  accepted_high_water = negsuc 0;
}

abbrev target : List ℕ
target = replicate 32 0

-- Counter 7 is accepted, answered, and tried again.
abbrev history : List Call
history =
    accepts 7
    ∷ seals 7 [] target
    ∷ accepts 7
    ∷ seals 7 [] target
    ∷ accepts 3
    ∷ seals 3 [] target
    ∷ []

created : create 7 (replicate 16 5) ≡ ok sealer
unfolding create blank
created = refl

sealed-Distinct_example :
    Distinct (map (λ e. e.0) (sealed toy sealer [] history))
    × UnderDistinct toy 7 (map (λ e. e.1) (sealed toy sealer [] history))
    × All (λ e. nonce_of e.1 ≡ record_nonce direction_s2c e.0) (sealed toy sealer [] history)
sealed-Distinct_example = sealed-Distinct toy 7 (replicate 16 5) sealer history created
