-- ===== src/Api/RateLimit/Tests.antt =====
-- The limiter on a concrete history.
use threadbase_streamer.Prelude.{◌≡◌, List, [], ◌∷◌, arith}
use threadbase_streamer.Api.RateLimit.{Options}
use threadbase_streamer.Api.RateLimit.Window.{
  Call, checks, charges, asks, answers, log_answers, answers-refine,
}

abbrev options : Options
options = record { limit = 2; window_ms = 100 }

abbrev history : List Call
history =
    checks "a" 1
    ∷ charges "a" 1
    ∷ charges "b" 5
    ∷ charges "a" 7
    ∷ checks "a" 90
    ∷ asks "a" 90
    ∷ checks "a" 101
    ∷ []

answers-refine_example : answers options [] history ≡ log_answers options [] history
answers-refine_example = answers-refine options history (
  omega arith,
  (omega arith, (omega arith, (omega arith, (omega arith, (omega arith, (omega arith, tt)))))),
)
