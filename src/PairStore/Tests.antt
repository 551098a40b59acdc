-- ===== src/PairStore/Tests.antt =====
-- The token store on concrete calls.
use threadbase_streamer.Prelude.{◌≢◌, refl, [], ◌∷◌, none}
use threadbase_streamer.PairStore.{PairTokenStore, ok, mint, consume}
use threadbase_streamer.PairStore.SingleUse.{asks, sweeps, run, spent_once}

abbrev store : PairTokenStore
store = record { current = none; ttl_ms = 180000 }

spent_once_example :
    (consume
      (run (consume (mint store "pt_1" 500) "pt_1" 600).0 (asks "pt_1" 610 ∷ sweeps 620 ∷ []))
      "pt_1"
      700).1
    ≢ ok
unfolding consume mint
spent_once_example =
    spent_once (mint store "pt_1" 500) "pt_1" 600 700 (asks "pt_1" 610 ∷ sweeps 620 ∷ []) refl tt
