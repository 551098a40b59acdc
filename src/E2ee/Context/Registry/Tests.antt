-- ===== src/E2ee/Context/Registry/Tests.antt =====
-- The registry with one socket context and its ticket.
use threadbase_streamer.Prelude.{
  ℕ, ◌+◌, ◌≡◌, ◌≢◌, ◌≤◌, ◌++◌, refl, List, [], ◌∷◌, none, some, true, get_elem?, length, All,
}
use threadbase_streamer.Prelude.Dict.{get}
use threadbase_streamer.E2ee.Record.Tests.{toy}
use threadbase_streamer.E2ee.Context.{Context, ws, invalidate}
use threadbase_streamer.E2ee.Context.Registry.{
  Registry, consume_ticket, destroy, find, candidates, victims,
}
use threadbase_streamer.E2ee.Context.Registry.Spent.{
  Call, opens, issues, destroys, sweeps, clears, run, consumed_once,
}
use threadbase_streamer.E2ee.Context.Registry.Destruction.{Refuses, destroyed_context}
use threadbase_streamer.E2ee.Context.Registry.Eviction.{Before, survivors, victims-Order}

runs : Unit {0}
unfolding find get
runs = tt

abbrev socket : Context ℕ
socket = record {
  ctx_id = "c1";
  ctx_id_raw = [];
  device_id = "phone";
  kind = ws;
  created_at = 100;
  expires_at = 30100;
  provisional = true;
  retire_at = none;
  send = [];
  receive = [];
  responses = none;
  window = none;
}

abbrev registry : Registry ℕ
registry = record {
  objects = socket ∷ [];
  contexts = ("c1", 0) ∷ [];
  by_device = ("phone", "c1" ∷ []) ∷ [];
  tickets = ("t", record { ctx_id = "c1"; expires_at = 30100 }) ∷ [];
}

abbrev script : List (Call ℕ)
script =
    issues "u" "c1" 250
    ∷ opens "phone" ws [] "c2" (record { client_to_server = 1; server_to_client = 2 }) 260
    ∷ sweeps "phone" 270
    ∷ destroys "c1"
    ∷ clears
    ∷ []

consumed_once_example :
    (consume_ticket (run (consume_ticket registry "t" 200).0 script) "t" 300).1 ≡ none
consumed_once_example =
    consumed_once registry "t" 200 300 script (refl, (refl, (refl, (refl, (refl, tt)))))

destroyed_context_example :
    (find (destroy registry "c1").0 "c1" ≡ none)
    × ((consume_ticket (destroy registry "c1").0 "t" 200).1 ≢ some "c1")
    × (get_elem? (destroy registry "c1").0.objects 0 ≡ some (invalidate socket))
    × Refuses toy (invalidate socket) 1 0 [] [] 100 200
unfolding find get
destroyed_context_example = destroyed_context toy registry "c1" 0 socket refl 1 0 [] [] 100 200 "t"

victims-Order_example :
    (length (survivors ws (candidates registry "phone" ws)) + 1 ≤ 4)
    × All
        (λ v. All (Before v) (survivors ws (candidates registry "phone" ws)))
        (victims ws (candidates registry "phone" ws))
    × (victims ws (candidates registry "phone" ws) ++ survivors ws (candidates registry "phone" ws)
        ≡ candidates registry "phone" ws)
victims-Order_example = victims-Order registry "phone" ws
