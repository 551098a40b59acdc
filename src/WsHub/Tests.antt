-- ===== src/WsHub/Tests.antt =====
-- A hub with a legacy client 1 and a sealed socket 2 of the device "phone".
use threadbase_streamer.Prelude.{ℕ, ◌≡◌, List, [], ◌∷◌, none, some, true, replicate, str_eq}
use threadbase_streamer.E2ee.Record.{RecordState, direction_c2s, direction_s2c, channel_ws}
use threadbase_streamer.E2ee.Record.Tests.{toy}
use threadbase_streamer.E2ee.Context.{Context, ws}
use threadbase_streamer.E2ee.Context.Registry.{Registry}
use threadbase_streamer.WsHub.{WsHub, Transport}
use threadbase_streamer.WsHub.Calls.{
  Call, add_client, send_all, frame_in, revoke_device, run, close_device,
}
use threadbase_streamer.WsHub.Sealed.{plain}
use threadbase_streamer.WsHub.Sealed.History.{sealed_stays}
use threadbase_streamer.WsHub.Revocation.{CutOff, marked, close_device_lem}

abbrev state : ℕ → RecordState ℕ
state direction = record {
  key = 7;
  ctx_id = replicate 16 5;
  direction = direction;
  channel = channel_ws;
  counter = 0;
}

abbrev context : Context ℕ
context = record {
  ctx_id = "c1";
  ctx_id_raw = replicate 16 5;
  device_id = "phone";
  kind = ws;
  created_at = 0;
  expires_at = 30000;
  provisional = true;
  retire_at = none;
  send = (channel_ws, state direction_s2c) ∷ [];
  receive = (channel_ws, state direction_c2s) ∷ [];
  responses = none;
  window = none;
}

abbrev registry : Registry ℕ
registry = record {
  objects = context ∷ [];
  contexts = ("c1", 0) ∷ [];
  by_device = ("phone", "c1" ∷ []) ∷ [];
  tickets = [];
}

abbrev attached : WsHub ℕ
attached = record {
  clients = 1 ∷ 2 ∷ [];
  pinging = true;
  pong_timers = [];
  contexts = (2, 0) ∷ [];
  ever_sealed = 2 ∷ [];
  unproven_timers = 2 ∷ [];
  registry = registry;
  effects = [];
}

-- The hub before the second socket came.
abbrev fresh : WsHub ℕ
fresh = record attached { clients = 1 ∷ []; contexts = []; ever_sealed = []; unproven_timers = [] }

abbrev all_open : Transport
all_open = record { is_open = λ ws. true; accepts = λ ws. true }

abbrev script : List (Transport × Call)
script =
    (all_open, send_all (1 ∷ []))
    ∷ (all_open, revoke_device "phone")
    ∷ (all_open, frame_in 2 (9 ∷ []))
    ∷ (all_open, send_all (2 ∷ []))
    ∷ []

sealed_stays_example :
    plain 2 (run toy fresh ((all_open, add_client 2 (some 0)) ∷ script)).effects
    ≡ plain 2 fresh.effects
sealed_stays_example = sealed_stays toy 2 0 fresh all_open script

close_device_lem_example :
    CutOff attached
      (close_device "phone" attached).0
      2
      (marked (λ c. str_eq c.device_id "phone") attached attached.contexts 2)
close_device_lem_example = close_device_lem attached "phone" 2
