-- ===== src/Lib.antt =====
-- Verified models of the core of threadbase-streamer: a server that streams coding-agent sessions
-- to paired devices over sockets and HTTP, with records encrypted end to end and a relay tunnel.
--
-- The encrypted path. A Noise handshake (src/e2ee/noise.ts) gives a device traffic keys; `open`
-- registers a context for them (src/e2ee/context.ts). A socket's context seals and opens records in
-- strict order (src/e2ee/record.ts); a REST context admits each request once, by a sliding window over
-- authenticated counters (src/e2ee/rest-window.ts), and answers it once, by a response sealer that
-- tracks which counters are owed an answer (src/e2ee/record.ts). Before the handshake, a replay
-- cache (src/e2ee/replay-cache.ts) and rate budgets (src/api/rate-limit.ts) bound what a caller can
-- cost. The hub of sockets (src/ws-hub.ts) seals what it sends to a socket with a context. The relay
-- tunnel carries streams under credit-based flow control (src/relay/flow.ts).
--
-- Beside it. A pairing token admits a device once; a key on a write guards against its repetition;
-- and at boot the sessions that an earlier run recorded are classified by what still lives, and those
-- that can go on are seeded into the store of sessions, which lists them in pages beside the live
-- ones and the agents found outside. What an agent asks is a prompt, which clients answer and the
-- registry of prompts settles. A process of its own keeps the terminals while the streamer restarts.
--
-- Which file models which part:
--   E2ee/Protocol      the rejection codes (src/e2ee/protocol.ts) and results that may fail
--   E2ee/Bytes         big-endian numbers in a `Buffer`
--   E2ee/Bitmap        the bitmap of 1024 positions that the window and the sealer share
--   E2ee/RestWindow    `RestReceiveWindow`; Spec has the log of all admitted counters that it refines
--   E2ee/Record        the framing functions and `RecordState`; a function that throws returns a
--                      `Result`, and the state that the call leaves stands beside it
--   E2ee/Record/Sealer `RestResponseSealer`
--   E2ee/Context       the class `Context`
--   E2ee/Context/Registry  `E2eeContextRegistry`; contexts are objects of a store, and a handle
--                      names an address, so that a holder of an object sees its invalidation
--   E2ee/Context/Access  `refuseUnsealedIfPinned` and `authenticateContext`, over a store of devices
--                      that is a parameter
--   E2ee/ReplayCache   `Msg1ReplayCache`
--   E2ee/Noise         the names of the patterns and the raw keys; Symmetric has `CipherState` and
--                      `SymmetricState`, Handshake the two messages and `HandshakeKeys`
--   WsHub              `WSHub` (src/ws-hub.ts): Sending has `sendTo` and `receive`, Calls the public
--                      methods, the events of a socket and the timers
--   Api/RateLimit      `createRateBudget` and `createRateLimiter`
--   Relay/Flow         `createFlowSender` and `createFlowReceiver`
--   Relay/Frames       the frame codec of the tunnel (src/relay/frames.ts)
--   PairStore          `PairTokenStore` (src/pair-store.ts)
--   Sessions/Idempotency  `IdempotencyStore` (src/services/sessions/idempotency.ts)
--   Sessions/Reconcile `classifySession` (src/services/sessions/reconcileSessions.ts), with
--                      `resumeIdForRow`; what the host tells of processes is a parameter
--   Sessions/Rehydrate `rehydrateSkipReason` and `rowToStubSession`
--                      (src/services/sessions/rehydrateSessions.ts); Boot has
--                      `rehydratePreviousSessions` (src/session-registry-boot.ts)
--   Sessions/Busy      `conversationBusy` (src/services/sessions/conversationBusy.ts)
--   Sessions/Store     `SessionStore` (src/session-store.ts): Listing has `list` and `get`, Paging
--                      `paginate` and its cursors
--   Sessions/Dedupe    `createProgressDedupeLRU` (src/agent/dedupe.ts)
--   Prompts            `PromptRegistry` (src/services/prompts/promptRegistry.ts): Validation has the
--                      checks of an answer, Registry the methods as actions that may throw. An answer
--                      has a turn in its entry's queue; `start` runs it up to the adapter's call and
--                      `settle` from its result on. History puts the calls in any order
--   PtyHost            Lines has `LineDecoder` (src/pty-host/protocol.ts), Host `SessionHost`
--                      (src/pty-host/host.ts): its callbacks, requests, leases and sweeps
--   Capabilities       the route table and the capabilities (src/services/security/capabilities.ts)
--   Prelude            lists over native numbers, Boolean tests, the JavaScript `Map` (Dict)
-- Files named Tests run the models on concrete values.
--
-- Conventions. A byte is a number, and a buffer a list of them. A `bigint` counter is an integer,
-- since the window starts at -1; the 64-bit bound is the source's own test. The clock and random
-- identifiers are arguments of the call that reads them. A `Map` is an association list in insertion
-- order. Callbacks are events in a call's result, or effects in the state. A promise that waits is
-- state, and its settling a call.
--
-- Parameters. The cipher (ChaCha20-Poly1305 of node:crypto) is a record of two functions, `Aead`;
-- `IsAead` states that it opens what it sealed and that a tag has 16 bytes, and Record/Tests meets it.
-- The parse of the prompt schema (zod) is a function, and `IsSchema` states that it keeps a prompt's
-- revision and state; an adapter's result is an argument of the call that goes on with it. The
-- handshake's primitives are `NoiseCrypto`, with `IsNoiseCrypto`: the cipher opens what it sealed, a
-- raw key of 32 bytes is imported back, and two key pairs share a secret. `Platform` has the order of
-- texts by locale and the encoding of a cursor, with `IsPlatform`: the order is total, and a printed
-- cursor is parsed back. What a socket does when it is written to is the `Transport` of each call, and
-- `JSON.stringify` a function that `IsStringify` says gives a text without a newline.
--
-- Fuel. The loop of the flow sender runs on fuel: `work` counts one turn for each byte and each chunk
-- that waits, and one to stop. Each turn sends a byte or takes a chunk off the queue. The client that
-- reads all pages has one turn for each session and one to stop, and each page takes a session.
--
-- Not modelled: the HTTP layer, terminals and processes, SQL, the JSON of payloads, and the import,
-- zeroing and redaction of keys, since these are effects outside the program or text formats of a
-- library; and the parts that are listed as such in the manifest.
pub mod Prelude
pub mod E2ee
pub mod Api
pub mod Relay
pub mod PairStore
pub mod Sessions
pub mod Prompts
pub mod Capabilities
pub mod WsHub
pub mod PtyHost
