-- ===== src/Relay.antt =====
-- src/relay: the tunnel to the relay server.
pub mod Flow
pub mod Frames
