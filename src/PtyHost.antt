-- ===== src/PtyHost.antt =====
-- src/pty-host: the process that keeps the terminals of sessions while the streamer restarts.
pub mod Lines
pub mod Host
