-- ===== src/E2ee.antt =====
-- src/e2ee: the end-to-end encryption of the streamer.
pub mod Protocol
pub mod Bitmap
pub mod RestWindow
pub mod Bytes
pub mod Record
pub mod Noise
pub mod Context
pub mod ReplayCache
