-- ===== src/Api.antt =====
-- src/api: the HTTP surface.
pub mod RateLimit
