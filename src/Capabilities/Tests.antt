-- ===== src/Capabilities/Tests.antt =====
-- The route table on two paths.
