-- ===== src/Identity/Token/Tests.antt =====
-- Tokens on small inputs, and the theorems applied to them.
