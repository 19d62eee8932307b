-- ===== src/Screen/Color/Tests.antt =====
-- The colour of the boxes in the default configuration.
