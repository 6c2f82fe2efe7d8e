-- ===== src/Chain/Commands/Trims.antt =====
-- What LTRIM leaves in the store.
