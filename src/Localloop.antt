-- ===== src/Localloop.antt =====
-- The local loop of pkg/localloop: the store of signed execution events.
pub mod Types
pub mod Store
pub mod Flow
pub mod Ingest
