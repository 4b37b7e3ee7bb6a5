-- ===== src/Verifier.antt =====
-- The verifier (pkg/verifier): data, time stamps, filters, the eight rule evaluators, and `Verify`.
pub mod Types
pub mod Time
pub mod Filters
pub mod Events
pub mod Attestations
pub mod Consensus
pub mod Run
pub mod Verify
