-- ===== src/Policy.antt =====
-- The policy compiler of pkg/policy.
pub mod Input
pub mod Normalize
pub mod Checks
pub mod Shorthand
pub mod CompileRule
pub mod Compile
pub mod Conformance
pub mod Diff
