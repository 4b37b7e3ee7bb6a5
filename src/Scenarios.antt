-- ===== src/Scenarios.antt =====
-- Concrete inputs: the theorems applied where their hypotheses hold, and tests of the definitions.
mod MerkleTrees
mod Rules
mod Attested
mod Runs
mod Policies
mod Checks
mod Diffs
mod Keys
mod Stores
mod Requests
mod Canonical
mod Signatures
mod Bundles
mod Explanations
mod Flows
