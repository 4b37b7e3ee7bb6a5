-- ===== src/Lib.antt =====
-- intentproof-tools: the offline verifier of IntentProof proof bundles, and the developer tools around it.
--
-- The parts and how they interact. An SDK signs execution events; the local loop (pkg/localloop) ingests
-- them into a hash chain per correlation and materialises flows, whose Merkle root is that of pkg/merkle.
-- A policy is written in YAML and compiled to a canonical document (pkg/policy). The verifier
-- (pkg/verifier) evaluates the rules of a policy against a flow and its attestations and reports a run
-- of findings. Policies are signed over the fingerprint of their canonical JSON (pkg/canon), by the
-- algorithms of pkg/crypto, and keys are resolved by activation windows (pkg/policysig). A proof bundle
-- (pkg/bundle) packs a flow, its events, attestations, policy and run with a manifest of their hashes.
--
-- Which file models which part:
--   Merkle.antt        pkg/merkle/rfc6962.go: `Root` level by level; children Trees, Binding, Rfc6962.
--   Value.antt         Go's `interface{}` values as JSON and YAML decode them; Value/Number.antt has the
--                      conversions and comparisons of pkg/verifier/helpers.go.
--   Verifier.antt      pkg/verifier. Types (types.go and `finding`), Time (time stamps), Filters
--                      (`filterEvents`, `filterAttestations`), Events (rule_required.go, rule_forbidden.go,
--                      rule_ordering.go, rule_cardinality.go, rule_temporal.go), Attestations
--                      (rule_value_bound.go, rule_claim_match.go), Consensus (rule_consensus.go), Run and
--                      Verify (verify.go, evaluate.go). The children of these hold the proofs.
--   Policysig.antt     pkg/policysig: keystatus.go, resolve.go (`ResolveKeyAt`), envelope.go, policysig.go; children
--                      Keys, Envelope, Fingerprint and Signing.
--   Policy.antt        pkg/policy: the compiler. Input (the types of compiler.go), Normalize (validation.go),
--                      Checks (single fields), Shorthand (the switch of `compileRule`), CompileRule, Compile,
--                      Conformance (compiled rules under the evaluators of pkg/verifier), and Diff (diff.go).
--   Localloop.antt     pkg/localloop. Types (types.go), Store (store_chain.go, store_events.go), Flow
--                      (store_flow_mode.go, store_flows.go, store_merkle.go, flowbuilder.go) and Ingest
--                      (ingest.go); children Store/Chain, Store/Reachable, Flow/Modes, Flow/Window,
--                      Flow/Tables (`UpsertFlow`, `GetFlowByCorrelationID`) and Ingest/Requests.
--   Prelude.antt       shared names, tests, lists, integers, texts, sorting.
--   Canon.antt         pkg/canon/canon.go. Json (the tree), Utf16 (`lessUTF16`), Quote (`encodeString`), Es6
--                      (`formatES6`), Decode (`decodeValue`), Encode (`encodeValue`, `MarshalRaw`), Values
--                      (`Marshal`). The children of these hold the proofs.
--   Crypto.antt        pkg/crypto: verifier.go, signer.go, local_signer.go, kms_signer.go; children Accepts,
--                      Fuel, Signer and SignVerify.
--   Bundle.antt        pkg/bundle: types.go and profile.go. Manifests and Signatures (helpers.go), Read
--                      (read.go), Create (create.go), Verify (verify.go); children Valid, Verify/Passes,
--                      Verify/Fails, Verify/Verified, Create/Files and Create/ReadBack. Replay is replay.go,
--                      Explain explain.go and explain_run.go, Explain/ExitCode what an exit code of 0 means.
--   Attestation.antt   pkg/attestation/canonical.go; child Ids.
--   Scenarios.antt     concrete inputs.
--
-- How code became definitions. Functions of Go are functions by clauses under the same names in snake
-- case; a body with several early returns is split into one function for each block. Strings are texts
-- of Unicode characters, since JSON and YAML give valid UTF-8. `interface{}` is the data type Value; a map is
-- a list of fields of which the first of a key counts, and what ranges over a map's keys sees each once. A
-- float64 is an integer number of units of 2 ^ -1074, so that comparisons, `int(x)` and `float64(i)` are
-- exact, rounding included; NaN and the infinities, which JSON cannot spell, are left out. `int` is an
-- integer. A time is the number of nanoseconds since Go's zero time; `time.Parse` is modelled with the
-- liberties that Go's parser takes.
--
-- Bounds and fuel. The loop of `Root` takes the number of leaves as fuel; a level has fewer nodes
-- than the one below, and the theorems about it speak of the value that comes out, so that fuel that ran
-- out would refute them. The decoder of pkg/canon has twice the number of tokens and one more, as each call
-- reads a token or goes from a value to its members, and ParseEd25519PublicKey the length of the key and one
-- more, as each call works on a shorter text. `%d` prints with 20
-- digits at most, which an int64 has. All other loops recur on their list.
--
-- What is a parameter. SHA-256 (Go's crypto library), the decoders of encoding/json and yaml.v3 and the
-- tokens of encoding/json, strconv.ParseFloat and FormatFloat, base64, PEM, the key formats of ssh, x509 and
-- asn1, the verification of Ed25519 and ECDSA, the KMS, bytes.TrimSpace, the text that fmt.Sprint gives a map
-- key that is no string, the clock, the environment, and the publisher of messages. Of the program itself
-- what a part of the model only needs the result of: in pkg/verifier, pkg/policy and pkg/localloop the
-- canonical encoder, the check of an event's signature, the fingerprints of a policy and of a run, the
-- grouping key of a claim value, and the duration syntax of temporal rules.
--
-- The store of the local loop is the list of rows of the table execution_events; a query gives the rows
-- that its WHERE clause selects, and INSERT respects the two unique indexes of the schema. A call of the
-- store either commits or leaves the rows as they were. The tables flows and snapshots are lists of rows
-- too, in which an upsert replaces the row of its key; the body of a snapshot is the snapshot.
--
-- What is not modelled: human summaries of findings and error texts, failures of the database and of the
-- transport, files and the command line; tar and zstd, the generation of keys, the demo, the doctor and the
-- project detection.
pub mod Prelude
pub mod Merkle
pub mod Value
pub mod Verifier
pub mod Attestation
pub mod Bundle
pub mod Canon
pub mod Crypto
pub mod Localloop
pub mod Policy
pub mod Policysig
pub mod Scenarios
