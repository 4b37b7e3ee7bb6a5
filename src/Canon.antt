-- ===== src/Canon.antt =====
-- Canonical JSON, RFC 8785 (pkg/canon/canon.go). A Go string is here a list of Unicode scalar values: what
-- encoding/json decodes is valid UTF-8, so that the error of `encodeString` for a broken byte cannot arise.
pub mod Utf16
pub mod Quote
pub mod Es6
pub mod Json
pub mod Decode
pub mod Encode
pub mod Values
