-- ===== src/Crypto/Fuel.antt =====
-- The nesting of PEM blocks is bounded by the length of the key.
use intentproof_tools.Prelude.{
  ℕ, zero, suc, ◌≤◌, ◌<◌, ◌≡◌, Option, none, some, ◌==◌, Eq-ℕ, length, Result, err, ok, or_err,
  Bool-cases, Option-cases, inl, inr, arith,
}
use intentproof_tools.Merkle.{Bytes}
use intentproof_tools.Crypto.{
  Primitives, SignatureError, out_of_fuel, parse_ed25519_key, decoded_or_raw,
  parse_ed25519_public_key, parse_ed25519,
}

abbrev NotFuel : SignatureError → Type 0
NotFuel out_of_fuel = ⊥
NotFuel _ = Unit

-- A result that is no lack of fuel.
abbrev pub Finished : Result SignatureError Bytes → Type 0
Finished (err e) = NotFuel e
Finished (ok key) = Unit

Finished-or_err : (o : Option Bytes) → Finished (or_err o parse_ed25519_key)
Finished-or_err none = tt
Finished-or_err (some key) = tt

module _ (prims : Primitives)
    (shorter : (text block : Bytes)
      → prims.pem_decode text ≡ some block
      → length block < length text)
    (no_longer : (text decoded : Bytes)
      → prims.base64_decode text ≡ some decoded
      → length decoded ≤ length text) where
  decoded_no_longer : (pub_key : Bytes) → length (decoded_or_raw prims pub_key) ≤ length pub_key
  unfolding decoded_or_raw
  decoded_no_longer pub_key = elim (Option-cases (prims.base64_decode pub_key)) [
    | inl e ↦ rw (decoded_or_raw, e) (omega arith)
    | inr (decoded, e) ↦ rw (decoded_or_raw, e) (no_longer pub_key decoded e)
  ]

  finishes :
      (fuel : ℕ) (pub_key : Bytes)
      → length pub_key < fuel
      → Finished (parse_ed25519_public_key prims fuel pub_key)
  unfolding parse_ed25519_public_key
  finishes zero pub_key h = absurd (omega arith)
  finishes (suc fuel) pub_key h =
      let key = decoded_or_raw prims pub_key in
      elim (Bool-cases (length pub_key == 32)) [
        | inl e ↦ rw e tt
        | inr e ↦ elim (Bool-cases (length key == 32)) [
          | inl f ↦ rw (e, f) tt
          | inr f ↦ elim (Option-cases (prims.pem_decode key)) [
            | inl g ↦ rw (e, f, g) (Finished-or_err _)
            | inr (block, g) ↦
                let s = shorter key block g in
                let l = decoded_no_longer pub_key in
                rw (e, f, g) (finishes fuel block (omega arith))
          ]
        ]
      ]

  -- ParseEd25519PublicKey ends on every key, if a PEM block is shorter than the text that it is found in
  -- and base64 decodes to no more bytes than it reads.
  pub parse_ed25519-Finished : (pub_key : Bytes) → Finished (parse_ed25519 prims pub_key)
  unfolding parse_ed25519
  parse_ed25519-Finished pub_key = finishes (suc (length pub_key)) pub_key (omega arith)
