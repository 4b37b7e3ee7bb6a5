-- ===== src/Attestation/Ids.antt =====
-- Whether the id of an attestation tells its inputs apart (pkg/attestation/canonical.go: DeriveAttestationID).
use Prim.Native.Char.{code}
use text.Mathlib.TextEquality.{Char-path}
use intentproof_tools.Prelude.{
  ℕ, zero, suc, ◌+◌, ◌<◌, ◌*◌, ◌/◌, ◌%◌, ◌≡◌, ◌≢◌, refl, sym, ap, ◌∙◌, subst, ◌⊎◌, inl, inr, true,
  [], ◌∷◌, some, Char, String, ◌<>◌, ◌==◌, Eq-ℕ, Bool-cases, nat_eq_iff, take, All,
  append-assoc_text, arith,
}
use intentproof_tools.Prelude.Bytes.{hex_encode, hex_decode}
use intentproof_tools.Prelude.Bytes.Injective.{bytes-injective}
use intentproof_tools.Merkle.{Bytes}
use intentproof_tools.Merkle.Binding.{Bytes-discrete}
use intentproof_tools.Canon.Quote.{read_string, read_literal, prepend, plain, step}
use intentproof_tools.Canon.Quote.Escapes.{read_string-escape, hex_digit_value-hex_digit}
use intentproof_tools.Attestation.{
  html_escape, html_escaped, json_string, json_triple, seed, derive_attestation_id,
}

abbrev Reads : Char → Type 0
Reads c =
    (rest : String) → read_string plain (html_escape c <> rest) ≡ prepend c (read_string plain rest)

same_rune : (c d : Char) → (code c == code d) ≡ true → Reads d → Reads c
same_rune c d e r = subst Reads (Char-path d c (sym ((nat_eq_iff (code c) (code d)).0 e))) r

html_escape-Reads : (c : Char) → Reads c
unfolding read_string html_escape step
html_escape-Reads c = elim (Bool-cases (code c == 0x3c)) [
  | inl e ↦ same_rune c "<" e (λ rest. refl)
  | inr a ↦ elim (Bool-cases (code c == 0x3e)) [
    | inl e ↦ same_rune c ">" e (λ rest. refl)
    | inr b ↦ elim (Bool-cases (code c == 0x26)) [
      | inl e ↦ same_rune c "&" e (λ rest. refl)
      | inr d ↦ elim (Bool-cases (code c == 0x2028)) [
        | inl e ↦ same_rune c "\u{2028}" e (λ rest. refl)
        | inr f ↦ elim (Bool-cases (code c == 0x2029)) [
          | inl e ↦ same_rune c "\u{2029}" e (λ rest. refl)
          | inr g ↦ λ rest. rw (a, b, d, f, g) (read_string-escape c rest)
        ]
      ]
    ]
  ]
]

read_string-html_escaped :
    (s rest : String) → read_string plain (html_escaped s <> rest) ≡ some (s, rest)
unfolding html_escaped read_string step
read_string-html_escaped String.[] rest = refl
read_string-html_escaped (String.◌∷◌ c s) rest =
    ap (read_string plain) (append-assoc_text (html_escape c) (html_escaped s) rest)
    ∙ html_escape-Reads c (html_escaped s <> rest)
    ∙ ap (prepend c) (read_string-html_escaped s rest)

-- A text that starts with the JSON of a string is split in one way.
json_string-split : (s t v w : String) → json_string s <> v ≡ json_string t <> w → (s ≡ t) × (v ≡ w)
unfolding json_string read_literal
json_string-split s t v w h =
    let e = sym (read_string-html_escaped s v) ∙ ap read_literal h ∙ read_string-html_escaped t w in
    (cc, cc)

abbrev tail : String → String
tail String.[] = ""
tail (String.◌∷◌ c s) = s

json_triple-injective :
    (a b c x y z : String) → json_triple a b c ≡ json_triple x y z → (a ≡ x) × (b ≡ y) × (c ≡ z)
unfolding json_triple
json_triple-injective a b c x y z h =
    let (p, f) = json_string-split a x _ _ (ap tail h) in
    let (q, g) = json_string-split b y _ _ (ap tail f) in
    let (r, k) = json_string-split c z _ _ (ap tail g) in (p, q, r)

seed-injective : (a b c x y z : String) → seed a b c ≡ seed x y z → (a ≡ x) × (b ≡ y) × (c ≡ z)
unfolding seed
seed-injective a b c x y z h =
    json_triple-injective a b c x y z (bytes-injective (json_triple a b c) (json_triple x y z) (cc))

abbrev pub AreBytes : Bytes → Type 0
AreBytes bs = All (λ b. b < 256) bs

AreBytes-take : (n : ℕ) (bs : Bytes) → AreBytes bs → AreBytes (take n bs)
AreBytes-take zero bs h = tt
AreBytes-take (suc n) [] h = tt
AreBytes-take (suc n) (b ∷ bs) (p, h) = (p, AreBytes-take n bs h)

hex_decode-hex_encode : (bs : Bytes) → AreBytes bs → hex_decode (hex_encode bs) ≡ some bs
unfolding hex_decode hex_encode
hex_decode-hex_encode [] h = refl
hex_decode-hex_encode (b ∷ bs) (p, h) =
    let high = hex_digit_value-hex_digit (b / 16) (omega arith) in
    let low = hex_digit_value-hex_digit (b % 16) (omega arith) in
    let sum : b / 16 * 16 + b % 16 ≡ b = omega arith in
    rw (high, low, hex_decode-hex_encode bs h, sum) refl

hex_encode-injective : (x y : Bytes) → AreBytes x → AreBytes y → hex_encode x ≡ hex_encode y → x ≡ y
hex_encode-injective x y p q h =
    let e = sym (hex_decode-hex_encode x p) ∙ ap hex_decode h ∙ hex_decode-hex_encode y q in cc

abbrev id_digits : String → String
id_digits s = tail (tail (tail (tail s)))

-- If hashes are lists of bytes, inputs with one attestation id are the same tenant, source and upstream
-- event, or their own two seeds are different and agree in the first twelve bytes of their hashes.
pub derive_attestation_id-injective :
    (sha256 : Bytes → Bytes)
    → ((x : Bytes) → AreBytes (sha256 x))
    → (a b c x y z : String)
    → derive_attestation_id sha256 a b c ≡ derive_attestation_id sha256 x y z
    → ((a ≡ x) × (b ≡ y) × (c ≡ z))
      ⊎ ((seed a b c ≢ seed x y z)
          × (take 12 (sha256 (seed a b c)) ≡ take 12 (sha256 (seed x y z))))
unfolding derive_attestation_id
derive_attestation_id-injective sha256 are_bytes a b c x y z h =
    let digest = λ (m : Bytes). take 12 (sha256 m) in
    let short = λ (m : Bytes). AreBytes-take 12 (sha256 m) (are_bytes m) in
    let s = seed a b c in
    let t = seed x y z in
    let e = hex_encode-injective (digest s) (digest t) (short s) (short t) (ap id_digits h) in
    elim (Bytes-discrete s t) [ yes p ↦ inl (seed-injective a b c x y z p) | no n ↦ inr (n, e) ]
