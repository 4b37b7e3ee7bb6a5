-- ===== src/Canon/Quote/Escapes.antt =====
-- Every escape reads back as its rune.
use Prim.Native.Char.{char, code}
use Prim.Native.Nat.{compare, Ordering}
use mathlib.Core.Path.{ap}
use text.Mathlib.TextEquality.{Char-path}
use intentproof_tools.Prelude.{
  ℕ, ◌+◌, ◌*◌, ◌/◌, ◌%◌, ◌<◌, ◌≡◌, refl, Bool, Option, none, some, Char, String, ◌<>◌, ltb, ◌==◌,
  Eq-ℕ, check_below-holds, arith, Bool-cases, inl, inr, true, false, ◌∙◌, subst, sym, nat_eq_iff,
}
use intentproof_tools.Prelude.Bytes.{hex_digit, hex_digit_value}
use intentproof_tools.Canon.Quote.{
  escape, step, read_string, prepend, Mode, plain, hex, emit, goto, with_proof, emit_code, Scalar,
  Both, decide_both, decide_scalar,
}

decide_both_lem : (o p : Ordering) (x : Both o p) → decide_both o p ≡ some x
decide_both_lem Ordering.lt Ordering.lt x = refl
decide_both_lem Ordering.lt Ordering.eq x = absurd x
decide_both_lem Ordering.lt Ordering.gt x = absurd x
decide_both_lem Ordering.eq p x = absurd x
decide_both_lem Ordering.gt p x = absurd x

decide_scalar_lem : (o p q : Ordering) (x : Scalar o p q) → decide_scalar o p q ≡ some x
decide_scalar_lem Ordering.lt p q x = refl
decide_scalar_lem Ordering.eq p q x = decide_both_lem p q x
decide_scalar_lem Ordering.gt p q x = decide_both_lem p q x

-- A rune is the character of its number.
pub emit_code-code : (c : Char) → emit_code (code c) ≡ emit c
emit_code-code (char n p) =
    ap (with_proof n) (decide_scalar_lem (compare n 55296) (compare 57343 n) (compare n 1114112) p)

abbrev gives : Option ℕ → ℕ → Bool
gives (some d) n = d == n
gives none n = false

gives-some : (o : Option ℕ) (n : ℕ) → gives o n ≡ true → o ≡ some n
gives-some o n h = ground arith

pub hex_digit_value-hex_digit : (n : ℕ) → n < 16 → hex_digit_value (hex_digit n) ≡ some n
unfolding hex_digit_value hex_digit
hex_digit_value-hex_digit n h =
    gives-some (hex_digit_value (hex_digit n)) n
      (check_below-holds (λ m. gives (hex_digit_value (hex_digit m)) m) 16 n h refl)

abbrev Reads : Char → Type 0
Reads c =
    (rest : String) → read_string plain (escape c <> rest) ≡ prepend c (read_string plain rest)

-- A rune that a test finds is the one that it looks for.
same_rune : (c d : Char) → (code c == code d) ≡ true → Reads d → Reads c
same_rune c d e r = subst Reads (Char-path d c (sym ((nat_eq_iff (code c) (code d)).0 e))) r

-- No short escape is written for the rune.
abbrev IsLong : Char → Type 0
IsLong c =
    ((code c == 0x22) ≡ false)
    × ((code c == 0x5c) ≡ false)
    × ((code c == 0x8) ≡ false)
    × ((code c == 0xc) ≡ false)
    × ((code c == 0xa) ≡ false)
    × ((code c == 0xd) ≡ false)
    × ((code c == 0x9) ≡ false)

printed_steps :
    (c : Char)
    → IsLong c
    → ltb (code c) 0x20 ≡ false
    → (escape c ≡ String.◌∷◌ c "") × (step plain c ≡ emit c)
unfolding escape step
printed_steps c (a, b, _, _, _, _, _) h = (ground arith, ground arith)

-- One step of the reader.
read_string-emit :
    (m : Mode) (c d : Char) (s : String)
    → step m c ≡ emit d
    → read_string m (String.◌∷◌ c s) ≡ prepend d (read_string plain s)
unfolding read_string
read_string-emit m c d s e = rw (read_string, e) refl

read_string-goto :
    (m n : Mode) (c : Char) (s : String)
    → step m c ≡ goto n
    → read_string m (String.◌∷◌ c s) ≡ read_string n s
unfolding read_string
read_string-goto m n c s e = rw (read_string, e) refl

printed_runes : (c : Char) → IsLong c → ltb (code c) 0x20 ≡ false → Reads c
unfolding read_string
printed_runes c l h rest =
    let (e, f) = printed_steps c l h in rw e (read_string-emit plain c c rest f)

-- What is written for a control character without a short escape.
abbrev control : Char → Char → String
control q r =
    String.◌∷◌ "\\"
      (String.◌∷◌ "u" (String.◌∷◌ "0" (String.◌∷◌ "0" (String.◌∷◌ q (String.◌∷◌ r "")))))

escape-control :
    (c : Char)
    → IsLong c
    → ltb (code c) 0x20 ≡ true
    → escape c ≡ control (hex_digit (code c / 16)) (hex_digit (code c % 16))
unfolding escape
escape-control c (a, b, d, e, f, g, i) h = rw (a, b, d, e, f, g, i, h) refl

-- Two hex digits are read as their number.
read_string-control :
    (c q r : Char) (rest : String)
    → hex_digit_value q ≡ some (code c / 16)
    → hex_digit_value r ≡ some (code c % 16)
    → read_string plain (control q r <> rest) ≡ prepend c (read_string plain rest)
unfolding read_string step
read_string-control c q r rest e f =
    let sum : (0 + code c / 16) * 16 + code c % 16 ≡ code c = omega arith in
    read_string-goto (hex 1 0) (hex 0 (0 + code c / 16)) q _ (rw e refl)
    ∙ read_string-emit (hex 0 (0 + code c / 16)) r c rest (rw (f, sum) (emit_code-code c))

control_runes : (c : Char) → IsLong c → ltb (code c) 0x20 ≡ true → Reads c
control_runes c l h rest =
    let high = hex_digit_value-hex_digit (code c / 16) (ground arith) in
    let low = hex_digit_value-hex_digit (code c % 16) (ground arith) in
    rw (escape-control c l h) (read_string-control c _ _ rest high low)

-- Every rune is read back from its escape.
pub read_string-escape : (c : Char) → Reads c
unfolding read_string escape step
read_string-escape c = elim (Bool-cases (code c == 0x22)) [
  | inl e ↦ same_rune c "\"" e (λ rest. refl)
  | inr a ↦ elim (Bool-cases (code c == 0x5c)) [
    | inl e ↦ same_rune c "\\" e (λ rest. refl)
    | inr b ↦ elim (Bool-cases (code c == 0x8)) [
      | inl e ↦ same_rune c "\u{8}" e (λ rest. refl)
      | inr d ↦ elim (Bool-cases (code c == 0xc)) [
        | inl e ↦ same_rune c "\u{c}" e (λ rest. refl)
        | inr f ↦ elim (Bool-cases (code c == 0xa)) [
          | inl e ↦ same_rune c "\n" e (λ rest. refl)
          | inr g ↦ elim (Bool-cases (code c == 0xd)) [
            | inl e ↦ same_rune c "\r" e (λ rest. refl)
            | inr i ↦ elim (Bool-cases (code c == 0x9)) [
              | inl e ↦ same_rune c "\t" e (λ rest. refl)
              | inr j ↦ elim (Bool-cases (ltb (code c) 0x20)) [
                | inl e ↦ control_runes c (a, b, d, f, g, i, j) e
                | inr e ↦ printed_runes c (a, b, d, f, g, i, j) e
              ]
            ]
          ]
        ]
      ]
    ]
  ]
]
