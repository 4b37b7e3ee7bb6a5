-- ===== src/Canon/Es6/Reads.antt =====
-- The layout of formatES6 keeps the number.
use intentproof_tools.Prelude.{
  ℕ, suc, ◌+◌, ◌-◌, ◌*◌, ◌^◌, ◌≤◌, ◌<◌, ◌≡◌, refl, ap, subst, ◌∙◌, Bool-cases, inl, inr, true,
  false, ◌&&◌, Option, none, some, String, ltb, leb, ◌==◌, Eq-ℕ, text_len, take_text, drop_text,
  cut, repeat_text, ◌<>◌, arith,
}
use intentproof_tools.Prelude.Decimal.{is_digit, digits_value, parse_int, format_int}
use intentproof_tools.Prelude.Decimal.Numerals.{parse_int-format_int, parse_int-plus}
use intentproof_tools.Prelude.Int.{
  ℤ, pos, negsuc, ◌+ℤ◌, ◌-ℤ◌, pos_part, neg_part, +ℤ_parts, -ℤ_parts, eq_of_parts, int_laws,
}
use intentproof_tools.Canon.Es6.{layout, scientific, exponent}
use intentproof_tools.Canon.Es6.Layout.{
  AllDigits, AllDigits-append, AllDigits-take, AllDigits-drop, AllDigits-zeros, take-drop_text,
  text_len-drop, text_len-append, text_len-zeros, cut-none, cut-some, Lacks, Lacks-append,
  Lacks-digits, digits_value-zeros, digits_value-leading, digits_value-append,
}

-- A decimal text is read as digits, with a point or without, and an exponent, if there is one: the
-- number is m * 10 ^ e.
abbrev scaled : Option ℕ → ℤ → Option (ℕ × ℤ)
scaled none e = none
scaled (some m) e = some (m, e)

abbrev mantissa_value : String → Option (String × String) → ℤ → Option (ℕ × ℤ)
mantissa_value s none e = scaled (digits_value 0 s) e
mantissa_value s (some (whole, part)) e =
    scaled (digits_value 0 (whole <> part)) (e -ℤ pos (text_len part))

abbrev with_point : String → Option ℤ → Option (ℕ × ℤ)
with_point s none = none
with_point s (some e) = mantissa_value s (cut "." s) e

abbrev split_exponent : String → Option (String × String) → Option (ℕ × ℤ)
split_exponent s none = with_point s (some (pos 0))
split_exponent s (some (mantissa, e)) = with_point mantissa (parse_int e)

unfoldable pub read_decimal : String → Option (ℕ × ℤ)
unfolding cut parse_int digits_value ◌-ℤ◌
read_decimal s = split_exponent s (cut "e" s)

read_runs : read_decimal "1.25e-7" ≡ some (125, negsuc 8)
unfolding read_decimal
read_runs = refl

-- Neither letter of a decimal text is a digit.
module _ (s : String) (a : AllDigits s) where
  Lacks-point : Lacks "." s
  unfolding is_digit
  Lacks-point = Lacks-digits "." refl s a

  Lacks-e : Lacks "e" s
  unfolding is_digit
  Lacks-e = Lacks-digits "e" refl s a

abbrev pointed : String → String → String
pointed s t = s <> String.◌∷◌ "." t

-- A mantissa, behind which an exponent was read.
mantissa_whole :
    (s : String) (e : ℤ) → AllDigits s → with_point s (some e) ≡ scaled (digits_value 0 s) e
mantissa_whole s e a = rw (cut-none "." s (Lacks-point s a)) refl

mantissa_pointed :
    (s t : String) (e : ℤ)
    → AllDigits s
    → with_point (pointed s t) (some e) ≡ scaled (digits_value 0 (s <> t)) (e -ℤ pos (text_len t))
mantissa_pointed s t e a = rw (cut-some "." s t (Lacks-point s a)) refl

-- A text without an exponent.
read_unscaled : (s : String) → Lacks "e" s → read_decimal s ≡ with_point s (some (pos 0))
unfolding read_decimal
read_unscaled s l = rw (cut-none "e" s l) refl

read_scaled :
    (s x : String) → Lacks "e" s → read_decimal (s <> String.◌∷◌ "e" x) ≡ with_point s (parse_int x)
unfolding read_decimal
read_scaled s x l = rw (cut-some "e" s x l) refl

pointed-Lacks : (s t : String) → AllDigits s → AllDigits t → Lacks "e" (pointed s t)
pointed-Lacks s t a b = Lacks-append "e" s _ (Lacks-e s a) (refl, Lacks-e t b)

parse_int-exponent :
    (es : ℤ)
    → pos_part es < 9223372036854775808
    → neg_part es < 9223372036854775809
    → parse_int (exponent es) ≡ some es
unfolding exponent format_int
parse_int-exponent (pos es) h k = parse_int-plus es h
parse_int-exponent (negsuc es) h k = parse_int-format_int (negsuc es) h k

-- Two scaled numbers m * 10 ^ e are the same number.
abbrev pub SameNumber : ℕ × ℤ → ℕ × ℤ → Type 0
SameNumber (a, e) (b, f) = a * 10 ^ (pos_part e + neg_part f) ≡ b * 10 ^ (pos_part f + neg_part e)

-- What a text says is this number.
abbrev pub Denotes : String → ℕ × ℤ → Type 0
Denotes s v = (w : ℕ × ℤ) × (read_decimal s ≡ some w) × SameNumber w v

Denotes-exactly :
    (s : String) (m : ℕ) (e f : ℤ) → read_decimal s ≡ some (m, e) → e ≡ f → Denotes s (m, f)
Denotes-exactly s m e f h q = (
  (m, e),
  h,
  ap (λ n. m * 10 ^ n)
      (subst (λ g. pos_part e + neg_part g ≡ pos_part g + neg_part e) q (omega arith)),
)

-- One of the parts of a sum with -1 is zero.
tight :
    (n : ℤ)
    → (pos_part (n +ℤ negsuc 0) ≤ pos_part n) × (neg_part (n +ℤ negsuc 0) ≤ suc (neg_part n))
unfolding ◌+ℤ◌
tight n = (ground arith, ground arith)

minus_one : (n : ℤ) (l : ℕ) → (l == 1) ≡ true → n +ℤ negsuc 0 ≡ n -ℤ pos l
unfolding ◌+ℤ◌ ◌-ℤ◌
minus_one n l h = ground arith

minus_rest : (n : ℤ) (l d : ℕ) → 0 < l → d ≡ l - 1 → n +ℤ negsuc 0 -ℤ pos d ≡ n -ℤ pos l
minus_rest n l d h k =
    eq_of_parts _ _ (
      omega (int_laws, -ℤ_parts (n +ℤ negsuc 0) (pos d), +ℤ_parts n (negsuc 0), -ℤ_parts n (pos l)))

sub_below : (n k : ℕ) → k ≤ n → pos (n - k) ≡ pos n -ℤ pos k
unfolding ◌-ℤ◌
sub_below n k h = ground arith

sub_above : (n k : ℕ) → n ≤ k → pos 0 -ℤ pos (k - n) ≡ pos n -ℤ pos k
unfolding ◌-ℤ◌
sub_above n k h = ground arith

sub_negative : (n k : ℕ) → pos 0 -ℤ pos (suc n + k) ≡ negsuc n -ℤ pos k
unfolding ◌-ℤ◌
sub_negative n k = ground arith

sub_zero : (n k : ℕ) → (n == 0) ≡ true → pos 0 -ℤ pos (0 + k) ≡ pos n -ℤ pos k
unfolding ◌-ℤ◌
sub_zero n k h = ground arith

not_all : (n k : ℕ) → (leb k n && leb n 21) ≡ false → (ltb 0 n && leb n 21) ≡ true → n ≤ k
not_all n k h g = ground arith

module _ (digits : String) (m : ℕ) (a : AllDigits digits) (v : digits_value 0 digits ≡ some m) where
  -- k <= n <= 21
  padded : (j : ℕ) → Denotes (digits <> repeat_text "0" j) (m, pos j)
  padded j =
      let d = AllDigits-append digits _ a (AllDigits-zeros j) in
      (
        (m * 10 ^ j, pos 0),
        read_unscaled _ (Lacks-e _ d)
            ∙ mantissa_whole _ (pos 0) d
            ∙ ap (λ o. scaled o (pos 0))
                (digits_value-append 0 m digits _ v ∙ digits_value-zeros m j),
        (let e : j + 0 ≡ j = omega arith in rw e (omega arith)),
      )

  -- 0 < n <= 21
  with_fraction :
      (n : ℕ)
      → Denotes
          (pointed (take_text n digits) (drop_text n digits))
          (m, pos 0 -ℤ pos (text_len digits - n))
  with_fraction n =
      let t = AllDigits-take n digits a in
      let d = AllDigits-drop n digits a in
      Denotes-exactly _ m _ _
        (read_unscaled _ (pointed-Lacks _ _ t d)
          ∙ mantissa_pointed _ _ (pos 0) t
          ∙ ap (λ o. scaled o (pos 0 -ℤ pos (text_len (drop_text n digits))))
              (ap (digits_value 0) (take-drop_text n digits) ∙ v))
        (ap (λ l. pos 0 -ℤ pos l) (text_len-drop n digits))

  -- -6 < n <= 0
  small :
      (j : ℕ)
      → Denotes (pointed "0" (repeat_text "0" j <> digits)) (m, pos 0 -ℤ pos (j + text_len digits))
  small j =
      let zeros = repeat_text "0" j in
      let d = AllDigits-append zeros digits (AllDigits-zeros j) a in
      let l : text_len (zeros <> digits) ≡ j + text_len digits =
        omega (arith, text_len-append zeros digits, text_len-zeros j) in
      Denotes-exactly _ m _ _
        (read_unscaled _ (pointed-Lacks "0" _ (AllDigits-zeros 1) d)
          ∙ mantissa_pointed "0" _ (pos 0) (AllDigits-zeros 1)
          ∙ ap (λ o. scaled o (pos 0 -ℤ pos (text_len (zeros <> digits))))
              (digits_value-leading (suc j) digits ∙ v))
        (ap (λ i. pos 0 -ℤ pos i) l)

  in_powers :
      (n : ℤ)
      → 0 < text_len digits
      → pos_part n < 9223372036854775808
      → neg_part n < 9223372036854775808
      → Denotes (scientific digits n) (m, n -ℤ pos (text_len digits))
  unfolding scientific
  in_powers n l h k =
      let es = n +ℤ negsuc 0 in
      let p =
        parse_int-exponent es (omega (arith, +ℤ_parts n (negsuc 0), tight n))
          (omega (arith, +ℤ_parts n (negsuc 0), tight n)) in
      elim (Bool-cases (text_len digits == 1)) [
        | inl e ↦ rw e (
            Denotes-exactly _ m _ _
              (read_scaled digits _ (Lacks-e digits a)
                ∙ ap (with_point digits) p
                ∙ mantissa_whole digits es a
                ∙ ap (λ o. scaled o es) v)
              (minus_one n (text_len digits) e))
        | inr e ↦
            let t = AllDigits-take 1 digits a in
            let d = AllDigits-drop 1 digits a in
            rw e (
              Denotes-exactly _ m _ _
                (read_scaled _ _ (pointed-Lacks _ _ t d)
                  ∙ ap (with_point (pointed (take_text 1 digits) (drop_text 1 digits))) p
                  ∙ mantissa_pointed _ _ es t
                  ∙ ap (λ o. scaled o (es -ℤ pos (text_len (drop_text 1 digits))))
                      (ap (digits_value 0) (take-drop_text 1 digits) ∙ v))
                (minus_rest n (text_len digits) (text_len (drop_text 1 digits)) l
                  (text_len-drop 1 digits)))
      ]

-- formatES6 keeps the number: the layout of k digits with the value m, read as a decimal text, is
-- m * 10 ^ (n - k), in whichever of the four forms it is written. The exponent is a 64-bit integer.
pub layout-Denotes :
    (digits : String) (n : ℤ) (m : ℕ)
    → AllDigits digits
    → 0 < text_len digits
    → digits_value 0 digits ≡ some m
    → pos_part n < 9223372036854775808
    → neg_part n < 9223372036854775808
    → Denotes (layout digits n) (m, n -ℤ pos (text_len digits))
unfolding layout
layout-Denotes digits (pos n) m a l v h k =
    let size = text_len digits in
    elim (Bool-cases (leb size n && leb n 21)) [
      | inl e ↦ rw (e, ← sub_below n size (ground arith)) (padded digits m a v (n - size))
      | inr e ↦ elim (Bool-cases (ltb 0 n && leb n 21)) [
        | inl f ↦ rw (e, f, ← sub_above n size (not_all n size e f)) (with_fraction digits m a v n)
        | inr f ↦ elim (Bool-cases (n == 0)) [
          | inl g ↦ rw (e, f, g, ← sub_zero n size g) (small digits m a v 0)
          | inr g ↦ rw (e, f, g) (in_powers digits m a v (pos n) l h k)
        ]
      ]
    ]
layout-Denotes digits (negsuc n) m a l v h k = elim (Bool-cases (ltb (suc n) 6)) [
  | inl e ↦ rw (e, ← sub_negative n (text_len digits)) (small digits m a v (suc n))
  | inr e ↦ rw e (in_powers digits m a v (negsuc n) l h k)
]
