-- ===== src/Canon/Es6/Layout.antt =====
-- Texts of digits: where they are cut, and their values.
use Prim.Native.Char.{code}
use intentproof_tools.Prelude.{
  ℕ, zero, suc, ◌+◌, ◌-◌, ◌*◌, ◌^◌, ◌≡◌, refl, ap, sym, ◌∙◌, Bool-cases, inl, inr, true, false,
  Option, none, some, Char, String, ◌==◌, Eq-ℕ, text_len, take_text, drop_text, cut, repeat_text,
  ◌<>◌, arith,
}
use native.Mathlib.Nat.{pow-succ', mul_assoc}
use intentproof_tools.Prelude.Decimal.{is_digit, digits_value}

abbrev pub AllDigits : String → Type 0
AllDigits String.[] = Unit
AllDigits (String.◌∷◌ c s) = (is_digit c ≡ true) × AllDigits s

pub AllDigits-append : (s t : String) → AllDigits s → AllDigits t → AllDigits (s <> t)
AllDigits-append String.[] t a b = b
AllDigits-append (String.◌∷◌ c s) t (h, a) b = (h, AllDigits-append s t a b)

pub AllDigits-take : (n : ℕ) (s : String) → AllDigits s → AllDigits (take_text n s)
AllDigits-take zero s a = tt
AllDigits-take (suc n) String.[] a = tt
AllDigits-take (suc n) (String.◌∷◌ c s) (h, a) = (h, AllDigits-take n s a)

pub AllDigits-drop : (n : ℕ) (s : String) → AllDigits s → AllDigits (drop_text n s)
AllDigits-drop zero s a = a
AllDigits-drop (suc n) String.[] a = tt
AllDigits-drop (suc n) (String.◌∷◌ c s) (h, a) = AllDigits-drop n s a

pub AllDigits-zeros : (n : ℕ) → AllDigits (repeat_text "0" n)
unfolding is_digit
AllDigits-zeros zero = tt
AllDigits-zeros (suc n) = (refl, AllDigits-zeros n)

pub take-drop_text : (n : ℕ) (s : String) → take_text n s <> drop_text n s ≡ s
take-drop_text zero s = refl
take-drop_text (suc n) String.[] = refl
take-drop_text (suc n) (String.◌∷◌ c s) = ap (String.◌∷◌ c) (take-drop_text n s)

pub text_len-drop : (n : ℕ) (s : String) → text_len (drop_text n s) ≡ text_len s - n
text_len-drop zero s = omega arith
text_len-drop (suc n) String.[] = omega arith
text_len-drop (suc n) (String.◌∷◌ c s) = omega (arith, text_len-drop n s)

pub text_len-append : (s t : String) → text_len (s <> t) ≡ text_len s + text_len t
text_len-append String.[] t = omega arith
text_len-append (String.◌∷◌ c s) t = omega (arith, text_len-append s t)

pub text_len-zeros : (n : ℕ) → text_len (repeat_text "0" n) ≡ n
text_len-zeros zero = refl
text_len-zeros (suc n) = ap suc (text_len-zeros n)

-- A rune that is no digit is looked for in vain in digits.
not_it : (c d : Char) → is_digit c ≡ true → is_digit d ≡ false → (code c == code d) ≡ false
unfolding is_digit
not_it c d h k = ground arith

module _ (d : Char) where
  -- The rune does not stand in the text.
  abbrev pub Lacks : String → Type 0
  Lacks String.[] = Unit
  Lacks (String.◌∷◌ c s) = ((code c == code d) ≡ false) × Lacks s

  pub Lacks-append : (s t : String) → Lacks s → Lacks t → Lacks (s <> t)
  Lacks-append String.[] t a b = b
  Lacks-append (String.◌∷◌ c s) t (h, a) b = (h, Lacks-append s t a b)

  pub Lacks-digits : is_digit d ≡ false → (s : String) → AllDigits s → Lacks s
  Lacks-digits k String.[] a = tt
  Lacks-digits k (String.◌∷◌ c s) (h, a) = (not_it c d h k, Lacks-digits k s a)

  pub cut-none : (s : String) → Lacks s → cut d s ≡ none
  unfolding cut
  cut-none String.[] a = refl
  cut-none (String.◌∷◌ c s) (h, a) = rw (h, cut-none s a) refl

  pub cut-some : (s t : String) → Lacks s → cut d (s <> String.◌∷◌ d t) ≡ some (s, t)
  unfolding cut
  cut-some String.[] t a = let e : (code d == code d) ≡ true = ground arith in rw e refl
  cut-some (String.◌∷◌ c s) t (h, a) = rw (h, cut-some s t a) refl

-- The value of zeros behind and before digits.
pub digits_value-zeros : (m n : ℕ) → digits_value m (repeat_text "0" n) ≡ some (m * 10 ^ n)
unfolding digits_value is_digit
digits_value-zeros m zero = ap some (omega arith)
digits_value-zeros m (suc n) =
    digits_value-zeros (m * 10 + 0) n
    ∙ ap some (
        ap (λ k. k * 10 ^ n) (omega arith)
        ∙ mul_assoc m 10 (10 ^ n)
        ∙ ap (λ k. m * k) (sym (pow-succ' 10 n)))

pub digits_value-leading :
    (n : ℕ) (s : String) → digits_value 0 (repeat_text "0" n <> s) ≡ digits_value 0 s
unfolding digits_value is_digit
digits_value-leading zero s = refl
digits_value-leading (suc n) s = digits_value-leading n s

none_no_some : {n : ℕ} → ¬ (◌≡◌ {A = Option ℕ} none (some n))
none_no_some h = cc

pub digits_value-append :
    (m n : ℕ) (s t : String)
    → digits_value m s ≡ some n
    → digits_value m (s <> t) ≡ digits_value n t
unfolding digits_value
digits_value-append m n String.[] t h = cc
digits_value-append m n (String.◌∷◌ c s) t h = elim (Bool-cases (is_digit c)) [
  | inl e ↦ rw e (digits_value-append (m * 10 + (code c - 48)) n s t (rw e at h))
  | inr e ↦ absurd (none_no_some (rw e at h))
]
