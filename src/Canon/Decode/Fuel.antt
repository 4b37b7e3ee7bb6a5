-- ===== src/Canon/Decode/Fuel.antt =====
-- The fuel of the decoder is enough for every input.
use intentproof_tools.Prelude.{
  ℕ, zero, suc, ◌*◌, ◌<◌, List, [], ◌∷◌, String, Result, err, ok, ◌>>=◌, ◌≡◌, ◌≢◌, refl, subst, ◌≤◌,
  length, Bool-cases, inl, inr, arith,
}
use intentproof_tools.Canon.Json.{Json, Members, no_members}
use intentproof_tools.Canon.Decode.{
  Token, open_brace, close_brace, open_bracket, close_bracket, null_token, text_token, number_token,
  bool_token, malformed, Decoded, DecodeError, out_of_fuel, next_token, more, as_key, set_member,
  decode_value, decode_members, decode_elements, decode, end_of_input, bad_syntax,
  unexpected_delimiter,
}

-- A call does not run out of fuel, and what it leaves is shorter than this.
abbrev pub Ends : {A : Type 0} → ℕ → Decoded A → Type 0
Ends n (err e) = e ≢ out_of_fuel
Ends n (ok (a, rest)) = length rest < n

abbrev NotFuel : DecodeError → Type 0
NotFuel out_of_fuel = ⊥
NotFuel _ = Unit

not_fuel : (e : DecodeError) → NotFuel e → e ≢ out_of_fuel
not_fuel e n q = subst NotFuel q n

Ends-bind :
    {A B : Type 0} (n k : ℕ) (m : Decoded A) (f : A × List Token → Decoded B)
    → Ends n m
    → ((a : A) (rest : List Token) → length rest < n → Ends k (f (a, rest)))
    → Ends k (m >>= f)
Ends-bind n k (err e) f h g = h
Ends-bind n k (ok (a, rest)) f h g = g a rest h

weaken : {A : Type 0} {n k : ℕ} (m : Decoded A) → n ≤ k → Ends n m → Ends k m
weaken (err e) h g = g
weaken (ok (a, rest)) h g = omega arith

-- A call that reads no token.
Ends-then :
    {A B : Type 0} (k : ℕ) (m : Result DecodeError A) (f : A → Decoded B)
    → ((e : DecodeError) → m ≡ err e → e ≢ out_of_fuel)
    → ((a : A) → Ends k (f a))
    → Ends k (m >>= f)
Ends-then k (err e) f h g = h e refl
Ends-then k (ok a) f h g = g a

Ends-next_token : (ts : List Token) → Ends (length ts) (next_token ts)
unfolding next_token
Ends-next_token [] = not_fuel end_of_input tt
Ends-next_token (malformed b ∷ ts) = not_fuel bad_syntax tt
Ends-next_token (open_brace ∷ ts) = omega arith
Ends-next_token (close_brace ∷ ts) = omega arith
Ends-next_token (open_bracket ∷ ts) = omega arith
Ends-next_token (close_bracket ∷ ts) = omega arith
Ends-next_token (null_token ∷ ts) = omega arith
Ends-next_token (text_token s ∷ ts) = omega arith
Ends-next_token (number_token s ∷ ts) = omega arith
Ends-next_token (bool_token b ∷ ts) = omega arith

as_key-errors : (t : Token) (e : DecodeError) → as_key t ≡ err e → e ≢ out_of_fuel
unfolding as_key
as_key-errors t e h q = ground arith

set_member-errors :
    (obj : Members) (k : String) (v : Json) (e : DecodeError)
    → set_member obj k v ≡ err e
    → e ≢ out_of_fuel
unfolding set_member
set_member-errors obj k v e h q = ground arith

-- With fuel above the bound, no call runs out of it.
abbrev Enough : ℕ → Type 0
Enough f =
    ((ts : List Token) → 2 * length ts < f → Ends (length ts) (decode_value f ts))
    × ((obj : Members) (ts : List Token)
        → suc (2 * length ts) < f
        → Ends (suc (length ts)) (decode_members f obj ts))
    × ((ts : List Token) → suc (2 * length ts) < f → Ends (suc (length ts)) (decode_elements f ts))

module _ (f : ℕ) (ih : Enough f) where
  value-Ends :
      (ts : List Token) → 2 * length ts < suc f → Ends (length ts) (decode_value (suc f) ts)
  unfolding decode_value
  value-Ends [] h = not_fuel end_of_input tt
  value-Ends (malformed b ∷ ts) h = not_fuel bad_syntax tt
  value-Ends (open_brace ∷ ts) h =
      Ends-bind (suc (length ts)) (suc (length ts)) (decode_members f no_members ts) _
        (ih.1 no_members ts (omega arith))
        λ obj rest l.
          Ends-bind (length rest) (suc (length ts)) (next_token rest) _ (Ends-next_token rest)
            λ t rest₁ l₁. omega arith
  value-Ends (open_bracket ∷ ts) h =
      Ends-bind (suc (length ts)) (suc (length ts)) (decode_elements f ts) _ (ih.2 ts (omega arith))
        λ vs rest l.
          Ends-bind (length rest) (suc (length ts)) (next_token rest) _ (Ends-next_token rest)
            λ t rest₁ l₁. omega arith
  value-Ends (close_brace ∷ ts) h = not_fuel unexpected_delimiter tt
  value-Ends (close_bracket ∷ ts) h = not_fuel unexpected_delimiter tt
  value-Ends (null_token ∷ ts) h = omega arith
  value-Ends (text_token s ∷ ts) h = omega arith
  value-Ends (number_token s ∷ ts) h = omega arith
  value-Ends (bool_token b ∷ ts) h = omega arith

  members_end :
      (obj : Members) (ts : List Token)
      → suc (2 * length ts) < suc f
      → Ends (suc (length ts)) (decode_members (suc f) obj ts)
  unfolding decode_value
  members_end obj ts h = elim (Bool-cases (more ts)) [
    | inr e ↦ rw e (omega arith)
    | inl e ↦ rw e (
        Ends-bind (length ts) (suc (length ts)) (next_token ts) _ (Ends-next_token ts) λ t ts₁ l.
          Ends-then (suc (length ts)) (as_key t) _ (as_key-errors t) λ key.
            Ends-bind (length ts₁) (suc (length ts)) (decode_value f ts₁) _ (ih.0 ts₁ (omega arith))
              λ val ts₂ l₂.
                Ends-then (suc (length ts)) (set_member obj key val) _
                  (set_member-errors obj key val)
                  λ obj₁.
                    weaken (decode_members f obj₁ ts₂) (omega arith) (ih.1 obj₁ ts₂ (omega arith)))
  ]

  elements_end :
      (ts : List Token)
      → suc (2 * length ts) < suc f
      → Ends (suc (length ts)) (decode_elements (suc f) ts)
  unfolding decode_value
  elements_end ts h = elim (Bool-cases (more ts)) [
    | inr e ↦ rw e (omega arith)
    | inl e ↦ rw e (
        Ends-bind (length ts) (suc (length ts)) (decode_value f ts) _ (ih.0 ts (omega arith))
          λ val ts₁ l.
            Ends-bind (suc (length ts₁)) (suc (length ts)) (decode_elements f ts₁) _
              (ih.2 ts₁ (omega arith)) λ vs ts₂ l₂. omega arith)
  ]

enough : (f : ℕ) → Enough f
enough zero = (
  (λ ts h. absurd (omega arith)),
  (λ obj ts h. absurd (omega arith)),
  (λ ts h. absurd (omega arith)),
)
enough (suc f) = let ih = enough f in (value-Ends f ih, members_end f ih, elements_end f ih)

-- On every list of tokens the decoder ends: it gives an error of the input, or a value and a rest that
-- is shorter. It does not run out of fuel.
pub decode-Ends : (ts : List Token) → Ends (length ts) (decode ts)
unfolding decode
decode-Ends ts = (enough (suc (2 * length ts))).0 ts (omega arith)
