-- ===== src/Canon/Decode/Unique.antt =====
-- What is decoded has no key twice.
use intentproof_tools.Prelude.{
  ℕ, zero, suc, true, false, List, [], ◌∷◌, String, Result, err, ok, ok-injective, err-not-ok,
  bind-ok, ◌>>=◌, ◌==◌, Eq-String, ◌≡◌, ◌⊎◌, eq-true, ne-of-eq-false, refl, sym, subst, In,
  Distinct, Bool-cases, inl, inr, arith, length, ◌*◌,
}
use intentproof_tools.Canon.Json.{
  Json, Members, no_members, member, member_keys, has_key, add_member,
}
use intentproof_tools.Canon.Decode.{
  Token, open_brace, close_brace, open_bracket, close_bracket, null_token, text_token, number_token,
  bool_token, malformed, Decoded, DecodeError, next_token, more, as_key, set_member, decode_value,
  decode_members, decode_elements, decode, decode_raw, at_end,
}
use intentproof_tools.Canon.Decode.RoundTrip.{UniqueKeys, UniqueInElements, UniqueInMembers}

-- What a call gives has a property.
abbrev Gives : {A : Type 0} → (A → Type 0) → Decoded A → Type 0
Gives P (err e) = Unit
Gives P (ok (a, rest)) = P a

Gives-bind :
    {A B : Type 0} (P : A → Type 0) (Q : B → Type 0) (m : Decoded A)
    (f : A × List Token → Decoded B)
    → Gives P m
    → ((a : A) (rest : List Token) → P a → Gives Q (f (a, rest)))
    → Gives Q (m >>= f)
Gives-bind P Q (err e) f h g = tt
Gives-bind P Q (ok (a, rest)) f h g = g a rest h

Gives-then :
    {A B : Type 0} (Q : B → Type 0) (m : Result DecodeError A) (f : A → Decoded B)
    → ((a : A) → m ≡ ok a → Gives Q (f a))
    → Gives Q (m >>= f)
Gives-then Q (err e) f g = tt
Gives-then Q (ok a) f g = g a refl

Gives-any : {A : Type 0} (m : Decoded A) → Gives (λ a. Unit) m
Gives-any (err e) = tt
Gives-any (ok (a, rest)) = tt

abbrev Proper : Members → Type 0
Proper ms = Distinct (member_keys ms) × UniqueInMembers ms

has_key-In : (k : String) (ms : Members) → In k (member_keys ms) → has_key k ms ≡ true
unfolding has_key member_keys
has_key-In k no_members i = elim i [ ]
has_key-In k (member j v ms) (inl e) = let q = eq-true j k (sym e) in rw q refl
has_key-In k (member j v ms) (inr i) = ground (arith, has_key-In k ms i)

In-add_member :
    (j k : String) (v : Json) (ms : Members)
    → In j (member_keys (add_member ms k v))
    → (j ≡ k) ⊎ In j (member_keys ms)
unfolding add_member member_keys
In-add_member j k v no_members i = i
In-add_member j k v (member i w ms) (inl e) = inr (inl e)
In-add_member j k v (member i w ms) (inr h) = elim (In-add_member j k v ms h) [
  | inl e ↦ inl e
  | inr g ↦ inr (inr g)
]

Proper-add_member :
    (k : String) (v : Json) (ms : Members)
    → has_key k ms ≡ false
    → UniqueKeys v
    → Proper ms
    → Proper (add_member ms k v)
unfolding add_member member_keys UniqueKeys has_key
Proper-add_member k v no_members h u p = (((λ i. i), tt), (u, tt))
Proper-add_member k v (member j w ms) h u ((n, d), (t, us)) =
    let e : (j == k) ≡ false = ground arith in
    let f : has_key k ms ≡ false = ground arith in
    let (a, b) = Proper-add_member k v ms f u (d, us) in
    (
      ((λ i. elim (In-add_member j k v ms i) [ inl q ↦ ne-of-eq-false j k e q | inr g ↦ n g ]), a),
      (t, b),
    )

set_member-Proper :
    (obj : Members) (k : String) (v : Json) (obj₁ : Members)
    → Proper obj
    → UniqueKeys v
    → set_member obj k v ≡ ok obj₁
    → Proper obj₁
unfolding set_member
set_member-Proper obj k v obj₁ p u h = elim (Bool-cases (has_key k obj)) [
  | inl e ↦ absurd (err-not-ok (rw e at h))
  | inr e ↦ subst Proper (ok-injective (rw e at h)) (Proper-add_member k v obj e u p)
]

abbrev Unique : ℕ → Type 0
Unique f =
    ((ts : List Token) → Gives UniqueKeys (decode_value f ts))
    × ((obj : Members) (ts : List Token) → Proper obj → Gives Proper (decode_members f obj ts))
    × ((ts : List Token) → Gives UniqueInElements (decode_elements f ts))

module _ (f : ℕ) (ih : Unique f) where
  value_unique : (ts : List Token) → Gives UniqueKeys (decode_value (suc f) ts)
  unfolding decode_value UniqueKeys
  value_unique [] = tt
  value_unique (malformed b ∷ ts) = tt
  value_unique (open_brace ∷ ts) =
      Gives-bind Proper UniqueKeys (decode_members f no_members ts) _ (ih.1 no_members ts (tt, tt))
        λ obj rest p.
          Gives-bind (λ t. Unit) UniqueKeys (next_token rest) _ (Gives-any (next_token rest))
            λ t rest₁ u. p
  value_unique (open_bracket ∷ ts) =
      Gives-bind UniqueInElements UniqueKeys (decode_elements f ts) _ (ih.2 ts) λ vs rest p.
        Gives-bind (λ t. Unit) UniqueKeys (next_token rest) _ (Gives-any (next_token rest))
          λ t rest₁ u. p
  value_unique (close_brace ∷ ts) = tt
  value_unique (close_bracket ∷ ts) = tt
  value_unique (null_token ∷ ts) = tt
  value_unique (text_token s ∷ ts) = tt
  value_unique (number_token s ∷ ts) = tt
  value_unique (bool_token b ∷ ts) = tt

  members_unique :
      (obj : Members) (ts : List Token) → Proper obj → Gives Proper (decode_members (suc f) obj ts)
  unfolding decode_value
  members_unique obj ts p = elim (Bool-cases (more ts)) [
    | inr e ↦ rw e p
    | inl e ↦ rw e (
        Gives-bind (λ t. Unit) Proper (next_token ts) _ (Gives-any (next_token ts))
          λ t ts₁ u. Gives-then Proper (as_key t) _ λ key q.
            Gives-bind UniqueKeys Proper (decode_value f ts₁) _ (ih.0 ts₁) λ val ts₂ v.
              Gives-then Proper (set_member obj key val) _
                λ obj₁ h. ih.1 obj₁ ts₂ (set_member-Proper obj key val obj₁ p v h))
  ]

  elements_unique : (ts : List Token) → Gives UniqueInElements (decode_elements (suc f) ts)
  unfolding decode_value UniqueKeys
  elements_unique ts = elim (Bool-cases (more ts)) [
    | inr e ↦ rw e tt
    | inl e ↦ rw e (
        Gives-bind UniqueKeys UniqueInElements (decode_value f ts) _ (ih.0 ts) λ val ts₁ v.
          Gives-bind UniqueInElements UniqueInElements (decode_elements f ts₁) _ (ih.2 ts₁)
            λ vs ts₂ vs_unique. (v, vs_unique))
  ]

unique : (f : ℕ) → Unique f
unfolding decode_value
unique zero = ((λ ts. tt), (λ obj ts p. tt), (λ ts. tt))
unique (suc f) = let ih = unique f in (value_unique f ih, members_unique f ih, elements_unique f ih)

at_end-ok : (p : Json × List Token) (v : Json) → at_end p ≡ ok v → p.0 ≡ v
unfolding at_end
at_end-ok p v h = ground arith

-- No tree that is decoded has an object with a key twice: such an input is an error.
pub decode_raw-UniqueKeys : (ts : List Token) (v : Json) → decode_raw ts ≡ ok v → UniqueKeys v
unfolding decode_raw decode
decode_raw-UniqueKeys ts v h =
    let (p, e, q) = bind-ok (decode ts) at_end v h in
    let u = subst (Gives UniqueKeys) e ((unique (suc (2 * length ts))).0 ts) in
    subst UniqueKeys (at_end-ok p v q) u
