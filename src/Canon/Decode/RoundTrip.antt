-- ===== src/Canon/Decode/RoundTrip.antt =====
-- The tokens of a tree decode to the tree.
use intentproof_tools.Prelude.{
  ℕ, zero, suc, ◌*◌, ◌<◌, ◌≤◌, true, List, [], ◌∷◌, ◌++◌, err, ok, ◌≡◌, refl, subst, length,
  length-append, Distinct, arith,
}
use mathlib.Core.List.{append_assoc, append-nil}
use intentproof_tools.Canon.Json.{
  Json, null, bool, text, number, array, object, Elements, no_elements, element, Members,
  no_members, member, member_keys, add_member,
}
use intentproof_tools.Canon.Decode.{
  Token, open_brace, close_brace, open_bracket, close_bracket, null_token, text_token, number_token,
  bool_token, malformed, next_token, more, as_key, set_member, decode_value, decode_members,
  decode_elements, decode, decode_raw, at_end, DecodeError, bad_syntax, trailing_token,
}
use intentproof_tools.Canon.Decode.Keys.{
  append_members, append-no_members, append-add_member, Fresh, Fresh-add_member,
}

-- The tokens of the text that encoding/json prints for a tree.
unfoldable mutual
  pub tokens : Json → List Token
  tokens null = null_token ∷ []
  tokens (bool b) = bool_token b ∷ []
  tokens (text s) = text_token s ∷ []
  tokens (number n) = number_token n ∷ []
  tokens (array vs) = open_bracket ∷ element_tokens vs ++ close_bracket ∷ []
  tokens (object ms) = open_brace ∷ member_tokens ms ++ close_brace ∷ []

  pub element_tokens : Elements → List Token
  element_tokens no_elements = []
  element_tokens (element v vs) = tokens v ++ element_tokens vs

  pub member_tokens : Members → List Token
  member_tokens no_members = []
  member_tokens (member k v ms) = text_token k ∷ tokens v ++ member_tokens ms

-- No object of the tree has a key twice.
unfoldable mutual
  unfolding member_keys

  pub UniqueKeys : Json → Type 0
  UniqueKeys (array vs) = UniqueInElements vs
  UniqueKeys (object ms) = Distinct (member_keys ms) × UniqueInMembers ms
  UniqueKeys _ = Unit

  pub UniqueInElements : Elements → Type 0
  UniqueInElements no_elements = Unit
  UniqueInElements (element v vs) = UniqueKeys v × UniqueInElements vs

  pub UniqueInMembers : Members → Type 0
  UniqueInMembers no_members = Unit
  UniqueInMembers (member k v ms) = UniqueKeys v × UniqueInMembers ms

-- A value begins with a token that opens it.
more-tokens : (v : Json) (ts : List Token) → more (tokens v ++ ts) ≡ true
unfolding tokens more
more-tokens null ts = refl
more-tokens (bool b) ts = refl
more-tokens (text s) ts = refl
more-tokens (number n) ts = refl
more-tokens (array vs) ts = refl
more-tokens (object ms) ts = refl

length-tokens_pos : (v : Json) → 0 < length (tokens v)
unfolding tokens
length-tokens_pos null = omega arith
length-tokens_pos (bool b) = omega arith
length-tokens_pos (text s) = omega arith
length-tokens_pos (number n) = omega arith
length-tokens_pos (array vs) = omega arith
length-tokens_pos (object ms) = omega arith

ruleset steps = (append_assoc, more-tokens)

-- With fuel above the bound, the loops and the call read what was printed.
abbrev ReadsValue : Json → Type 0
ReadsValue v =
    (rest : List Token)
    → UniqueKeys v
    → (f : ℕ) → 2 * length (tokens v) < f
    → decode_value f (tokens v ++ rest) ≡ ok (v, rest)

abbrev ReadsElements : Elements → Type 0
ReadsElements vs =
    (rest : List Token)
    → UniqueInElements vs
    → (f : ℕ) → suc (2 * length (element_tokens vs)) < f
    → decode_elements f (element_tokens vs ++ close_bracket ∷ rest) ≡ ok (vs, close_bracket ∷ rest)

abbrev ReadsMembers : Members → Type 0
ReadsMembers ms =
    (obj : Members) (rest : List Token)
    → UniqueInMembers ms
    → Fresh obj ms
    → (f : ℕ) → suc (2 * length (member_tokens ms)) < f
    → decode_members f obj (member_tokens ms ++ close_brace ∷ rest)
      ≡ ok (append_members obj ms, close_brace ∷ rest)

-- A call whose fuel exceeds a bound has a round to spend, and the bound is left for what it calls.
one_round :
    (Claim : ℕ → Type 0) (bound : ℕ)
    → ((left : ℕ) → bound ≤ left → Claim (suc left))
    → (fuel : ℕ) → bound < fuel
    → Claim fuel
one_round Claim bound k zero below = absurd (omega arith)
one_round Claim bound k (suc left) below = k left (omega arith)

decode_value-Reads : (v : Json) → ReadsValue v
unfolding decode_value tokens more next_token as_key set_member UniqueKeys
decode_value-Reads v = elim v as ReadsValue ReadsElements ReadsMembers [
  | array (vs → ih) ↦ λ rest u. one_round _ _ λ g h.
      let l = length-append (element_tokens vs) (close_bracket ∷ []) in
      simp (steps, ih rest u g (omega (arith, l)))
  | object (ms → ih) ↦ λ rest (d, u). one_round _ _ λ g h.
      let l = length-append (member_tokens ms) (close_brace ∷ []) in
      simp (steps, ih no_members rest u ((λ k i. refl), d) g (omega (arith, l)))
  | no_elements ↦ λ rest u. one_round _ _ λ g h. refl
  | element (w → ih) (vs → ihs) ↦ λ rest (u, us). one_round _ _ λ g h.
      let l = length-append (tokens w) (element_tokens vs) in
      let p = length-tokens_pos w in
      simp (steps, ih _ u g (omega (arith, l)), ihs rest us g (omega (arith, l, p)))
  | no_members ↦ λ obj rest u d. one_round _ _ λ g h. rw (append-no_members obj) refl
  | member k (w → ih) (ms → ihs) ↦ λ obj rest (u, us) d. one_round _ _ λ g h.
      let l = length-append (tokens w) (member_tokens ms) in
      let (n, fresh) = Fresh-add_member obj k w ms d in
      simp (
        steps,
        ih _ u g (omega (arith, l)),
        n,
        ihs (add_member obj k w) rest us fresh g (omega (arith, l)),
        append-add_member obj k w ms,
      )
  | _ ↦ λ rest u. one_round _ _ λ g h. refl
]

at_end-token :
    (v : Json) (t : Token) (ts : List Token) → (e : DecodeError) × (at_end (v, t ∷ ts) ≡ err e)
unfolding at_end
at_end-token v (malformed b) ts = (bad_syntax, refl)
at_end-token v open_brace ts = (trailing_token, refl)
at_end-token v close_brace ts = (trailing_token, refl)
at_end-token v open_bracket ts = (trailing_token, refl)
at_end-token v close_bracket ts = (trailing_token, refl)
at_end-token v null_token ts = (trailing_token, refl)
at_end-token v (text_token s) ts = (trailing_token, refl)
at_end-token v (number_token s) ts = (trailing_token, refl)
at_end-token v (bool_token b) ts = (trailing_token, refl)

-- With enough fuel the decoder reads the tree back off the front of its tokens.
pub decode_value-tokens :
    (v : Json) (rest : List Token) (f : ℕ)
    → UniqueKeys v
    → 2 * length (tokens v) < f
    → decode_value f (tokens v ++ rest) ≡ ok (v, rest)
decode_value-tokens v rest f u h = decode_value-Reads v rest u f h

-- A tree none of whose objects has a key twice is decoded from its tokens, and a token behind them is
-- an error.
pub decode_raw-tokens :
    (v : Json)
    → UniqueKeys v
    → (decode_raw (tokens v) ≡ ok v)
      × ((t : Token) (ts : List Token)
          → (e : DecodeError) × (decode_raw (tokens v ++ t ∷ ts) ≡ err e))
unfolding decode_raw decode
decode_raw-tokens v u =
    let e : tokens v ++ [] ≡ tokens v = append-nil (tokens v) in
    let whole : decode (tokens v) ≡ ok (v, []) =
      subst (λ ts. decode_value (suc (2 * length (tokens v))) ts ≡ ok (v, [])) e
        (decode_value-tokens v [] (suc (2 * length (tokens v))) u (omega arith)) in
    (
      rw whole refl,
      λ t ts.
          let l = length-append (tokens v) (t ∷ ts) in
          rw
            (decode_value-tokens v (t ∷ ts) (suc (2 * length (tokens v ++ t ∷ ts))) u
              (omega (arith, l)))
            (at_end-token v t ts),
    )
