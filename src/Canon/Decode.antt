-- ===== src/Canon/Decode.antt =====
-- Decoding by tokens (pkg/canon/canon.go: decodeValue, orderedObject.set, MarshalRaw up to the encoder).
-- The tokens are those that json.Decoder gives: it checks colons, commas and spaces itself.
pub mod RoundTrip
pub mod Fuel
pub mod Unique
pub mod Keys
use intentproof_tools.Prelude.{
  ℕ, zero, suc, ◌*◌, length, Bool, true, false, not, List, [], ◌∷◌, String, Result, err, ok, ◌>>=◌,
  if◌then◌else◌, ◌≡◌, refl, Eq-String, ◌==◌, ◌||◌,
}
use intentproof_tools.Canon.Json.{
  Json, null, bool, text, number, array, object, Elements, no_elements, element, Members,
  no_members, member, has_key, add_member,
}

-- What `dec.Token()` returns; malformed text is an error of it, and the Boolean says whether it begins
-- with a closing bracket.
pub data Token : Type 0 where
  open_brace close_brace open_bracket close_bracket null_token : Token
  text_token number_token : String → Token
  bool_token : Bool → Token
  malformed : Bool → Token

pub data DecodeError : Type 0 where
  end_of_input bad_syntax key_not_string unexpected_delimiter out_of_fuel trailing_token :
      DecodeError
  duplicate_key : String → DecodeError

abbrev pub Decoded : Type 0 → Type 0
Decoded A = Result DecodeError (A × List Token)

-- `dec.Token()`
unfoldable pub next_token : List Token → Decoded Token
next_token [] = err end_of_input
next_token (malformed b ∷ ts) = err bad_syntax
next_token (t ∷ ts) = ok (t, ts)

-- `dec.More()`
unfoldable pub more : List Token → Bool
more [] = false
more (close_brace ∷ ts) = false
more (close_bracket ∷ ts) = false
more (malformed b ∷ ts) = not b
more (t ∷ ts) = true

-- `key, ok := keyTok.(string)`
unfoldable pub as_key : Token → Result DecodeError String
as_key (text_token k) = ok k
as_key _ = err key_not_string

-- `obj.set`
unfoldable pub set_member : Members → String → Json → Result DecodeError Members
unfolding has_key add_member
set_member obj k v = if has_key k obj then err (duplicate_key k) else ok (add_member obj k v)

unfoldable mutual
  unfolding next_token more as_key set_member

  pub decode_value : ℕ → List Token → Decoded Json
  decode_value zero ts = err out_of_fuel
  decode_value (suc fuel) [] = err end_of_input
  decode_value (suc fuel) (malformed b ∷ ts) = err bad_syntax
  decode_value (suc fuel) (open_brace ∷ ts) = do
    (obj, ts₁) ← decode_members fuel no_members ts
    (t, ts₂) ← next_token ts₁
    ok (object obj, ts₂)
  decode_value (suc fuel) (open_bracket ∷ ts) = do
    (vs, ts₁) ← decode_elements fuel ts
    (t, ts₂) ← next_token ts₁
    ok (array vs, ts₂)
  decode_value (suc fuel) (text_token s ∷ ts) = ok (text s, ts)
  decode_value (suc fuel) (number_token n ∷ ts) = ok (number n, ts)
  decode_value (suc fuel) (bool_token b ∷ ts) = ok (bool b, ts)
  decode_value (suc fuel) (null_token ∷ ts) = ok (null, ts)
  decode_value (suc fuel) (_ ∷ ts) = err unexpected_delimiter

  -- `for dec.More()`, with the object so far.
  pub decode_members : ℕ → Members → List Token → Decoded Members
  decode_members zero obj ts = err out_of_fuel
  decode_members (suc fuel) obj ts =
      let rest = do
        (t, ts₁) ← next_token ts
        key ← as_key t
        (val, ts₂) ← decode_value fuel ts₁
        obj₁ ← set_member obj key val
        decode_members fuel obj₁ ts₂
      in if more ts then rest else ok (obj, ts)

  pub decode_elements : ℕ → List Token → Decoded Elements
  decode_elements zero ts = err out_of_fuel
  decode_elements (suc fuel) ts =
      let rest = do
        (val, ts₁) ← decode_value fuel ts
        (vs, ts₂) ← decode_elements fuel ts₁
        ok (element val vs, ts₂)
      in if more ts then rest else ok (no_elements, ts)

-- Every token costs at most two calls, so that this fuel is enough.
unfoldable pub decode : List Token → Decoded Json
unfolding decode_value
decode ts = decode_value (suc (2 * length ts)) ts

-- MarshalRaw up to the encoder: nothing may stand behind the value.
unfoldable pub at_end : Json × List Token → Result DecodeError Json
at_end (v, []) = ok v
at_end (v, malformed b ∷ ts) = err bad_syntax
at_end (v, t ∷ ts) = err trailing_token

unfoldable pub decode_raw : List Token → Result DecodeError Json
unfolding decode at_end
decode_raw ts = decode ts >>= at_end

decode_runs :
    decode_raw
      (open_brace ∷ text_token "a" ∷ open_bracket ∷ null_token ∷ close_bracket ∷ close_brace ∷ [])
    ≡ ok (object (member "a" (array (element null no_elements)) no_members))
unfolding decode_raw
decode_runs = refl
