-- ===== src/Canon/Encode.antt =====
-- The canonical encoder (pkg/canon/canon.go: encodeValue, encodeObject, MarshalRaw).
pub mod MemberOrder
pub mod Tokens
use intentproof_tools.Prelude.{
  Bool, true, false, List, [], ◌∷◌, String, ◌<>◌, Result, err, ok, ◌>>=◌, ◌≡◌, refl, Option, none,
}
use intentproof_tools.Prelude.Sorting.{sort}
use intentproof_tools.Canon.Json.{
  Json, null, bool, text, number, array, object, Elements, no_elements, element, Members,
  no_members, member,
}
use intentproof_tools.Canon.Utf16.{less_utf16}
use intentproof_tools.Canon.Quote.{encode_string}
use intentproof_tools.Canon.Es6.{Floats, NumberError, encode_number}
use intentproof_tools.Canon.Decode.{Token, DecodeError, decode_raw}

-- A key with what the encoder makes of its value.
pub record Entry : Type 0 where
  pub key : String
  pub encoded : Result NumberError String

unfoldable pub entry_less : Entry → Entry → Bool
entry_less a b = less_utf16 a.key b.key

-- The loop over the items of an array or an object writes commas between them.
unfoldable pub with_commas : List String → String
with_commas [] = ""
with_commas (s ∷ []) = s
with_commas (s ∷ t ∷ more) = s <> "," <> with_commas (t ∷ more)

-- The loop over the sorted keys; the first error ends it.
unfoldable pub write_entries : List Entry → Result NumberError (List String)
write_entries [] = ok []
write_entries (e ∷ es) = do
  value ← e.encoded
  rest ← write_entries es
  ok ((encode_string e.key <> ":" <> value) ∷ rest)

unfoldable pub encode_object : List Entry → Result NumberError String
unfolding write_entries with_commas entry_less sort less_utf16
encode_object entries = do
  parts ← write_entries (sort entry_less entries)
  ok ("{" <> with_commas parts <> "}")

-- The error of the decoder or of the encoder.
pub data MarshalError : Type 0 where
  decode_input : DecodeError → MarshalError
  encode_tree : NumberError → MarshalError
  unsupported_type : MarshalError

abbrev encoded_or : Result NumberError String → Result MarshalError String
encoded_or (err e) = err (encode_tree e)
encoded_or (ok s) = ok s

module _ (floats : Floats) where
  unfoldable mutual
    unfolding encode_object with_commas encode_number encode_string

    pub encode_value : Json → Result NumberError String
    encode_value null = ok "null"
    encode_value (bool true) = ok "true"
    encode_value (bool false) = ok "false"
    encode_value (text s) = ok (encode_string s)
    encode_value (number n) = encode_number floats n
    encode_value (array vs) = do parts ← encode_elements vs; ok ("[" <> with_commas parts <> "]")
    encode_value (object ms) = encode_object (entries ms)

    pub encode_elements : Elements → Result NumberError (List String)
    encode_elements no_elements = ok []
    encode_elements (element v vs) = do
      part ← encode_value v
      rest ← encode_elements vs
      ok (part ∷ rest)

    pub entries : Members → List Entry
    entries no_members = []
    entries (member k v ms) = record { key = k; encoded = encode_value v } ∷ entries ms

  abbrev decoded_or : Result DecodeError Json → Result MarshalError String
  decoded_or (err e) = err (decode_input e)
  decoded_or (ok v) = encoded_or (encode_value v)

  -- `MarshalRaw`, behind the tokenizer
  unfoldable pub marshal_raw : List Token → Result MarshalError String
  unfolding decode_raw encode_value
  marshal_raw ts = decoded_or (decode_raw ts)
