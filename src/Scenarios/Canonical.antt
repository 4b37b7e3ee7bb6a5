-- ===== src/Scenarios/Canonical.antt =====
-- Canonical JSON of concrete texts and trees.
use intentproof_tools.Prelude.{
  ◌≡◌, refl, List, [], ◌∷◌, ◌++◌, none, some, ◌<>◌, ok, err, inl, inr, arith, ne-of-eq-false,
}
use intentproof_tools.Prelude.Int.{pos, negsuc, ◌-ℤ◌}
use intentproof_tools.Prelude.Decimal.{digits_value}
use intentproof_tools.Canon.Json.{Json, null, number, object, no_members, member}
use intentproof_tools.Canon.Utf16.{less_utf16, code_units, units_lt}
use intentproof_tools.Canon.Utf16.Lexicographic.{less_utf16_lem}
use intentproof_tools.Canon.Quote.{encode_string, read_literal}
use intentproof_tools.Canon.Quote.ReadBack.{read_literal-encode_string}
use intentproof_tools.Canon.Es6.{Floats, layout}
use intentproof_tools.Canon.Es6.Reads.{Denotes, layout-Denotes}
use intentproof_tools.Canon.Decode.{
  Token, open_brace, close_brace, text_token, null_token, DecodeError, decode, decode_raw,
}
use intentproof_tools.Canon.Decode.RoundTrip.{tokens, UniqueKeys, decode_raw-tokens}
use intentproof_tools.Canon.Decode.Fuel.{Ends, decode-Ends}
use intentproof_tools.Canon.Decode.Unique.{decode_raw-UniqueKeys}
use intentproof_tools.Canon.Encode.{marshal_raw}
use intentproof_tools.Canon.Encode.MemberOrder.{objects, exchange}
use intentproof_tools.Canon.Encode.Tokens.{marshal_raw-Reordered}

-- A ParseFloat that reads nothing and a FormatFloat that writes one.
abbrev no_floats : Floats
no_floats = record { parse_float = λ s. none; format_e = λ f. "1e+00"; format_g = λ f. "1" }

-- An emoji comes before a half-width mark in UTF-16, though not in UTF-8.
less_utf16_lem_example : less_utf16 "😀" "～" ≡ units_lt (code_units "😀") (code_units "～")
less_utf16_lem_example = less_utf16_lem "😀" "～"

read_literal-encode_string_example :
    read_literal (encode_string "say \"é\"\n\u{1}" <> ",1]") ≡ some ("say \"é\"\n\u{1}", ",1]")
read_literal-encode_string_example = read_literal-encode_string "say \"é\"\n\u{1}" ",1]"

layout-Denotes_example : Denotes (layout "125" (negsuc 5)) (125, negsuc 5 -ℤ pos 3)
unfolding digits_value
layout-Denotes_example =
    layout-Denotes "125" (negsuc 5) 125 (refl, (refl, (refl, tt))) (omega arith) refl (omega arith)
      (omega arith)

written_scientific : layout "125" (negsuc 6) ≡ "1.25e-8"
unfolding layout
written_scientific = refl

written_plain : layout "125" (pos 5) ≡ "12500"
unfolding layout
written_plain = refl

-- {"b":null,"a":7} and the other order.
abbrev b_first : Json
b_first = object (member "b" null (member "a" (number "7") no_members))

abbrev a_first : Json
a_first = object (member "a" (number "7") (member "b" null no_members))

decode_raw-tokens_example :
    (decode_raw (tokens b_first) ≡ ok b_first)
    × ((t : Token) (ts : List Token)
        → (e : DecodeError) × (decode_raw (tokens b_first ++ t ∷ ts) ≡ err e))
unfolding UniqueKeys
decode_raw-tokens_example = decode_raw-tokens b_first (
  ((λ i. elim i [ inl e ↦ ne-of-eq-false "b" "a" refl e | inr j ↦ j ]), ((λ i. i), tt)),
  (tt, (tt, tt)),
)

abbrev two_tokens : List Token
two_tokens = open_brace ∷ text_token "a" ∷ []

decode-Ends_example : Ends 2 (decode two_tokens)
decode-Ends_example = decode-Ends two_tokens

-- An unfinished object ends in an error.
unfinished : decode two_tokens ≡ err DecodeError.end_of_input
unfolding decode
unfinished = refl

duplicate :
    decode_raw
      (open_brace ∷ text_token "a" ∷ null_token ∷ text_token "a" ∷ null_token ∷ close_brace ∷ [])
    ≡ err (DecodeError.duplicate_key "a")
unfolding decode_raw
duplicate = refl

decode_raw-UniqueKeys_example : UniqueKeys b_first
unfolding decode_raw tokens
decode_raw-UniqueKeys_example = decode_raw-UniqueKeys (tokens b_first) b_first refl

marshal_raw-Reordered_example :
    marshal_raw no_floats (tokens b_first) ≡ marshal_raw no_floats (tokens a_first)
unfolding UniqueKeys
marshal_raw-Reordered_example =
    marshal_raw-Reordered no_floats b_first a_first
      (
        ((λ i. elim i [ inl e ↦ ne-of-eq-false "b" "a" refl e | inr j ↦ j ]), ((λ i. i), tt)),
        (tt, (tt, tt)),
      )
      (
        ((λ i. elim i [ inl e ↦ ne-of-eq-false "a" "b" refl e | inr j ↦ j ]), ((λ i. i), tt)),
        (tt, (tt, tt)),
      )
      (objects ((λ i. elim i [ inl e ↦ ne-of-eq-false "b" "a" refl e | inr j ↦ j ]), ((λ i. i), tt))
        exchange)

sorted_members : marshal_raw no_floats (tokens b_first) ≡ ok "{\"a\":7,\"b\":null}"
unfolding marshal_raw tokens
sorted_members = refl
