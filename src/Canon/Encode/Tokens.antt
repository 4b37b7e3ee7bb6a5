-- ===== src/Canon/Encode/Tokens.antt =====
-- MarshalRaw on printed trees.
use intentproof_tools.Prelude.{◌≡◌, ap, ◌∙◌, sym}
use intentproof_tools.Canon.Json.{Json}
use intentproof_tools.Canon.Es6.{Floats}
use intentproof_tools.Canon.Decode.RoundTrip.{tokens, UniqueKeys, decode_raw-tokens}
use intentproof_tools.Canon.Encode.{encode_value, marshal_raw, decoded_or, encoded_or}
use intentproof_tools.Canon.Encode.MemberOrder.{Reordered, encode_value-Reordered}

module _ (floats : Floats) where
  pub marshal_raw-tokens :
      (v : Json) → UniqueKeys v → marshal_raw floats (tokens v) ≡ encoded_or (encode_value floats v)
  unfolding marshal_raw
  marshal_raw-tokens v u = ap (decoded_or floats) (decode_raw-tokens v u).0

  -- Two JSON texts of one tree, whose members may stand in different orders at any depth, are marshalled
  -- to the same bytes or the same error, if none of their objects has a key twice.
  pub marshal_raw-Reordered :
      (v w : Json)
      → UniqueKeys v
      → UniqueKeys w
      → Reordered v w
      → marshal_raw floats (tokens v) ≡ marshal_raw floats (tokens w)
  marshal_raw-Reordered v w u t r =
      marshal_raw-tokens v u
      ∙ ap (encoded_or) (encode_value-Reordered floats v w r)
      ∙ sym (marshal_raw-tokens w t)
