-- ===== src/Canon/Values.antt =====
-- `canon.Marshal` of the values that encoding/json decodes (pkg/canon/canon.go: Marshal). encoding/json
-- prints a value, and MarshalRaw reads the text back; the text of a float64 is a parameter.
use intentproof_tools.Prelude.{Option, none, some, String, Result, ◌>>=◌, or_err}
use intentproof_tools.Prelude.Decimal.{format_int}
use intentproof_tools.Value.{
  Value, obj, arr, str, float64, int, int64, any_map, Fields, end, field, Items, nil, cons, Float64,
}
use intentproof_tools.Canon.Json.{
  Json, null, bool, text, number, array, object, Elements, no_elements, element, Members,
  no_members, member,
}
use intentproof_tools.Canon.Es6.{Floats}
use intentproof_tools.Canon.Decode.RoundTrip.{tokens}
use intentproof_tools.Canon.Encode.{MarshalError, unsupported_type, marshal_raw}

abbrev an_object : Option Members → Option Json
an_object none = none
an_object (some ms) = some (object ms)

abbrev an_array : Option Elements → Option Json
an_array none = none
an_array (some vs) = some (array vs)

abbrev a_member : String → Option Json → Option Members → Option Members
a_member k (some v) (some ms) = some (member k v ms)
a_member k _ _ = none

abbrev an_element : Option Json → Option Elements → Option Elements
an_element (some v) (some vs) = some (element v vs)
an_element _ _ = none

-- The tree that encoding/json prints. A map with keys of any type is not supported, which is none. The
-- printer sorts the keys; the canonical form does not depend on their order.
module _ (number_text : Float64 → String) where
  unfoldable mutual
    unfolding format_int

    pub json_of : Value → Option Json
    json_of Value.null = some null
    json_of (Value.bool b) = some (bool b)
    json_of (str s) = some (text s)
    json_of (float64 x) = some (number (number_text x))
    json_of (int i) = some (number (format_int i))
    json_of (int64 i) = some (number (format_int i))
    json_of (any_map m) = none
    json_of (obj m) = an_object (json_of_fields m)
    json_of (arr vs) = an_array (json_of_items vs)

    pub json_of_fields : Fields → Option Members
    json_of_fields end = some no_members
    json_of_fields (field k v m) = a_member k (json_of v) (json_of_fields m)

    pub json_of_items : Items → Option Elements
    json_of_items nil = some no_elements
    json_of_items (cons v vs) = an_element (json_of v) (json_of_items vs)

  -- `canon.Marshal`
  unfoldable pub marshal : Floats → Value → Result MarshalError String
  unfolding json_of marshal_raw tokens
  marshal floats v = do tree ← or_err (json_of v) unsupported_type; marshal_raw floats (tokens tree)
