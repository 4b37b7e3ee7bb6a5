-- ===== src/Value.antt =====
-- Values of Go's `interface{}` as encoding/json and yaml.v3 decode them, with the helpers of
-- pkg/verifier/helpers.go that test and convert them.
pub mod Number
pub mod Lookup
use intentproof_tools.Prelude.{
  ℕ, suc, ◌+◌, ◌-◌, ◌*◌, ◌/◌, ◌^◌, ◌≡◌, Bool, true, false, ◌&&◌, List, [], ◌∷◌, Option, none, some,
  String, ltb, leb, ◌==◌, Eq-String, Eq-ℕ, if◌then◌else◌,
}
use intentproof_tools.Prelude.Int.{ℤ, pos, negsuc, ltb_ℤ, pos_part, neg_part}

-- A finite float64 is a whole number of units of 2 ^ -1074, so that every comparison is exact. JSON
-- and YAML numbers are finite here.
pub record Float64 : Type 0 where
  pub units : ℤ

mutual
  -- A `map[string]interface{}`; the first field of a key counts.
  pub data Fields : Type 0 where
    end : Fields
    field : String → Value → Fields → Fields

  pub data Value : Type 0 where
    obj : Fields → Value
    arr : Items → Value
    str : String → Value
    bool : Bool → Value
    float64 : Float64 → Value
    int : ℤ → Value
    int64 : ℤ → Value
    null : Value
    any_map : Pairs → Value

  -- A `map[interface{}]interface{}`, which yaml.v3 makes of a map with a key that is no string.
  pub data Pairs : Type 0 where
    stop : Pairs
    pair : Value → Value → Pairs → Pairs

  -- A `[]interface{}`.
  pub data Items : Type 0 where
    nil : Items
    cons : Value → Items → Items

-- `m[k]` with its second result.
unfoldable pub get : String → Fields → Option Value
get k end = none
get k (field j v m) = if j == k then some v else get k m

-- `m[k] = v`
unfoldable pub set : String → Value → Fields → Fields
set k v end = field k v end
set k v (field j w m) = if j == k then field k v m else field j w (set k v m)

-- `delete(m, k)`
unfoldable pub delete : String → Fields → Fields
delete k end = end
delete k (field j v m) = if j == k then delete k m else field j v (delete k m)

unfoldable pub items : Items → List Value
items nil = []
items (cons v vs) = v ∷ items vs

unfoldable pub keys : Fields → List String
keys end = []
keys (field k v m) = k ∷ keys m

-- The type assertions `v.(string)`, `v.(bool)`, `v.([]interface{})`, `v.(map[string]interface{})`, on
-- what a map lookup gives.
abbrev pub as_string : Option Value → Option String
as_string (some (str s)) = some s
as_string _ = none

abbrev pub as_bool : Option Value → Option Bool
as_bool (some (bool b)) = some b
as_bool _ = none

abbrev pub as_items : Option Value → Option Items
as_items (some (arr vs)) = some vs
as_items _ = none

abbrev pub as_fields : Option Value → Option Fields
as_fields (some (obj m)) = some m
as_fields _ = none

-- `s, _ := v.(string)`
abbrev pub or_empty : Option String → String
or_empty none = ""
or_empty (some s) = s

-- Equality of integers, as Boolean test.
unfoldable pub eq_ℤ : ℤ → ℤ → Bool
eq_ℤ (pos a) (pos b) = a == b
eq_ℤ (negsuc a) (negsuc b) = a == b
eq_ℤ _ _ = false

unfoldable pub eq_Bool : Bool → Bool → Bool
eq_Bool true b = b
eq_Bool false true = false
eq_Bool false false = true
