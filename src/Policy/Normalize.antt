-- ===== src/Policy/Normalize.antt =====
-- `normalizeMap` and `normalizeStringMap` of pkg/policy/validation.go. How `fmt.Sprint` prints a key
-- that is no string is a parameter.
use intentproof_tools.Prelude.{String, Option, none, some}
use intentproof_tools.Value.{
  Value, Fields, Items, Pairs, obj, arr, any_map, str, bool, float64, int, int64, null, nil, cons,
  end, field, stop, pair, set,
}

module _ (sprint : Value → String) where
  unfoldable mutual
    pub normalize_map : Value → Value
    normalize_map (any_map ps) = obj (normalize_pairs ps)
    normalize_map (obj m) = obj (normalize_fields m)
    normalize_map (arr vs) = arr (normalize_items vs)
    normalize_map (str s) = str s
    normalize_map (bool b) = bool b
    normalize_map (float64 x) = float64 x
    normalize_map (int i) = int i
    normalize_map (int64 i) = int64 i
    normalize_map null = null

    -- `out[fmt.Sprint(k)] = normalizeMap(val)`; with two keys that print alike one of them stays.
    pub normalize_pairs : Pairs → Fields
    normalize_pairs stop = end
    normalize_pairs (pair k v ps) = set (sprint k) (normalize_map v) (normalize_pairs ps)

    pub normalize_fields : Fields → Fields
    normalize_fields end = end
    normalize_fields (field k v m) = field k (normalize_map v) (normalize_fields m)

    pub normalize_items : Items → Items
    normalize_items nil = nil
    normalize_items (cons v vs) = cons (normalize_map v) (normalize_items vs)

  -- `none` is the nil map.
  unfoldable pub normalize_string_map : Fields → Option Fields
  normalize_string_map end = none
  normalize_string_map (field k v m) = some (normalize_fields (field k v m))
