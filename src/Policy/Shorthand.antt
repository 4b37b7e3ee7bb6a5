-- ===== src/Policy/Shorthand.antt =====
-- The switch in `compileRule` of pkg/policy/compiler.go: one function for each of its cases.
use intentproof_tools.Prelude.{
  String, List, [], ◌∷◌, Bool, true, false, not, ◌&&◌, ◌||◌, is_empty, Option, none, some, ◌==◌,
  Eq-String, if◌then◌else◌, trim_space, ok, ◌>>=◌, ◌>>◌, guard, or_err,
}
use intentproof_tools.Prelude.Int.{ℤ}
use intentproof_tools.Value.{
  Value, Fields, Items, obj, arr, str, bool, float64, int, null, nil, cons, end, field, get, set,
  as_string, eq_Bool,
}
use intentproof_tools.Value.Number.{to_float64}
use intentproof_tools.Policy.Input.{
  YamlRule, Compiled, needs_action, exactly_conflict, two_predecessors, predecessor_without_after,
  needs_before_and_after, needs_from_and_to, needs_max_duration, needs_claim, needs_sources,
  needs_threshold, needs_operator, unsupported_operator, needs_number, needs_expected_value,
  conflicting_signed,
}
use intentproof_tools.Policy.Normalize.{normalize_map, normalize_fields, normalize_string_map}
use intentproof_tools.Policy.Checks.{
  is_value_bound_operator, int_from_any, validate_min_max, validate_threshold,
}

-- `if p != nil { spec[k] = *p }`
unfoldable pub set_int : String → Option ℤ → Fields → Fields
set_int k none spec = spec
set_int k (some i) spec = set k (int i) spec

-- `if s != "" { spec[k] = s }`
unfoldable pub set_text : String → String → Fields → Fields
set_text k s spec = if s == "" then spec else set k (str s) spec

-- `if m != nil { spec[k] = m }`
unfoldable pub set_map : String → Option Fields → Fields → Fields
set_map k none spec = spec
set_map k (some m) spec = set k (obj m) spec

unfoldable pub set_bool : String → Option Bool → Fields → Fields
set_bool k none spec = spec
set_bool k (some b) spec = set k (bool b) spec

abbrev pub no_fields : Fields → Bool
no_fields end = true
no_fields (field k v m) = false

abbrev pub is_nil : Value → Bool
is_nil null = true
is_nil _ = false

abbrev pub is_set : {A : Type 0} → Option A → Bool
is_set none = false
is_set (some a) = true

-- The text of a field, where it is one and not empty.
abbrev pub text_of : Value → String
text_of (str s) = s
text_of _ = ""

module _ (sprint : Value → String) where
  unfoldable pub compile_required : YamlRule → Compiled Fields
  compile_required r = do
    min ← int_from_any r.min
    max ← int_from_any r.max
    guard (not (r.action == "")) needs_action
    validate_min_max min max
    ok (
        set_map "where" (normalize_string_map sprint r.where_)
          (set_int "max" max (set_int "min" min (set "action" (str r.action) end))))

  -- `normalizeStringMap` of a map that may be nil.
  abbrev pub normalize_map_or_nil : Option Fields → Option Fields
  normalize_map_or_nil none = none
  normalize_map_or_nil (some m) = normalize_string_map sprint m

  unfoldable pub compile_forbidden : YamlRule → Compiled Fields
  compile_forbidden r =
      let has_where_pred = is_set r.where_predecessor in
      let has_without_pred = not (r.without_predecessor == "") in
      do
        guard (not (r.action == "")) needs_action
        guard (not (has_where_pred && has_without_pred)) two_predecessors
        guard (not ((has_where_pred || has_without_pred) && r.after == ""))
            predecessor_without_after
        ok (
            set_text "without_predecessor" r.without_predecessor (
              set_map "where_predecessor" (normalize_map_or_nil r.where_predecessor) (
                set_map "where" (normalize_string_map sprint r.where_)
                  (set_text "after" r.after (set "action" (str r.action) end)))))

  unfoldable pub compile_ordering : YamlRule → Compiled Fields
  compile_ordering r = do
    guard (not (r.before == "" || r.after == "")) needs_before_and_after
    ok (set "after" (str r.after) (set "before" (str r.before) end))

  unfoldable pub compile_cardinality : YamlRule → Compiled Fields
  compile_cardinality r = do
    exactly ← int_from_any r.exactly
    min ← int_from_any r.min
    max ← int_from_any r.max
    guard (not (r.action == "")) needs_action
    guard (not (is_set exactly && (is_set min || is_set max))) exactly_conflict
    validate_min_max min max
    ok (
        set_map "where" (normalize_string_map sprint r.where_) (
          set_text "count_basis" r.count_basis (
            set_int "max" max
              (set_int "min" min (set_int "exactly" exactly (set "action" (str r.action) end))))))

  unfoldable pub compile_temporal : YamlRule → Compiled Fields
  compile_temporal r = do
    guard (not (no_fields r.from || no_fields r.to)) needs_from_and_to
    guard (not (text_of r.max == "")) needs_max_duration
    ok (
        set_text "clock_skew_tolerance" r.clock_skew_tolerance (
          set_text "max" (text_of r.max) (
            set_text "min" (text_of r.min) (
              set "to" (obj (normalize_fields sprint r.to))
                (set "from" (obj (normalize_fields sprint r.from)) end)))))

  -- The body of the loop over the sources; the kind `internal` is an alias.
  unfoldable pub compile_source : Fields → Fields
  compile_source source =
      let normalized = normalize_fields sprint source in
      elim (as_string (get "kind" normalized)) [
        | none ↦ normalized
        | some kind ↦
            if kind == "internal"
            then set "kind" (str "intentproof_action") normalized
            else normalized
      ]

  unfoldable pub compile_sources : List Fields → Items
  compile_sources [] = nil
  compile_sources (s ∷ sources) = cons (obj (compile_source s)) (compile_sources sources)

  abbrev set_value : String → Value → Fields → Fields
  set_value k v spec = if is_nil v then spec else set k (normalize_map sprint v) spec

  unfoldable pub compile_consensus : YamlRule → Compiled Fields
  compile_consensus r = do
    guard (not (r.claim == "")) needs_claim
    guard (not (is_empty r.sources)) needs_sources
    guard (not (no_fields r.threshold)) needs_threshold
    validate_threshold r.threshold
    ok (
        set_bool "require_signed_sources" r.require_signed (
          set_value "expected_value" r.expected_value (
            set "threshold" (obj (normalize_fields sprint r.threshold))
              (set "sources" (arr (compile_sources r.sources)) (set "claim" (str r.claim) end)))))

  unfoldable pub compile_value_bound : YamlRule → Compiled Fields
  compile_value_bound r =
      let operator = trim_space r.operator in
      do
        guard (not (r.claim == "")) needs_claim
        guard (not (operator == "")) needs_operator
        guard (is_value_bound_operator operator) unsupported_operator
        bound ← or_err (to_float64 r.value) needs_number
        ok (
            set_text "source_id" r.source_id (
              set "value" (float64 bound)
                (set "operator" (str operator) (set "claim" (str r.claim) end))))

  -- Both flags are set, to different values.
  unfoldable pub signed_conflict : Option Bool → Option Bool → Bool
  signed_conflict (some a) (some b) = not (eq_Bool a b)
  signed_conflict _ _ = false

  -- `if alias != nil { ... } else if flag != nil { ... }`
  unfoldable pub first_set : Option Bool → Option Bool → Option Bool
  first_set none flag = flag
  first_set (some b) flag = some b

  unfoldable pub compile_claim_match : YamlRule → Compiled Fields
  compile_claim_match r = do
    guard (not (r.claim == "")) needs_claim
    guard (not (is_nil r.expected_value)) needs_expected_value
    guard (not (signed_conflict r.require_signed_alias r.require_signed)) conflicting_signed
    ok (
        set_bool "require_signed" (first_set r.require_signed_alias r.require_signed) (
          set_text "source_id" r.source_id (
            set "expected_value" (normalize_map sprint r.expected_value)
              (set "claim" (str r.claim) end))))
