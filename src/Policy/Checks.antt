-- ===== src/Policy/Checks.antt =====
-- The checks of pkg/policy/compiler.go and validation.go on single fields of a rule.
pub mod Decides
pub mod Dedupe
use intentproof_tools.Prelude.{
  ℕ, ◌+◌, String, List, [], ◌∷◌, Bool, true, false, not, Option, none, some, ◌==◌, Eq-ℕ, Eq-String,
  if◌then◌else◌, err, ok, ◌>>=◌, ◌>>◌, guard,
}
use intentproof_tools.Prelude.Int.{ℤ, pos, ltb_ℤ}
use intentproof_tools.Prelude.Sorting.{sort_strings}
use intentproof_tools.Value.{Value, Fields, Float64, float64, int, int64, bool, null, get}
use intentproof_tools.Value.Number.{unit, int_of_float, float_of_int, eq_float, lt_float}
use intentproof_tools.Policysig.{mem}
use intentproof_tools.Policy.Input.{
  CompileError, Compiled, bad_severity, not_an_integer, negative_min, negative_max, min_above_max,
  unanimous_not_true, majority_not_true, agree_below_one, agree_not_numeric, not_one_threshold,
}

abbrev pub allowed_severities : List String
allowed_severities = "info" ∷ "low" ∷ "medium" ∷ "high" ∷ "critical" ∷ []

unfoldable pub validate_severity : String → Compiled (Unit {0})
validate_severity severity = guard (mem allowed_severities severity) bad_severity

abbrev pub rule_categories : List String
rule_categories =
    "required" ∷ "forbidden" ∷ "ordering" ∷ "cardinality" ∷ "temporal" ∷ "consensus" ∷ "value_bound"
    ∷ "claim_match" ∷ []

unfoldable pub is_known_rule_category : String → Bool
is_known_rule_category category = mem rule_categories category

abbrev pub bound_operators : List String
bound_operators = "lt" ∷ "lte" ∷ "gt" ∷ "gte" ∷ "eq" ∷ "ne" ∷ []

unfoldable pub is_value_bound_operator : String → Bool
is_value_bound_operator op = mem bound_operators op

-- `intFromAny`; `none` is the nil pointer. An int has 64 bits, so that an int64 fits.
unfoldable pub int_from_any : Value → Compiled (Option ℤ)
int_from_any null = ok none
int_from_any (int i) = ok (some i)
int_from_any (int64 i) = ok (some i)
int_from_any (float64 x) =
    if not (eq_float (float_of_int (int_of_float x)) x)
    then err not_an_integer
    else ok (some (int_of_float x))
int_from_any _ = err not_an_integer

-- `p != nil && *p < 0`
unfoldable pub is_negative : Option ℤ → Bool
is_negative none = false
is_negative (some i) = ltb_ℤ i (pos 0)

-- `p != nil && q != nil && *p > *q`
unfoldable pub exceeds : Option ℤ → Option ℤ → Bool
exceeds (some i) (some j) = ltb_ℤ j i
exceeds _ _ = false

unfoldable pub validate_min_max : Option ℤ → Option ℤ → Compiled (Unit {0})
validate_min_max min max = do
  guard (not (is_negative min)) negative_min
  guard (not (is_negative max)) negative_max
  guard (not (exceeds min max)) min_above_max

-- A key of a threshold that must be true when it is set, and how much it adds to `n`.
unfoldable pub true_when_set : CompileError → Option Value → Compiled ℕ
true_when_set e none = ok 0
true_when_set e (some (bool true)) = ok 1
true_when_set e (some _) = err e

-- 1.0
abbrev pub one : Float64
one = record { units = pos unit }

unfoldable pub agree_when_set : Option Value → Compiled ℕ
agree_when_set none = ok 0
agree_when_set (some (int i)) = if ltb_ℤ i (pos 1) then err agree_below_one else ok 1
agree_when_set (some (int64 i)) = if ltb_ℤ i (pos 1) then err agree_below_one else ok 1
agree_when_set (some (float64 x)) = if lt_float x one then err agree_below_one else ok 1
agree_when_set (some _) = err agree_not_numeric

unfoldable pub validate_threshold : Fields → Compiled (Unit {0})
validate_threshold threshold = do
  u ← true_when_set unanimous_not_true (get "unanimous" threshold)
  m ← true_when_set majority_not_true (get "majority" threshold)
  a ← agree_when_set (get "agree_at_least" threshold)
  guard (u + m + a == 1) not_one_threshold

-- The loop of `dedupeStrings`: `out` so far, whose members are those of `set`.
unfoldable pub dedupe_from : List String → List String → List String
dedupe_from out [] = out
dedupe_from out (v ∷ values) =
    let rest = dedupe_from out values in
    let with = dedupe_from (v ∷ out) values in
    if v == "" then rest else if mem out v then rest else with

-- The items are sorted at the end, so that it does not matter at which end of `out` one is put.
unfoldable pub dedupe_strings : List String → List String
dedupe_strings values = sort_strings (dedupe_from [] values)
