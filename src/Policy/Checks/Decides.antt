-- ===== src/Policy/Checks/Decides.antt =====
-- What the checks of pkg/policy/compiler.go on thresholds, bounds and scopes accept.
use intentproof_tools.Prelude.{
  ◌≡◌, ◌≢◌, ◌↔◌, ◌⊎◌, true, Eq-String, Option, none, some, ok, err, arith,
}
use intentproof_tools.Prelude.Int.{ℤ, pos, ◌≤ℤ◌}
use intentproof_tools.Value.{Value, Fields, get, bool, int, int64, float64}
use intentproof_tools.Policy.Input.{CompileError, unanimous_not_true, majority_not_true}
use intentproof_tools.Policy.Checks.{
  one, true_when_set, agree_when_set, validate_threshold, is_negative, exceeds, validate_min_max,
}

-- A number that is at least 1.
abbrev pub IsPositive : Value → Type 0
IsPositive (int i) = pos 1 ≤ℤ i
IsPositive (int64 i) = pos 1 ≤ℤ i
IsPositive (float64 x) = one.units ≤ℤ x.units
IsPositive _ = ⊥

-- An option that is set, to such a number.
abbrev pub SetPositive : Option Value → Type 0
SetPositive none = ⊥
SetPositive (some v) = IsPositive v

true_when_set_cases :
    (e : CompileError) (o : Option Value)
    → ((o ≡ none) × (true_when_set e o ≡ ok 0))
      ⊎ ((o ≡ some (bool true)) × (true_when_set e o ≡ ok 1))
      ⊎ ((o ≢ none) × (o ≢ some (bool true)) × (true_when_set e o ≡ err e))
unfolding true_when_set
true_when_set_cases e o = ground arith

agree_when_set_cases :
    (o : Option Value)
    → ((o ≡ none) × (agree_when_set o ≡ ok 0))
      ⊎ ((o ≢ none) × SetPositive o × (agree_when_set o ≡ ok 1))
      ⊎ ((o ≢ none) × (¬ SetPositive o) × ((e : CompileError) × (agree_when_set o ≡ err e)))
unfolding agree_when_set
agree_when_set_cases o = ground arith

-- A threshold passes just if one of its three keys is set and the others are not, to true or to a
-- number of at least 1.
pub validate_threshold_iff :
    (t : Fields)
    → (validate_threshold t ≡ ok tt) ↔ (
        ((get "unanimous" t ≡ some (bool true))
          × (get "majority" t ≡ none)
          × (get "agree_at_least" t ≡ none))
        ⊎ ((get "unanimous" t ≡ none)
            × (get "majority" t ≡ some (bool true))
            × (get "agree_at_least" t ≡ none))
        ⊎ ((get "unanimous" t ≡ none)
            × (get "majority" t ≡ none)
            × SetPositive (get "agree_at_least" t)))
unfolding validate_threshold
validate_threshold_iff t = ground (
  arith,
  true_when_set_cases unanimous_not_true (get "unanimous" t),
  true_when_set_cases majority_not_true (get "majority" t),
  agree_when_set_cases (get "agree_at_least" t),
)

-- An optional bound is not negative, and one is not above another.
abbrev pub NotNegative : Option ℤ → Type 0
NotNegative none = Unit
NotNegative (some i) = pos 0 ≤ℤ i

abbrev pub InOrder : Option ℤ → Option ℤ → Type 0
InOrder (some i) (some j) = i ≤ℤ j
InOrder _ _ = Unit

-- Bounds pass just if neither is negative and the lower one is not above the upper one.
pub validate_min_max_iff :
    (min max : Option ℤ)
    → (validate_min_max min max ≡ ok tt) ↔ (NotNegative min × NotNegative max × InOrder min max)
unfolding validate_min_max is_negative exceeds
validate_min_max_iff none none = ground arith
validate_min_max_iff none (some j) = ground arith
validate_min_max_iff (some i) none = ground arith
validate_min_max_iff (some i) (some j) = ground arith
