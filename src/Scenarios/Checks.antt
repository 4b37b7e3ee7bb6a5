-- ===== src/Scenarios/Checks.antt =====
-- Thresholds, bounds and scopes through the checks of pkg/policy/compiler.go.
use intentproof_tools.Prelude.{◌≡◌, ◌↔◌, ◌⊎◌, String, List, [], ◌∷◌, true, none, some, ok}
use intentproof_tools.Value.{Fields, bool, end, field, get}
use intentproof_tools.Policy.Checks.{validate_threshold}
use intentproof_tools.Policy.Checks.Decides.{validate_threshold_iff, SetPositive}

abbrev by_majority : Fields
by_majority = field "majority" (bool true) end

validate_threshold_iff_example : (validate_threshold by_majority ≡ ok tt) ↔ (
    ((get "unanimous" by_majority ≡ some (bool true))
      × (get "majority" by_majority ≡ none)
      × (get "agree_at_least" by_majority ≡ none))
    ⊎ ((get "unanimous" by_majority ≡ none)
        × (get "majority" by_majority ≡ some (bool true))
        × (get "agree_at_least" by_majority ≡ none))
    ⊎ ((get "unanimous" by_majority ≡ none)
        × (get "majority" by_majority ≡ none)
        × SetPositive (get "agree_at_least" by_majority)))
validate_threshold_iff_example = validate_threshold_iff by_majority

abbrev given : List String
given = "b" ∷ "" ∷ "a" ∷ "b" ∷ []
