-- ===== src/Verifier/Events/Bounds.antt =====
-- The counting rules of pkg/verifier: when they pass.
use intentproof_tools.Prelude.{
  ℕ, ◌≡◌, ◌↔◌, ◌⊎◌, List, true, Option, none, some, Eq-ℕ, length, arith,
}
use intentproof_tools.Prelude.Int.{ℤ, pos, negsuc, ◌≤ℤ◌}
use intentproof_tools.Value.{Value, get, eq_ℤ}
use intentproof_tools.Value.Number.{int_from_interface}
use intentproof_tools.Verifier.Types.{Event, Rule, finding, event_ids, Decides}
use intentproof_tools.Verifier.Events.{
  evaluate_required, evaluate_cardinality, count_bounds, selected, min_val, max_val,
}

-- The count is at least `min`, and at most `max` unless that is negative.
abbrev pub InBounds : Rule → ℕ → Type 0
InBounds r n = (min_val r ≤ℤ pos n) × ((max_val r ≤ℤ negsuc 0) ⊎ (pos n ≤ℤ max_val r))

-- With `exactly`, that count; else the bounds.
abbrev pub CountOk : Option Value → Rule → ℕ → Type 0
CountOk none r n = InBounds r n
CountOk (some exactly) r n = pos n ≡ int_from_interface exactly

pub eq_ℤ_iff : (a b : ℤ) → (eq_ℤ a b ≡ true) ↔ (a ≡ b)
unfolding eq_ℤ
eq_ℤ_iff a b = ground arith

-- A required rule passes if the number of selected events lies in its bounds and fails if not; the
-- selected events are the evidence.
pub required_decides :
    (r : Rule) (events : List Event)
    → Decides (evaluate_required r events) (InBounds r (length (selected r events)))
      × ((evaluate_required r events).evidence_event_ids ≡ event_ids (selected r events))
unfolding evaluate_required finding
required_decides r events = ((ground arith, ground arith), ground arith)

count_bounds_decides :
    (exactly : Option Value) (r : Rule) (matched : List Event)
    → Decides (count_bounds exactly r matched) (CountOk exactly r (length matched))
unfolding count_bounds finding
count_bounds_decides none r matched = (ground arith, ground arith)
count_bounds_decides (some exactly) r matched =
    let e = eq_ℤ_iff (pos (length matched)) (int_from_interface exactly) in
    (ground arith, ground arith)

-- A cardinality rule passes if the number of selected events is the exact number that it asks for, or
-- without one lies in its bounds, and fails if not.
pub cardinality_decides :
    (r : Rule) (events : List Event)
    → Decides
        (evaluate_cardinality r events)
        (CountOk (get "exactly" r.spec) r (length (selected r events)))
unfolding evaluate_cardinality
cardinality_decides r events = count_bounds_decides (get "exactly" r.spec) r (selected r events)
