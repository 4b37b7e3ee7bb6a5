-- ===== src/Verifier/Events.antt =====
-- The evaluators of pkg/verifier that read the events of a flow: rule_required.go, rule_forbidden.go,
-- rule_ordering.go, rule_cardinality.go and rule_temporal.go.
pub mod Bounds
pub mod Order
pub mod Forbidden
use intentproof_tools.Prelude.{
  ℕ, suc, ◌+◌, ◌-◌, String, List, [], ◌∷◌, ◌++◌, Bool, true, false, not, ◌&&◌, ◌||◌, Option, none,
  some, ltb, leb, ◌==◌, Eq-ℕ, Eq-String, if◌then◌else◌, length, is_empty, any, keep,
}
use intentproof_tools.Prelude.Int.{ℤ, pos, negsuc, ltb_ℤ, ◌-ℤ◌}
use intentproof_tools.Value.{Value, Fields, get, as_string, as_fields, or_empty, eq_ℤ}
use intentproof_tools.Value.Number.{int_from_interface}
use intentproof_tools.Verifier.Types.{
  Event, Rule, Finding, finding, event_ids, pass, fail, inconclusive,
}
use intentproof_tools.Verifier.Time.{
  Time, is_zero, before, after, parse_event_time, earliest_completion,
}
use intentproof_tools.Verifier.Filters.{filter_events}

-- `s, _ := spec[k].(string)`
abbrev pub spec_string : Rule → String → String
spec_string r k = or_empty (as_string (get k r.spec))

abbrev pub spec_fields : Rule → String → Option Fields
spec_fields r k = as_fields (get k r.spec)

-- `if v, ok := spec[k]; ok { … intFromInterface(v) }`
abbrev int_or : ℤ → Option Value → ℤ
int_or d none = d
int_or d (some v) = int_from_interface v

abbrev pub min_val : Rule → ℤ
min_val r = int_or (pos 0) (get "min" r.spec)

abbrev pub max_val : Rule → ℤ
max_val r = int_or (negsuc 0) (get "max" r.spec)

-- The count falls short of `min`, or a `max` that is not negative is exceeded.
abbrev pub under_min : Rule → ℕ → Bool
under_min r count = ltb_ℤ (pos count) (min_val r)

abbrev pub over_max : Rule → ℕ → Bool
over_max r count = not (ltb_ℤ (max_val r) (pos 0)) && ltb_ℤ (max_val r) (pos count)

-- The events that a rule selects.
abbrev pub selected : Rule → List Event → List Event
selected r events = filter_events events (spec_string r "action") (spec_fields r "where")

unfoldable pub evaluate_required : Rule → List Event → Finding
evaluate_required r events =
    let matched = selected r events in
    let count = length matched in
    if under_min r count
    then finding r fail (if count == 0 then "fail.required.missing" else "fail.required.under_min")
        (event_ids matched) []
    else if over_max r count
    then finding r fail "fail.required.over_max" (event_ids matched) []
    else finding r pass "pass.required.satisfied" (event_ids matched) []

within_bounds : Rule → List Event → Finding
within_bounds r matched =
    if under_min r (length matched)
    then finding r fail "fail.cardinality.under_min" (event_ids matched) []
    else if over_max r (length matched)
    then finding r fail "fail.cardinality.over_max" (event_ids matched) []
    else finding r pass "pass.cardinality.satisfied" (event_ids matched) []

count_bounds : Option Value → Rule → List Event → Finding
unfolding within_bounds
count_bounds none r matched = within_bounds r matched
count_bounds (some exactly) r matched =
    if eq_ℤ (pos (length matched)) (int_from_interface exactly)
    then finding r pass "pass.cardinality.satisfied" (event_ids matched) []
    else finding r fail "fail.cardinality.not_exact" (event_ids matched) []

unfoldable pub evaluate_cardinality : Rule → List Event → Finding
unfolding count_bounds
evaluate_cardinality r events = count_bounds (get "exactly" r.spec) r (selected r events)

-- The test of the loops of `evaluateForbidden`: both times are known and `q` completes before `p`.
unfoldable pub completes_before : Event → Event → Bool
completes_before q p =
    let q_time = parse_event_time q.completed_at in
    let p_time = parse_event_time p.completed_at in
    not (is_zero p_time) && not (is_zero q_time) && before q_time p_time

-- The loops over `matched` and `predecessors` return at the first event that follows a predecessor.
after_predecessor : Rule → List Event → List Event → Finding
after_predecessor r predecessors [] = finding r pass "pass.forbidden.absent" [] []
after_predecessor r predecessors (m ∷ matched) =
    if any (λ p. completes_before p m) predecessors
    then finding r fail "fail.forbidden.after_predecessor" (m.event_id ∷ []) []
    else after_predecessor r predecessors matched

without_predecessor : Rule → List Event → List Event → Finding
without_predecessor r predecessors matched =
    let unmatched = keep (λ m. not (any (λ p. completes_before p m) predecessors)) matched in
    if is_empty predecessors && not (is_empty matched)
    then finding r fail "fail.forbidden.without_predecessor" (event_ids matched) []
    else if not (is_empty unmatched)
    then finding r fail "fail.forbidden.without_predecessor" (event_ids unmatched) []
    else finding r pass "pass.forbidden.absent" [] []

unfoldable pub evaluate_forbidden : Rule → List Event → Finding
unfolding after_predecessor without_predecessor
evaluate_forbidden r events =
    let matched = selected r events in
    let predecessors =
      λ (action : String). filter_events events action (spec_fields r "where_predecessor") in
    if not (spec_string r "after" == "")
    then after_predecessor r (predecessors (spec_string r "after")) matched
    else if not (spec_string r "without_predecessor" == "")
    then without_predecessor r (predecessors (spec_string r "without_predecessor")) matched
    else if not (is_empty matched)
    then finding r fail "fail.forbidden.present" (event_ids matched) []
    else finding r pass "pass.forbidden.absent" [] []

unfoldable pub evaluate_ordering : Rule → List Event → Finding
evaluate_ordering r events =
    let before_events = filter_events events (spec_string r "before") none in
    let after_events = filter_events events (spec_string r "after") none in
    let before_time = earliest_completion before_events in
    let after_time = earliest_completion after_events in
    if is_empty before_events
    then finding r inconclusive "inconclusive.ordering.before_missing" [] []
    else if is_empty after_events
    then finding r inconclusive "inconclusive.ordering.after_missing" [] []
    else if not (is_zero before_time) && not (is_zero after_time) && before before_time after_time
    then finding r pass "pass.ordering.satisfied" (event_ids (before_events ++ after_events)) []
    else finding r fail "fail.ordering.out_of_order" (event_ids (before_events ++ after_events)) []

-- `s, _ := spec[k]["action"].(string)`, where a field that is no map has no action.
abbrev pub anchor_action : Option Fields → String
anchor_action none = ""
anchor_action (some m) = or_empty (as_string (get "action" m))

-- `t.Sub(u)` stops at the ends of an int64.
unfoldable pub sub_time : Time → Time → ℤ
sub_time t u =
    let d = t -ℤ u in
    if ltb_ℤ (pos 9223372036854775807) d
    then pos 9223372036854775807
    else if ltb_ℤ d (negsuc 9223372036854775807)
    then negsuc 9223372036854775807
    else d

-- The verdict at the duration between the anchors and the duration allowed, if that is valid.
window : Rule → ℤ → Option ℤ → Finding
window r duration none = finding r inconclusive "inconclusive.temporal.duration_invalid" [] []
window r duration (some max_duration) =
    if ltb_ℤ max_duration duration
    then finding r fail "fail.temporal.exceeded_max" [] []
    else finding r pass "pass.temporal.within_window" [] []

-- `parse_iso_duration` is a parameter: it reads a duration in nanoseconds.
unfoldable pub evaluate_temporal : (String → Option ℤ) → Rule → List Event → Finding
unfolding window
evaluate_temporal parse_iso_duration r events =
    let from_events = filter_events events (anchor_action (spec_fields r "from")) none in
    let to_events = filter_events events (anchor_action (spec_fields r "to")) none in
    let from_time = earliest_completion from_events in
    let to_time = earliest_completion to_events in
    let duration = sub_time to_time from_time in
    if is_empty from_events
    then finding r inconclusive "inconclusive.temporal.missing_anchor" [] []
    else if is_empty to_events
    then finding r inconclusive "inconclusive.temporal.missing_anchor" [] []
    else if is_zero from_time || is_zero to_time
    then finding r inconclusive "inconclusive.temporal.missing_anchor" [] []
    else if ltb_ℤ duration (pos 0)
    then finding r fail "fail.temporal.negative_interval" [] []
    else window r duration (parse_iso_duration (spec_string r "max"))
