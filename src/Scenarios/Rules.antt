-- ===== src/Scenarios/Rules.antt =====
-- The rule evaluators of pkg/verifier on a refund flow.
use intentproof_tools.Prelude.{
  ◌*◌, ◌^◌, ◌≡◌, refl, String, List, [], ◌∷◌, Option, none, some, length, ne-of-eq-false,
}
use intentproof_tools.Prelude.Int
use intentproof_tools.Prelude.Int.{ℤ, pos, negsuc, ◌≤ℤ◌}
use intentproof_tools.Value
use intentproof_tools.Value.{
  Value, Fields, Float64, null, bool, str, float64, obj, arr, end, field, nil, cons,
}
use intentproof_tools.Value.Number
use intentproof_tools.Verifier.Types.{Event, Rule, finding, pass, Decides, Forbids, event_ids}
use intentproof_tools.Verifier.Time
use intentproof_tools.Verifier.Time.{parse_rfc3339, parse_event_time, earliest_completion}
use intentproof_tools.Verifier.Filters
use intentproof_tools.Verifier.Events
use intentproof_tools.Verifier.Events.Bounds.{cardinality_decides, CountOk}
use intentproof_tools.Verifier.Events.Order.{
  FirstBefore, named, ordering_decides, elapsed, temporal_decides,
}
use intentproof_tools.Verifier.Events.Forbidden.{predecessors, SomeAfter, forbidden_after}

abbrev event : String → String → String → Event
event id action at = record {
  event_id = id;
  action = action;
  status = "ok";
  started_at = at;
  completed_at = at;
  attributes = end;
}

abbrev flow : List Event
flow =
    event "e1" "approve" "2026-05-12T00:00:00Z"
    ∷ event "e2" "refund" "2026-05-12T00:00:05Z"
    ∷ event "e3" "refund" "2026-05-12T02:00:05+02:00"
    ∷ []

abbrev rule : String → Fields → Rule
rule category spec = record { id = "r"; category = category; severity = "high"; spec = spec }

epoch_year_one : parse_rfc3339 "0001-01-01T00:00:00Z" ≡ some (pos 0)
unfolding parse_rfc3339
epoch_year_one = refl

leap_day : parse_rfc3339 "2024-02-29T1:02:03,5-00:30" ≡ parse_rfc3339 "2024-02-29T01:32:03.500Z"
unfolding parse_rfc3339
leap_day = refl

no_leap_day : parse_rfc3339 "2023-02-29T00:00:00Z" ≡ none
unfolding parse_rfc3339
no_leap_day = refl

abbrev one : Value
one = float64 (record { units = pos (2 ^ 1074) })

abbrev exact_two : Rule
exact_two = rule "cardinality" (
    field "action" (str "refund")
      (field "exactly" (float64 (record { units = pos (2 * 2 ^ 1074) })) end))

-- What a run of the evaluators computes with.
abbrev opened : Unit {0}
unfolding Events.evaluate_required Events.evaluate_cardinality Events.evaluate_forbidden
    Events.evaluate_ordering Events.evaluate_temporal Events.completes_before Events.sub_time
    Filters.filter_events Filters.event_matches Filters.matches_where Value.get Value.eq_ℤ
    Number.int_from_interface Number.int_of_float Number.unit finding event_ids parse_rfc3339
    parse_event_time earliest_completion Time.earliest_from Time.earlier Int.◌-ℤ◌
opened = tt

cardinality_runs : (Events.evaluate_cardinality exact_two flow).outcome ≡ pass
unfolding opened
cardinality_runs = refl

cardinality_decides_example : Decides (Events.evaluate_cardinality exact_two flow) (
    CountOk
      (Value.get "exactly" exact_two.spec)
      exact_two
      (length (Events.selected exact_two flow)))
cardinality_decides_example = cardinality_decides exact_two flow

abbrev one_refund : Rule
one_refund = rule "required" (field "action" (str "refund") (field "max" one end))

required_runs : (Events.evaluate_required one_refund flow).reason ≡ "fail.required.over_max"
unfolding opened
required_runs = refl

abbrev no_late_refund : Rule
no_late_refund =
    rule "forbidden" (field "action" (str "refund") (field "after" (str "approve") end))

forbidden_runs : (Events.evaluate_forbidden no_late_refund flow).evidence_event_ids ≡ "e2" ∷ []
unfolding opened
forbidden_runs = refl

forbidden_after_example :
    Forbids
      (Events.evaluate_forbidden no_late_refund flow)
      (SomeAfter (predecessors no_late_refund "after" flow) (Events.selected no_late_refund flow))
unfolding opened
forbidden_after_example = forbidden_after no_late_refund flow (ne-of-eq-false "approve" "" refl)

abbrev approved_refund : Rule
approved_refund =
    rule "forbidden"
      (field "action" (str "refund") (field "without_predecessor" (str "approve") end))

abbrev approve_first : Rule
approve_first = rule "ordering" (field "before" (str "approve") (field "after" (str "refund") end))

ordering_runs : (Events.evaluate_ordering approve_first flow).outcome ≡ pass
unfolding opened
ordering_runs = refl

ordering_decides_example :
    Decides
      (Events.evaluate_ordering approve_first flow)
      (FirstBefore (named approve_first "before" flow) (named approve_first "after" flow))
unfolding opened
ordering_decides_example = ordering_decides approve_first flow (λ e. cc) (λ e. cc)

abbrev soon : Rule
soon = rule "temporal" (
    field "from" (obj (field "action" (str "approve") end))
      (field "to" (obj (field "action" (str "refund") end)) (field "max" (str "PT5S") end)))

-- Reads any duration as five seconds.
abbrev five_seconds : String → Option ℤ
five_seconds _ = some (pos 5000000000)

temporal_runs : (Events.evaluate_temporal five_seconds soon flow).outcome ≡ pass
unfolding opened
temporal_runs = refl

temporal_decides_example :
    Decides
      (Events.evaluate_temporal five_seconds soon flow)
      ((pos 0 ≤ℤ elapsed soon flow) × (elapsed soon flow ≤ℤ pos 5000000000))
unfolding opened
temporal_decides_example =
    temporal_decides five_seconds soon flow (λ e. cc) (λ e. cc) (λ e. cc) (λ e. cc) refl
