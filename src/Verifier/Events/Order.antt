-- ===== src/Verifier/Events/Order.antt =====
-- Time in pkg/verifier: the earliest completion, and when an ordering rule passes.
use intentproof_tools.Prelude.{
  ◌≡◌, refl, sym, ap, ◌∙◌, ◌≢◌, ◌⊎◌, inl, inr, String, List, [], ◌∷◌, Bool, true, false, not, ◌&&◌,
  Option, none, some, Eq-ℕ, Eq-String, arith, In,
}
use intentproof_tools.Prelude.Int.{ℤ, pos, ◌≤ℤ◌}
use intentproof_tools.Value.{eq_ℤ}
use intentproof_tools.Verifier.Types.{Event, Rule, finding, Decides, decides_of_cases}
use intentproof_tools.Verifier.Time.{
  Time, zero_time, is_zero, before, parse_event_time, earlier, earliest_from, earliest_completion,
}
use intentproof_tools.Verifier.Filters.{filter_events}
use intentproof_tools.Verifier.Events.{
  evaluate_ordering, evaluate_temporal, spec_string, spec_fields, anchor_action, sub_time,
}

-- When an event completed, as the verifier reads it.
abbrev pub completion : Event → Time
completion e = parse_event_time e.completed_at

-- `t` is the earliest of the known times of some events, or zero if none is known.
pub record IsEarliest (t : Time) (events : List Event) : Type 0 where
  pub bounds :
      (e : Event) → In e events → completion e ≢ zero_time → (t ≢ zero_time) × (t ≤ℤ completion e)
  pub attained : t ≢ zero_time → (e : Event) × In e events × (completion e ≡ t)

earlier-keeps : (t u : Time) → t ≢ zero_time → (earlier t u ≢ zero_time) × (earlier t u ≤ℤ t)
unfolding earlier eq_ℤ
earlier-keeps t u h = (ground arith, ground arith)

earlier-takes : (t u : Time) → u ≢ zero_time → (earlier t u ≢ zero_time) × (earlier t u ≤ℤ u)
unfolding earlier eq_ℤ
earlier-takes t u h = (ground arith, ground arith)

earlier-cases : (t u : Time) → (earlier t u ≡ t) ⊎ (earlier t u ≡ u)
unfolding earlier
earlier-cases t u = ground arith

-- The loop keeps a time found before, or one that is earlier.
earliest_from-keeps :
    (events : List Event) (t : Time)
    → t ≢ zero_time
    → (earliest_from t events ≢ zero_time) × (earliest_from t events ≤ℤ t)
unfolding earliest_from
earliest_from-keeps [] t h = (h, omega arith)
earliest_from-keeps (e ∷ events) t h =
    let (n, b) = earlier-keeps t (completion e) h in
    let (m, c) = earliest_from-keeps events (earlier t (completion e)) n in (m, omega arith)

earliest_from-bounds :
    (events : List Event) (t : Time) (e : Event)
    → In e events
    → completion e ≢ zero_time
    → (earliest_from t events ≢ zero_time) × (earliest_from t events ≤ℤ completion e)
unfolding earliest_from
earliest_from-bounds [] t e i h = elim i [ ]
earliest_from-bounds (x ∷ events) t e (inl p) h =
    let (n, b) = earlier-takes t (completion x) (λ z. h (ap completion p ∙ z)) in
    let (m, c) = earliest_from-keeps events (earlier t (completion x)) n in
    (m, rw (ap completion p) (omega arith))
earliest_from-bounds (x ∷ events) t e (inr i) h =
    earliest_from-bounds events (earlier t (completion x)) e i h

earliest_from-attained :
    (events : List Event) (t : Time)
    → (earliest_from t events ≡ t)
      ⊎ ((e : Event) × In e events × (completion e ≡ earliest_from t events))
unfolding earliest_from
earliest_from-attained [] t = inl refl
earliest_from-attained (x ∷ events) t =
    elim (earliest_from-attained events (earlier t (completion x))) [
      | inr (e, i, p) ↦ inr (e, inr i, p)
      | inl p ↦ elim (earlier-cases t (completion x)) [
        | inl q ↦ inl (p ∙ q)
        | inr q ↦ inr (x, inl refl, sym (p ∙ q))
      ]
    ]

-- `earliestCompletion` finds the earliest completion time that can be read, and zero just if there is none.
pub earliest_completion-IsEarliest :
    (events : List Event) → IsEarliest (earliest_completion events) events
unfolding earliest_completion
earliest_completion-IsEarliest events = record {
  bounds = λ e i h. earliest_from-bounds events zero_time e i h;
  attained = λ h. elim (earliest_from-attained events zero_time) [
    | inl p ↦ absurd (h p)
    | inr found ↦ found
  ];
}

abbrev pub Known : Event → Type 0
Known e = completion e ≢ zero_time

-- Some event of the first list completes before every event of the second, and one of those is known.
pub record FirstBefore (first second : List Event) : Type 0 where
  pub b : Event
  pub b_in : In b first
  pub b_known : Known b
  pub a : Event
  pub a_in : In a second
  pub a_known : Known a
  pub all_later : (e : Event) → In e second → Known e → before (completion b) (completion e) ≡ true

-- The test of the evaluator, at the earliest times of both lists.
abbrev in_order : List Event → List Event → Bool
in_order first second =
    not (is_zero (earliest_completion first))
    && not (is_zero (earliest_completion second))
    && before (earliest_completion first) (earliest_completion second)

known_of_test : (t : Time) → not (is_zero t) ≡ true → t ≢ zero_time
unfolding eq_ℤ
known_of_test t h = ground arith

test_of_known : (t : Time) → t ≢ zero_time → not (is_zero t) ≡ true
unfolding eq_ℤ
test_of_known t h = ground arith

in_order-FirstBefore :
    (first second : List Event) → in_order first second ≡ true → FirstBefore first second
in_order-FirstBefore first second h =
    let f = earliest_completion-IsEarliest first in
    let s = earliest_completion-IsEarliest second in
    let f_known = known_of_test (earliest_completion first) (ground arith) in
    let s_known = known_of_test (earliest_completion second) (ground arith) in
    let (b, b_in, p) = f.attained f_known in
    let (a, a_in, q) = s.attained s_known in
    record {
      b = b;
      b_in = b_in;
      b_known = λ z. f_known (sym p ∙ z);
      a = a;
      a_in = a_in;
      a_known = λ z. s_known (sym q ∙ z);
      all_later = λ e i k. let (_, l) = s.bounds e i k in rw p (ground arith);
    }

FirstBefore-in_order :
    (first second : List Event) → FirstBefore first second → in_order first second ≡ true
FirstBefore-in_order first second o =
    let (f_known, l) = (earliest_completion-IsEarliest first).bounds o.b o.b_in o.b_known in
    let s = earliest_completion-IsEarliest second in
    let (s_known, _) = s.bounds o.a o.a_in o.a_known in
    let (e, i, p) = s.attained s_known in
    let later : before (completion o.b) (earliest_completion second) ≡ true =
      rw p at (o.all_later e i (λ z. s_known (sym p ∙ z))) in
    rw (test_of_known _ f_known, test_of_known _ s_known) (ground arith)

-- The events that an ordering rule names.
abbrev pub named : Rule → String → List Event → List Event
named r name events = filter_events events (spec_string r name) none

-- With events of both actions an ordering rule passes just if some event of the first completes before
-- every event of the second whose time is known, of which there is one; otherwise it fails. Without
-- events of either action it is inconclusive.
pub ordering_decides :
    (r : Rule) (events : List Event)
    → named r "before" events ≢ []
    → named r "after" events ≢ []
    → Decides
        (evaluate_ordering r events)
        (FirstBefore (named r "before" events) (named r "after" events))
unfolding evaluate_ordering finding
ordering_decides r events n m =
    let f = in_order-FirstBefore (named r "before" events) (named r "after" events) in
    let g = FirstBefore-in_order (named r "before" events) (named r "after" events) in
    decides_of_cases (evaluate_ordering r events) _ (ground arith) (λ h. f (ground arith))
      (λ h o. let t = g o in ground arith)

test_of_known_false : (t : Time) → t ≢ zero_time → is_zero t ≡ false
unfolding eq_ℤ
test_of_known_false t h = ground arith

-- The events of an anchor of a temporal rule, and the time from the one anchor to the other.
abbrev pub anchors : Rule → String → List Event → List Event
anchors r name events = filter_events events (anchor_action (spec_fields r name)) none

abbrev pub elapsed : Rule → List Event → ℤ
elapsed r events =
    sub_time (earliest_completion (anchors r "to" events))
      (earliest_completion (anchors r "from" events))

-- Where both anchors have events, known times and a valid limit, a temporal rule passes just if the
-- time from the one to the other is not negative and within the limit; otherwise it fails.
pub temporal_decides :
    (parse : String → Option ℤ) (r : Rule) (events : List Event) {limit : ℤ}
    → anchors r "from" events ≢ []
    → anchors r "to" events ≢ []
    → earliest_completion (anchors r "from" events) ≢ zero_time
    → earliest_completion (anchors r "to" events) ≢ zero_time
    → parse (spec_string r "max") ≡ some limit
    → Decides
        (evaluate_temporal parse r events)
        ((pos 0 ≤ℤ elapsed r events) × (elapsed r events ≤ℤ limit))
unfolding evaluate_temporal finding
temporal_decides parse r events {limit} n m f t e =
    rw (test_of_known_false _ f, test_of_known_false _ t, e)
      ((ground arith, ground arith), (ground arith, ground arith))
