-- ===== src/Verifier/Events/Forbidden.antt =====
-- The forbidden and ordering rules of pkg/verifier: when they pass.
use intentproof_tools.Prelude.{
  ◌≡◌, refl, sym, ap, ◌∙◌, ◌≢◌, inl, inr, String, List, [], ◌∷◌, true, false, not, Eq-String,
  if◌then◌else◌, is_empty, arith, In, any, keep, any-true, any-of-In, any-false, Bool-cases,
  eq-false, eq-true,
}
use mathlib.Core.Bool.{true≢false}
use intentproof_tools.Verifier.Types.{
  Event, Rule, finding, pass, fail, event_ids, Decides, Forbids, Settled, decides_of_cases,
  forbids_of_cases,
}
use intentproof_tools.Verifier.Filters.{filter_events}
use intentproof_tools.Verifier.Events.{
  evaluate_forbidden, after_predecessor, without_predecessor, completes_before, selected,
  spec_string, spec_fields,
}

-- The events before which, or behind which, a forbidden rule looks.
abbrev pub predecessors : Rule → String → List Event → List Event
predecessors r name events =
    filter_events events (spec_string r name) (spec_fields r "where_predecessor")

-- Some event of the second list completes behind one of the first.
abbrev pub SomeAfter : List Event → List Event → Type 0
SomeAfter before matched =
    (m : Event) × In m matched × (p : Event) × In p before × (completes_before p m ≡ true)

-- Every event of the second list has one of the first that completes before it.
abbrev pub AllPreceded : List Event → List Event → Type 0
AllPreceded before matched =
    (m : Event) → In m matched → (p : Event) × In p before × (completes_before p m ≡ true)

after_predecessor-fail :
    (r : Rule) (before matched : List Event)
    → (after_predecessor r before matched).outcome ≡ fail
    → SomeAfter before matched
unfolding after_predecessor finding
after_predecessor-fail r before [] h = cc
after_predecessor-fail r before (m ∷ matched) h =
    elim (Bool-cases (any (λ p. completes_before p m) before)) [
      | inl e ↦
          let (p, i, c) = any-true (λ p. completes_before p m) before e in (m, inl refl, p, i, c)
      | inr e ↦
          let (n, i, p, j, c) = after_predecessor-fail r before matched (rw e at h) in
          (n, inr i, p, j, c)
    ]

after_predecessor-pass :
    (r : Rule) (before matched : List Event)
    → (after_predecessor r before matched).outcome ≡ pass
    → (m : Event) → In m matched
    → (p : Event) → In p before
    → completes_before p m ≡ false
unfolding after_predecessor finding
after_predecessor-pass r before [] h m i p j = elim i [ ]
after_predecessor-pass r before (x ∷ matched) h m i p j =
    elim (Bool-cases (any (λ q. completes_before q x) before)) [
      | inl e ↦ cc (rw e at h)
      | inr e ↦ elim i [
        | inl q ↦ ap (completes_before p) q ∙ any-false (λ q. completes_before q x) before p e j
        | inr k ↦ after_predecessor-pass r before matched (rw e at h) m k p j
      ]
    ]

after_predecessor-cases :
    (r : Rule) (before matched : List Event) → Settled (after_predecessor r before matched)
unfolding after_predecessor finding
after_predecessor-cases r before [] = inl refl
after_predecessor-cases r before (m ∷ matched) =
    ground (arith, after_predecessor-cases r before matched)

after_predecessor-Forbids :
    (r : Rule) (before matched : List Event)
    → Forbids (after_predecessor r before matched) (SomeAfter before matched)
after_predecessor-Forbids r before matched =
    forbids_of_cases (after_predecessor r before matched) (SomeAfter before matched)
      (after_predecessor-cases r before matched)
      (λ h (m, i, p, j, c).
        absurd (true≢false (sym c ∙ after_predecessor-pass r before matched h m i p j)))
      (after_predecessor-fail r before matched)

-- The events without an earlier predecessor.
abbrev pub unpreceded : List Event → List Event → List Event
unpreceded before = keep (λ m. not (any (λ p. completes_before p m) before))

unpreceded-nil :
    (before matched : List Event) → unpreceded before matched ≡ [] → AllPreceded before matched
unpreceded-nil before [] h m i = elim i [ ]
unpreceded-nil before (x ∷ matched) h m i =
    elim (Bool-cases (any (λ p. completes_before p x) before)) [
      | inr e ↦ cc (rw e at h)
      | inl e ↦ elim i [
        | inl q ↦
            let (p, j, c) = any-true (λ p. completes_before p x) before e in
            (p, j, ap (completes_before p) q ∙ c)
        | inr k ↦ unpreceded-nil before matched (rw e at h) m k
      ]
    ]

unpreceded-of-all :
    (before matched : List Event) → AllPreceded before matched → unpreceded before matched ≡ []
unpreceded-of-all before [] h = refl
unpreceded-of-all before (x ∷ matched) h =
    let (p, j, c) = h x (inl refl) in
    rw (any-of-In (λ p. completes_before p x) before p j c)
      (unpreceded-of-all before matched (λ m i. h m (inr i)))

-- Without predecessors every event lacks one.
unpreceded-none : (matched : List Event) → unpreceded [] matched ≡ matched
unpreceded-none [] = refl
unpreceded-none (m ∷ matched) = ap (λ l. m ∷ l) (unpreceded-none matched)

without_predecessor_lem :
    (r : Rule) (before matched : List Event)
    → without_predecessor r before matched ≡ (
        if is_empty (unpreceded before matched)
        then finding r pass "pass.forbidden.absent" [] []
        else finding r fail "fail.forbidden.without_predecessor"
            (event_ids (unpreceded before matched))
            [])
unfolding without_predecessor
without_predecessor_lem r [] matched = rw (unpreceded-none matched) (ground arith)
without_predecessor_lem r (p ∷ before) matched = ground arith

without_predecessor-Decides :
    (r : Rule) (before matched : List Event)
    → Decides (without_predecessor r before matched) (AllPreceded before matched)
without_predecessor-Decides r before matched = rw (without_predecessor_lem r before matched) (
    by_unpreceded (unpreceded before matched) (unpreceded-nil before matched)
      (unpreceded-of-all before matched))
  where
    by_unpreceded :
        (l : List Event)
        → (l ≡ [] → AllPreceded before matched)
        → (AllPreceded before matched → l ≡ [])
        → Decides
            (if is_empty l
              then finding r pass "pass.forbidden.absent" [] []
              else finding r fail "fail.forbidden.without_predecessor" (event_ids l) [])
            (AllPreceded before matched)
    by_unpreceded [] s c =
        decides_of_cases (finding r pass "pass.forbidden.absent" [] []) _
          (inl (unfold finding in refl)) (λ _. s refl) (λ h. unfold finding in cc)
    by_unpreceded (x ∷ l) s c =
        decides_of_cases
          (finding r fail "fail.forbidden.without_predecessor" (event_ids (x ∷ l)) []) _
          (inr (unfold finding in refl)) (λ h. unfold finding in cc) (λ _ a. cc (c a))

module _ (r : Rule) (events : List Event) where
  -- A forbidden rule with `after` fails just if a selected event completes behind an event of that action
  -- that passes the filter `where_predecessor`, the times of both being known.
  pub forbidden_after :
      spec_string r "after" ≢ ""
      → Forbids
          (evaluate_forbidden r events)
          (SomeAfter (predecessors r "after" events) (selected r events))
  unfolding evaluate_forbidden
  forbidden_after h =
      rw (eq-false (spec_string r "after") "" h)
        (after_predecessor-Forbids r (predecessors r "after" events) (selected r events))

  -- A forbidden rule with `without_predecessor`, and no `after`, passes just if every selected event
  -- has an event of that action that completes before it.
  pub forbidden_without_predecessor :
      spec_string r "after" ≡ ""
      → spec_string r "without_predecessor" ≢ ""
      → Decides
          (evaluate_forbidden r events)
          (AllPreceded (predecessors r "without_predecessor" events) (selected r events))
  unfolding evaluate_forbidden
  forbidden_without_predecessor e h =
      rw (eq-true (spec_string r "after") "" e, eq-false (spec_string r "without_predecessor") "" h)
        (without_predecessor-Decides r (predecessors r "without_predecessor" events)
          (selected r events))

  -- Without either it passes just if no event is selected.
  pub forbidden_plain :
      spec_string r "after" ≡ ""
      → spec_string r "without_predecessor" ≡ ""
      → Decides (evaluate_forbidden r events) (selected r events ≡ [])
  unfolding evaluate_forbidden finding
  forbidden_plain e f =
      rw (eq-true (spec_string r "after") "" e, eq-true (spec_string r "without_predecessor") "" f)
        ((ground arith, ground arith), (ground arith, ground arith))
