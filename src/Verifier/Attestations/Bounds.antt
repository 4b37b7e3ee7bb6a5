-- ===== src/Verifier/Attestations/Bounds.antt =====
-- The value_bound and claim_match rules of pkg/verifier: when they pass.
use intentproof_tools.Prelude.{
  ◌≡◌, refl, ◌≢◌, ◌↔◌, inl, inr, String, List, [], ◌∷◌, Bool, true, false, not, some, ltb, ◌==◌,
  Eq-String, if◌then◌else◌, arith, In, any, any-false, any-false-of-all, count_if, count_if-any,
  eq-false, Bool-cases, Option-cases,
}
use mathlib.Core.Bool.{false≢true}
use text.Mathlib.TextEquality.{eq_iff}
use intentproof_tools.Value.{Value, Float64, get}
use intentproof_tools.Value.Number.{to_float64, values_equal}
use intentproof_tools.Verifier.Types.{
  Attestation, Rule, finding, pass, fail, Decides, decides_of_cases, decides_map,
}
use intentproof_tools.Verifier.Events.{spec_string}
use intentproof_tools.Verifier.Attestations.{
  evaluate_value_bound, evaluate_claim_match, bound_verdict, match_verdict, violates_bound,
  attested, bound_value, not_nil, attestation_ids, is_valid_value_bound_operator,
  compare_value_bound,
}

-- A verdict by a count of failures decides that no item fails.
count_Decides :
    (r : Rule) (p : Attestation → Bool) (good bad : String) (matched : List Attestation)
    → Decides
        (if ltb 0 (count_if p matched)
          then finding r fail bad [] (attestation_ids matched)
          else finding r pass good [] (attestation_ids matched))
        ((a : Attestation) → In a matched → p a ≡ false)
unfolding finding
count_Decides r p good bad matched = elim (Bool-cases (any p matched)) [
  | inl e ↦
      rw (count_if-any p matched, e)
        (decides_of_cases (finding r fail bad [] (attestation_ids matched)) _ (inr refl) (λ h. cc)
          (λ _ all. let f = any-false-of-all p matched all in cc))
  | inr e ↦
      rw (count_if-any p matched, e)
        (decides_of_cases (finding r pass good [] (attestation_ids matched)) _ (inl refl)
          (λ _ a i. any-false p matched a e i) (λ h. cc))
]

-- The number that an attestation claims, compared with the bound.
abbrev pub Holds : String → Float64 → Attestation → Type 0
Holds operator bound a =
    (x : Float64) × (to_float64 a.claim_value ≡ some x)
    × (compare_value_bound x operator bound ≡ true)

Holds-iff :
    (operator : String) (bound : Float64) (a : Attestation)
    → (violates_bound operator bound a ≡ false) ↔ Holds operator bound a
unfolding violates_bound
Holds-iff operator bound a = elim (Option-cases (to_float64 a.claim_value)) [
  | inl e ↦ rw e ((λ h. cc), λ (x, p, c). cc)
  | inr (x, e) ↦ rw e ((λ h. (x, refl, ground arith)), λ (y, p, c). ground arith)
]

-- A supported operator is not empty.
operator_given : (op : String) → is_valid_value_bound_operator op ≡ true → (op == "") ≡ false
unfolding is_valid_value_bound_operator
operator_given op h = elim (Bool-cases (op == "")) [
  | inr e ↦ e
  | inl e ↦ absurd (false≢true (rw ((eq_iff op "").0 e) at h))
]

bound_verdict_decides :
    (r : Rule) (bound : Float64) (matched : List Attestation)
    → matched ≢ []
    → Decides
        (bound_verdict (some bound) r matched)
        ((a : Attestation) → In a matched → Holds (spec_string r "operator") bound a)
unfolding bound_verdict
bound_verdict_decides r bound [] n = absurd (n refl)
bound_verdict_decides r bound (x ∷ matched) n =
    let operator = spec_string r "operator" in
    let d =
      count_Decides r (violates_bound operator bound) "pass.value_bound.satisfied"
        "fail.value_bound.out_of_range" (x ∷ matched) in
    decides_map (bound_verdict (some bound) r (x ∷ matched)) d
      (λ all a i. (Holds-iff operator bound a).0 (all a i))
      (λ all a i. (Holds-iff operator bound a).1 (all a i))

-- With a claim, a supported operator, a numeric bound and some attestation selected, a value_bound rule
-- passes just if every selected attestation claims a number that compares with the bound as the
-- operator says, and fails otherwise.
pub value_bound_decides :
    (r : Rule) (atts : List Attestation) {bound : Float64}
    → spec_string r "claim" ≢ ""
    → is_valid_value_bound_operator (spec_string r "operator") ≡ true
    → bound_value r ≡ some bound
    → attested r atts ≢ []
    → Decides
        (evaluate_value_bound r atts)
        ((a : Attestation) → In a (attested r atts) → Holds (spec_string r "operator") bound a)
unfolding evaluate_value_bound
value_bound_decides r atts {bound} c o b n =
    rw (eq-false (spec_string r "claim") "" c, operator_given (spec_string r "operator") o, o, b)
      (bound_verdict_decides r bound (attested r atts) n)

match_verdict_decides :
    (r : Rule) (expected : Value) (matched : List Attestation)
    → matched ≢ []
    → Decides
        (match_verdict (some expected) r matched)
        ((a : Attestation) → In a matched → values_equal a.claim_value expected ≡ true)
unfolding match_verdict
match_verdict_decides r expected [] n = absurd (n refl)
match_verdict_decides r expected (x ∷ matched) n =
    decides_map (match_verdict (some expected) r (x ∷ matched))
      (count_Decides r (λ a. not (values_equal a.claim_value expected)) "pass.claim_match.matched"
        "fail.claim_match.mismatch" (x ∷ matched))
      (λ all a i. let e = all a i in ground arith) (λ all a i. rw (all a i) refl)

-- With a claim, an expected value and some attestation selected, a claim_match rule passes just if
-- every selected attestation claims that value, and fails otherwise.
pub claim_match_decides :
    (r : Rule) (atts : List Attestation) {expected : Value}
    → spec_string r "claim" ≢ ""
    → not_nil (get "expected_value" r.spec) ≡ some expected
    → attested r atts ≢ []
    → Decides
        (evaluate_claim_match r atts)
        ((a : Attestation) → In a (attested r atts) → values_equal a.claim_value expected ≡ true)
unfolding evaluate_claim_match
claim_match_decides r atts {expected} c e n =
    rw (eq-false (spec_string r "claim") "" c, e)
      (match_verdict_decides r expected (attested r atts) n)
