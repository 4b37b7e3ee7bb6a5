-- ===== src/Verifier/Verify/Status.antt =====
-- The findings, counts and status of a run (`Verify`, pkg/verifier/verify.go).
use intentproof_tools.Prelude.{
  ℕ, ◌+◌, ◌≡◌, refl, sym, ap, ◌∙◌, String, List, [], ◌∷◌, ◌++◌, map, Bool, true, false, ltb, ◌==◌,
  Eq-String, if◌then◌else◌, arith, count_if, count_of, count_of-increment,
}
use mathlib.Core.List.{append_assoc, append-nil}
use intentproof_tools.Verifier.Types.{Attestation, Rule, Finding, Outcome, pass, fail, inconclusive}
use intentproof_tools.Verifier.Verify.{
  Env, Flow, PolicyDoc, VerificationRun, OutcomeCounts, Tally, evaluate_rule, run_rules, tally,
  no_findings, count_outcome, status_of, assemble, zero_outcomes, zero_severities,
}

-- The gravest of two outcomes, and of a list.
abbrev pub worse : Outcome → Outcome → Outcome
worse fail o = fail
worse inconclusive fail = fail
worse inconclusive _ = inconclusive
worse pass o = o

abbrev pub worst : List Finding → Outcome
worst [] = pass
worst (f ∷ findings) = worse f.outcome (worst findings)

abbrev pub is_outcome : Outcome → Outcome → Bool
is_outcome pass pass = true
is_outcome fail fail = true
is_outcome inconclusive inconclusive = true
is_outcome _ _ = false

-- How many findings have an outcome.
abbrev pub outcome_count : Outcome → List Finding → ℕ
outcome_count o = count_if (λ (f : Finding). is_outcome o f.outcome)

findings-run_rules :
    (evaluate : Rule → Finding) (rules : List Rule) (t : Tally)
    → (run_rules evaluate t rules).findings ≡ t.findings ++ map evaluate rules
unfolding run_rules tally
findings-run_rules evaluate [] t = sym (append-nil t.findings)
findings-run_rules evaluate (r ∷ rules) t =
    findings-run_rules evaluate rules (tally (evaluate r) t)
    ∙ append_assoc t.findings (evaluate r ∷ []) (map evaluate rules)

-- The counters of the loop behind some findings.
record Counted (before after : OutcomeCounts) (findings : List Finding) : Type 0 where
  passed : after.passed ≡ before.passed + outcome_count pass findings
  failed : after.failed ≡ before.failed + outcome_count fail findings
  undecided : after.undecided ≡ before.undecided + outcome_count inconclusive findings

count_outcome-Counted :
    (f : Finding) (findings : List Finding) (before after : OutcomeCounts)
    → Counted (count_outcome f.outcome before) after findings
    → Counted before after (f ∷ findings)
unfolding count_outcome
count_outcome-Counted f findings before after h = ground arith

outcomes-run_rules :
    (evaluate : Rule → Finding) (rules : List Rule) (t : Tally)
    → Counted t.outcomes (run_rules evaluate t rules).outcomes (map evaluate rules)
unfolding run_rules tally
outcomes-run_rules evaluate [] t = ground arith
outcomes-run_rules evaluate (r ∷ rules) t =
    count_outcome-Counted (evaluate r) (map evaluate rules) t.outcomes _
      (outcomes-run_rules evaluate rules (tally (evaluate r) t))

count_of-run_rules :
    (s : String) (evaluate : Rule → Finding) (rules : List Rule) (t : Tally)
    → count_of s (run_rules evaluate t rules).severities
      ≡ count_of s t.severities + count_if (λ (f : Finding). f.severity == s) (map evaluate rules)
unfolding run_rules tally
count_of-run_rules s evaluate [] t = omega arith
count_of-run_rules s evaluate (r ∷ rules) t = ground (
  arith,
  count_of-run_rules s evaluate rules (tally (evaluate r) t),
  count_of-increment s (evaluate r).severity t.severities,
)

worst-counts :
    (findings : List Finding)
    → worst findings ≡ (
        if ltb 0 (outcome_count fail findings)
        then fail
        else if ltb 0 (outcome_count inconclusive findings)
        then inconclusive
        else pass)
worst-counts [] = refl
worst-counts (f ∷ findings) = ground (arith, worst-counts findings)

count_of-zero : (s : String) → count_of s zero_severities ≡ 0
count_of-zero s = ground arith

status_of-Counted :
    (findings : List Finding) (c : OutcomeCounts)
    → Counted zero_outcomes c findings
    → status_of c ≡ worst findings
unfolding status_of
status_of-Counted findings c h = ground (arith, worst-counts findings)

-- What the caller of `Verify` may rely on, in terms of the rules alone.
pub record Reports (evaluate : Rule → Finding) (rules : List Rule) (run : VerificationRun)
    : Type 0 where
  pub findings : run.findings ≡ map evaluate rules
  pub status : run.status ≡ worst run.findings
  pub passed : run.summary.outcome_counts.passed ≡ outcome_count pass run.findings
  pub failed : run.summary.outcome_counts.failed ≡ outcome_count fail run.findings
  pub undecided : run.summary.outcome_counts.undecided ≡ outcome_count inconclusive run.findings
  pub severities :
      (s : String)
      → count_of s run.summary.severity_counts
        ≡ count_if (λ (f : Finding). f.severity == s) run.findings

pub assemble-Reports :
    (env : Env) (flow : Flow) (policy : PolicyDoc) (atts : List Attestation)
    → Reports
        (λ r. evaluate_rule env r flow.events atts)
        policy.rules
        (assemble env flow policy atts)
unfolding assemble
assemble-Reports env flow policy atts =
    let evaluate = λ (r : Rule). evaluate_rule env r flow.events atts in
    let found = findings-run_rules evaluate policy.rules no_findings in
    let counted = outcomes-run_rules evaluate policy.rules no_findings in
    record {
      findings = found;
      status = status_of-Counted _ _ counted ∙ ap worst (sym found);
      passed = omega (arith, counted.passed, ap (outcome_count pass) found);
      failed = omega (arith, counted.failed, ap (outcome_count fail) found);
      undecided = omega (arith, counted.undecided, ap (outcome_count inconclusive) found);
      severities = λ s. omega (
        arith,
        count_of-run_rules s evaluate policy.rules no_findings,
        count_of-zero s,
        ap (count_if (λ (f : Finding). f.severity == s)) found,
      );
    }
