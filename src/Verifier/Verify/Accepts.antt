-- ===== src/Verifier/Verify/Accepts.antt =====
-- When `Verify` (pkg/verifier/verify.go) returns a run, and what it has then checked.
use intentproof_tools.Prelude.{
  ◌≡◌, subst, ◌≢◌, ◌↔◌, String, List, true, Option, none, some, Eq-String, trim_space, inl, inr,
  Bool-cases, Option-cases, arith, ok, ◌>>=◌, or_err, ok-injective, Result-cases,
}
use text.Mathlib.TextEquality.{eq_iff}
use intentproof_tools.Value.{Fields, get, str}
use intentproof_tools.Verifier.Types.{Attestation, Rule, Finding}
use intentproof_tools.Verifier.Verify.{
  Env, Flow, PolicyDoc, VerificationRun, run_fingerprint_failed, evaluate_rule, assemble,
  parse_attestations, validate_declared_policy_fingerprint, tenants_agree, verify,
}
use intentproof_tools.Verifier.Verify.Status.{Reports, assemble-Reports}

-- The fingerprint that the run gets at the end changes nothing else.
fingerprinted :
    (evaluate : Rule → Finding) (rules : List Rule) (run : VerificationRun) {run' : VerificationRun}
    (fp : Option String)
    → Reports evaluate rules run
    → (or_err fp run_fingerprint_failed >>= λ v. ok (record run { run_fingerprint = v })) ≡ ok run'
    → Reports evaluate rules run'
fingerprinted evaluate rules run none r h = cc
fingerprinted evaluate rules run {run'} (some v) r h =
    subst (Reports evaluate rules) (ok-injective h) (record {
      findings = r.findings;
      status = r.status;
      passed = r.passed;
      failed = r.failed;
      undecided = r.undecided;
      severities = r.severities;
    })

-- A run that `Verify` returns was made from a flow and a policy that decode, whose tenants agree,
-- whose declared fingerprint is in order, and it reports the rules of that policy.
pub record Accepted (env : Env) (flow_data policy_data atts_data : String) (run : VerificationRun)
    : Type 0 where
  pub flow : Flow
  pub policy : PolicyDoc
  pub policy_raw : Fields
  pub atts : List Attestation
  pub flow_decoded : env.decode_flow flow_data ≡ some flow
  pub policy_decoded : env.decode_policy policy_data ≡ some policy
  pub raw_decoded : env.decode_fields policy_data ≡ some policy_raw
  pub atts_decoded : parse_attestations env.decode_attestation atts_data ≡ ok atts
  pub fingerprint_ok :
      validate_declared_policy_fingerprint env.compute_fingerprint policy_raw ≡ ok tt
  pub same_tenant : tenants_agree env flow policy ≡ true
  pub reported : Reports (λ r. evaluate_rule env r flow.events atts) policy.rules run

-- `Verify` succeeds only on inputs as `Accepted` says.
pub verify-Accepted :
    (env : Env) (flow_data policy_data atts_data : String) {run : VerificationRun}
    → verify env flow_data policy_data atts_data ≡ ok run
    → Accepted env flow_data policy_data atts_data run
unfolding verify
verify-Accepted env flow_data policy_data atts_data h =
    elim (Option-cases (env.decode_flow flow_data)) [
      | inl e ↦ cc (rw e at h)
      | inr (flow, e) ↦ elim (Option-cases (env.decode_policy policy_data)) [
        | inl e₂ ↦ cc (rw (e, e₂) at h)
        | inr (policy, e₂) ↦ elim (Option-cases (env.decode_fields policy_data)) [
          | inl e₃ ↦ cc (rw (e, e₂, e₃) at h)
          | inr (raw, e₃) ↦
              elim (Result-cases
                (validate_declared_policy_fingerprint env.compute_fingerprint raw)) [
                  | inl (x, e₄) ↦ cc (rw (e, e₂, e₃, e₄) at h)
                  | inr (tt, e₄) ↦ elim (Bool-cases (tenants_agree env flow policy)) [
                    | inr e₅ ↦ cc (rw (e, e₂, e₃, e₄, e₅) at h)
                    | inl e₅ ↦
                        elim (Result-cases (parse_attestations env.decode_attestation atts_data)) [
                          | inl (x, e₆) ↦ cc (rw (e, e₂, e₃, e₄, e₅, e₆) at h)
                          | inr (atts, e₆) ↦ record {
                            flow = flow;
                            policy = policy;
                            policy_raw = raw;
                            atts = atts;
                            flow_decoded = e;
                            policy_decoded = e₂;
                            raw_decoded = e₃;
                            atts_decoded = e₆;
                            fingerprint_ok = e₄;
                            same_tenant = e₅;
                            reported =
                                fingerprinted _ _ _
                                  (env.compute_run_fingerprint (assemble env flow policy atts))
                                  (assemble-Reports env flow policy atts)
                                  (rw (e, e₂, e₃, e₄, e₅, e₆) at h);
                          }
                        ]
                  ]
                ]
        ]
      ]
    ]

-- On inputs that decode and pass the checks, `Verify` returns the assembled run with its fingerprint.
pub verify_complete :
    (env : Env) (flow_data policy_data atts_data : String) (flow : Flow) (policy : PolicyDoc)
    (policy_raw : Fields) (atts : List Attestation) (fp : String)
    → env.decode_flow flow_data ≡ some flow
    → env.decode_policy policy_data ≡ some policy
    → env.decode_fields policy_data ≡ some policy_raw
    → validate_declared_policy_fingerprint env.compute_fingerprint policy_raw ≡ ok tt
    → tenants_agree env flow policy ≡ true
    → parse_attestations env.decode_attestation atts_data ≡ ok atts
    → env.compute_run_fingerprint (assemble env flow policy atts) ≡ some fp
    → verify env flow_data policy_data atts_data
      ≡ ok (record (assemble env flow policy atts) { run_fingerprint = fp })
unfolding verify
verify_complete env _ _ _ flow policy policy_raw atts fp e₁ e₂ e₃ e₄ e₅ e₆ e₇ =
    rw (e₁, e₂, e₃, e₄, e₅, e₆, e₇)

-- A fingerprint that the policy declares, and that is not blank, passes just if it is the computed one.
pub declared_fingerprint_iff :
    (compute : Fields → Option String) (policy : Fields) (fp : String)
    → get "policy_fingerprint" policy ≡ some (str fp)
    → trim_space fp ≢ ""
    → (validate_declared_policy_fingerprint compute policy ≡ ok tt) ↔ (compute policy ≡ some fp)
unfolding validate_declared_policy_fingerprint
declared_fingerprint_iff compute policy fp e n = rw e (elim (Option-cases (compute policy)) [
  | inl c ↦ rw c (ground (arith, eq_iff (trim_space fp) ""), ground arith)
  | inr (v, c) ↦ rw c (
    ground (arith, eq_iff (trim_space fp) "", eq_iff fp v),
    ground (arith, eq_iff (trim_space fp) "", eq_iff fp v),
  )
])
