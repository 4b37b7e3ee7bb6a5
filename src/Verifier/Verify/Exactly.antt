-- ===== src/Verifier/Verify/Exactly.antt =====
-- Exactly when `Verify` (pkg/verifier/verify.go) returns a run, in terms of its inputs.
use text.Mathlib.TextEquality.{eq_iff}
use intentproof_tools.Prelude.{
  ◌≡◌, ◌≢◌, ◌↔◌, ◌⊎◌, refl, sym, ap, subst, eq-true, ◌∙◌, inl, inr, String, List, [], ◌∷◌, true,
  Option, none, some, All, ◌==◌, Eq-String, trim_space, ok, or_err, bind-ok, guard-ok, or_err-ok,
  ok-injective, ne-of-eq-false, Bool-cases, arith,
}
use intentproof_tools.Value.{Fields, Value, get, obj, arr, str, bool, float64, int, int64, any_map}
use intentproof_tools.Value.{null}
use intentproof_tools.Verifier.Types.{Attestation}
use intentproof_tools.Verifier.Verify.{
  Env, Flow, PolicyDoc, VerificationRun, parse_attestation, assemble, split_lines, decode_lines,
  parse_attestations, check_fingerprint, fingerprint, fingerprint_mismatch,
  validate_declared_policy_fingerprint, tenants_agree, verify,
}
use intentproof_tools.Verifier.Verify.Accepts.{verify-Accepted, verify_complete}

-- A line of attestations is blank or decodes.
abbrev pub LineDecodes : (String → Option Attestation) → String → Type 0
LineDecodes decode line =
    trim_space line ≢ "" → (a : Attestation) × (decode (trim_space line) ≡ some a)

abbrev pub LinesDecode : (String → Option Attestation) → String → Type 0
LinesDecode decode data_ = All (LineDecodes decode) (split_lines (trim_space data_))

-- A fingerprint that a policy declares, and that is not blank, is the computed one.
abbrev pub DeclaredIsComputed : (Fields → Option String) → Fields → Type 0
DeclaredIsComputed compute policy =
    (fp : String)
    → get "policy_fingerprint" policy ≡ some (str fp)
    → trim_space fp ≢ ""
    → compute policy ≡ some fp

pub record Acceptable (env : Env) (flow_data policy_data atts_data : String) : Type 0 where
  pub flow : Flow
  pub policy : PolicyDoc
  pub policy_raw : Fields
  pub flow_decodes : env.decode_flow flow_data ≡ some flow
  pub policy_decodes : env.decode_policy policy_data ≡ some policy
  pub raw_decodes : env.decode_fields policy_data ≡ some policy_raw
  pub fingerprint : DeclaredIsComputed env.compute_fingerprint policy_raw
  pub tenants :
      (flow.tenant_id ≡ "") ⊎ (policy.tenant_id ≡ "") ⊎ (flow.tenant_id ≡ policy.tenant_id)
  pub attestations : LinesDecode env.decode_attestation atts_data

decode_lines_iff :
    (decode : String → Option Attestation) (lines : List String)
    → ((atts : List Attestation) × (decode_lines decode lines ≡ ok atts))
      ↔ All (LineDecodes decode) lines
unfolding decode_lines
decode_lines_iff decode [] = ((λ h. tt), (λ h. ([], refl)))
decode_lines_iff decode (line ∷ lines) =
    let (f, g) = decode_lines_iff decode lines in
    elim (Bool-cases (trim_space line == "")) [
      | inl t ↦ rw t (
        (λ (atts, e). ((λ n. absurd (n ((eq_iff (trim_space line) "").0 t))), f (atts, e))),
        (λ (_, h). g h),
      )
      | inr t ↦ rw t (
        (λ (atts, e).
            let (a, p, e₁) =
              bind-ok (or_err (decode (trim_space line)) parse_attestation) _ atts e in
            let (rest, q, e₂) = bind-ok (decode_lines decode lines) _ atts e₁ in
            ((λ n. (a, or_err-ok _ parse_attestation a p)), f (rest, q))),
        (λ (d, h).
            let (a, p) = d (ne-of-eq-false (trim_space line) "" t) in
            let (rest, q) = g h in (a ∷ rest, rw (p, q) refl)),
      )
    ]

tenants_agree_iff :
    (env : Env) (flow : Flow) (policy : PolicyDoc)
    → (tenants_agree env flow policy ≡ true)
      ↔ ((flow.tenant_id ≡ "") ⊎ (policy.tenant_id ≡ "") ⊎ (flow.tenant_id ≡ policy.tenant_id))
unfolding tenants_agree
tenants_agree_iff env flow policy = ground (
  arith,
  eq_iff flow.tenant_id "",
  eq_iff policy.tenant_id "",
  eq_iff flow.tenant_id policy.tenant_id,
)

parse_attestations_iff :
    (decode : String → Option Attestation) (data_ : String)
    → ((atts : List Attestation) × (parse_attestations decode data_ ≡ ok atts))
      ↔ LinesDecode decode data_
unfolding parse_attestations decode_lines split_lines trim_space
parse_attestations_iff decode data_ = elim (Bool-cases (data_ == "")) [
  | inl t ↦ rw ((eq_iff data_ "").0 t) ((λ h. ((λ n. absurd (n refl)), tt)), (λ h. ([], refl)))
  | inr t ↦ rw t (decode_lines_iff decode (split_lines (trim_space data_)))
]

str_injective : {a b : String} → ◌≡◌ {A = Option Value} (some (str a)) (some (str b)) → a ≡ b
str_injective h = cc

check_iff :
    (compute : Fields → Option String) (policy : Fields) (o : Option Value)
    → (check_fingerprint compute policy o ≡ ok tt)
      ↔ ((fp : String) → o ≡ some (str fp) → trim_space fp ≢ "" → compute policy ≡ some fp)
unfolding check_fingerprint
check_iff compute policy none = ((λ h fp e n. cc), (λ h. refl))
check_iff compute policy (some (obj m)) = ((λ h fp e n. cc), (λ h. refl))
check_iff compute policy (some (arr vs)) = ((λ h fp e n. cc), (λ h. refl))
check_iff compute policy (some (bool b)) = ((λ h fp e n. cc), (λ h. refl))
check_iff compute policy (some (float64 x)) = ((λ h fp e n. cc), (λ h. refl))
check_iff compute policy (some (int i)) = ((λ h fp e n. cc), (λ h. refl))
check_iff compute policy (some (int64 i)) = ((λ h fp e n. cc), (λ h. refl))
check_iff compute policy (some (any_map m)) = ((λ h fp e n. cc), (λ h. refl))
check_iff compute policy (some null) = ((λ h fp e n. cc), (λ h. refl))
check_iff compute policy (some (str fp)) = elim (Bool-cases (trim_space fp == "")) [
  | inl t ↦ rw t (
    (λ h fq e n.
        absurd (n (ap trim_space (sym (str_injective e)) ∙ (eq_iff (trim_space fp) "").0 t))),
    (λ h. refl),
  )
  | inr t ↦ rw t (
    (λ h fq e n.
        let (v, c, g) = bind-ok (or_err (compute policy) fingerprint) _ tt h in
        let same : fp ≡ v = (eq_iff fp v).0 (guard-ok _ fingerprint_mismatch g) in
        or_err-ok _ fingerprint v c ∙ ap some (sym same ∙ str_injective e)),
    (λ h.
        let c = h fp refl (ne-of-eq-false (trim_space fp) "" t) in rw (c, eq-true fp fp refl) refl),
  )
]

declared_iff :
    (compute : Fields → Option String) (policy : Fields)
    → (validate_declared_policy_fingerprint compute policy ≡ ok tt)
      ↔ DeclaredIsComputed compute policy
unfolding validate_declared_policy_fingerprint
declared_iff compute policy = check_iff compute policy (get "policy_fingerprint" policy)

module _ (env : Env) (flow_data policy_data atts_data : String) where
  -- Inputs that are accepted give the assembled run with a fingerprint.
  made :
      Acceptable env flow_data policy_data atts_data
      → ((run : VerificationRun) → (fp : String) × (env.compute_run_fingerprint run ≡ some fp))
      → (run : VerificationRun) × (verify env flow_data policy_data atts_data ≡ ok run)
  made a prints =
      let (atts, e) = (parse_attestations_iff env.decode_attestation atts_data).1 a.attestations in
      let run = assemble env a.flow a.policy atts in
      let (fp, k) = prints run in
      (
        record run { run_fingerprint = fp },
        verify_complete env flow_data policy_data atts_data a.flow a.policy a.policy_raw atts fp
            a.flow_decodes a.policy_decodes a.raw_decodes
            ((declared_iff env.compute_fingerprint a.policy_raw).1 a.fingerprint)
            ((tenants_agree_iff env a.flow a.policy).1 a.tenants) e k,
      )

  acceptable :
      (run : VerificationRun)
      → verify env flow_data policy_data atts_data ≡ ok run
      → Acceptable env flow_data policy_data atts_data
  acceptable run h =
      let a = verify-Accepted env flow_data policy_data atts_data h in
      record {
        flow = a.flow;
        policy = a.policy;
        policy_raw = a.policy_raw;
        flow_decodes = a.flow_decoded;
        policy_decodes = a.policy_decoded;
        raw_decodes = a.raw_decoded;
        fingerprint = (declared_iff env.compute_fingerprint a.policy_raw).0 a.fingerprint_ok;
        tenants = (tenants_agree_iff env a.flow a.policy).0 a.same_tenant;
        attestations =
            (parse_attestations_iff env.decode_attestation atts_data).0 (a.atts, a.atts_decoded);
      }

  fingerprinted_run :
      (run : VerificationRun)
      → ((run : VerificationRun) → (fp : String) × (env.compute_run_fingerprint run ≡ some fp))
      → verify env flow_data policy_data atts_data ≡ ok run
      → env.compute_run_fingerprint (record run { run_fingerprint = "" }) ≡ some run.run_fingerprint
  unfolding assemble
  fingerprinted_run run prints h =
      let a = verify-Accepted env flow_data policy_data atts_data h in
      let (fp, k) = prints (assemble env a.flow a.policy a.atts) in
      let made_of =
        verify_complete env flow_data policy_data atts_data a.flow a.policy a.policy_raw a.atts fp
          a.flow_decoded a.policy_decoded a.raw_decoded a.fingerprint_ok a.same_tenant
          a.atts_decoded k in
      subst
        (λ (r : VerificationRun).
          env.compute_run_fingerprint (record r { run_fingerprint = "" }) ≡ some r.run_fingerprint)
        (ok-injective (sym made_of ∙ h)) k

-- `Verify` returns a run just if the flow, the policy and every line of attestations decode, a fingerprint
-- that the policy declares is the computed one, and the two tenants agree or one is not given; and the
-- fingerprint of the run is that of the run without one. The fingerprint of a run can always be computed.
pub verify_iff :
    (env : Env) (flow_data policy_data atts_data : String)
    → ((run : VerificationRun) → (fp : String) × (env.compute_run_fingerprint run ≡ some fp))
    → (((run : VerificationRun) × (verify env flow_data policy_data atts_data ≡ ok run))
        ↔ Acceptable env flow_data policy_data atts_data)
      × ((run : VerificationRun)
          → verify env flow_data policy_data atts_data ≡ ok run
          → env.compute_run_fingerprint (record run { run_fingerprint = "" })
            ≡ some run.run_fingerprint)
verify_iff env flow_data policy_data atts_data prints = (
  (
    (λ (run, h). acceptable env flow_data policy_data atts_data run h),
    (λ a. made env flow_data policy_data atts_data a prints),
  ),
  (λ run h. fingerprinted_run env flow_data policy_data atts_data run prints h),
)
