-- ===== src/Bundle/Explain/ExitCode.antt =====
-- What the exit code 0 of an explanation means (pkg/bundle/explain_run.go).
use text.Mathlib.TextEquality.{eq_iff}
use intentproof_tools.Prelude.{
  ℕ, true, List, [], ◌∷◌, All, ◌≡◌, ◌↔◌, refl, sym, ◌∙◌, inl, inr, Option, some, ◌==◌, Eq-String,
  Result, err, ok, bind-ok, Bool-cases, arith,
}
use intentproof_tools.Verifier.Types.{Finding, Outcome, pass, fail, inconclusive}
use intentproof_tools.Verifier.Run.{VerificationRun, VerifyError}
use intentproof_tools.Verifier.Run.{Env as RunEnv}
use intentproof_tools.Verifier.Verify.{verify}
use intentproof_tools.Verifier.Verify.Status.{worse, worst}
use intentproof_tools.Verifier.Verify.Accepts.{verify-Accepted}
use intentproof_tools.Bundle.{Bundle, Manifest, BundleError, VerifyResult, Env}
use intentproof_tools.Bundle.Read.{Decoders, TarEntry, ReadError, read_from_tar}
use intentproof_tools.Bundle.Verify.{verify_extracted}
use intentproof_tools.Bundle.Verify.Verified.{Verified, verify_extracted-Verified}
use intentproof_tools.Bundle.Replay.{Printers, ReplayError, policy_inputs, replay_policy, verified}
use intentproof_tools.Bundle.Explain.{
  ReasonDescriber, Explained, outcome_text, run_view, explained_result, replayed, explained_bundle,
  explain_from_reader,
}

one_not_zero : {X : Type 0} → ◌≡◌ {A = ℕ} 1 0 → X
one_not_zero h = absurd (omega arith)

outcome_text-pass : (o : Outcome) → (outcome_text o == "pass") ≡ true → o ≡ pass
unfolding outcome_text
outcome_text-pass pass h = refl
outcome_text-pass fail h = cc
outcome_text-pass inconclusive h = cc

pass_of_worse : (o p : Outcome) → worse o p ≡ pass → (o ≡ pass) × (p ≡ pass)
pass_of_worse pass p h = (refl, h)
pass_of_worse fail p h = cc
pass_of_worse inconclusive pass h = cc
pass_of_worse inconclusive fail h = cc
pass_of_worse inconclusive inconclusive h = cc

abbrev pub AllPass : List Finding → Type 0
AllPass findings = All (λ f. f.outcome ≡ pass) findings

worst-AllPass : (findings : List Finding) → worst findings ≡ pass → AllPass findings
worst-AllPass [] h = tt
worst-AllPass (f ∷ findings) h =
    let (p, q) = pass_of_worse f.outcome (worst findings) h in (p, worst-AllPass findings q)

module _ (env : Env) (decoders : Decoders) (run_env : RunEnv) (printers : Printers) where
  verified-ok :
      (r : Result VerifyError VerificationRun) (run : VerificationRun)
      → verified printers r ≡ ok run
      → r ≡ ok run
  verified-ok (err e) run h = cc
  verified-ok (ok r) run h = let e : r ≡ run = cc in cc

  -- The run of a replay is one that the verifier made.
  replay-AllPass :
      (b : Bundle) (run : VerificationRun)
      → replay_policy printers run_env b ≡ ok run
      → run.status ≡ pass
      → AllPass run.findings
  unfolding replay_policy
  replay-AllPass b run h p =
      let (inputs, e, k) = bind-ok (policy_inputs printers b) _ run h in
      let flow = printers.text inputs.0 in
      let policy = printers.text inputs.1 in
      let atts = printers.text inputs.2 in
      let run_verified : verify run_env flow policy atts ≡ ok run = verified-ok _ run k in
      let reports = (verify-Accepted run_env flow policy atts run_verified).reported in
      worst-AllPass run.findings (sym reports.status ∙ p)

  -- A bundle passes and so does the replay of its policy.
  abbrev pub Passes : List TarEntry → Type 0
  Passes entries =
      (b : Bundle) × (vr : VerifyResult) × (run : VerificationRun) × (read_from_tar decoders entries
        ≡ ok b)
      × (verify_extracted env b [] ≡ ok vr)
      × (vr.status ≡ "pass")
      × (replay_policy printers run_env b ≡ ok run)
      × (run.status ≡ pass)

  abbrev code_of : Explained → ℕ
  code_of e = e.exit_code

  code-replayed :
      (b : Bundle) (vr : VerifyResult) (describe : Option ReasonDescriber)
      (r : Result ReplayError VerificationRun)
      → code_of (replayed env decoders run_env printers b vr describe r) ≡ 0
      → (run : VerificationRun) × (r ≡ ok run) × (run.status ≡ pass)
  unfolding run_view
  code-replayed b vr describe (err e) h = ground arith
  code-replayed b vr describe (ok run) h = (run, refl, outcome_text-pass run.status (ground arith))

  code-explained_result :
      (b : Bundle) (describe : Option ReasonDescriber) (r : Result BundleError VerifyResult)
      → code_of (explained_result env decoders run_env printers b describe r) ≡ 0
      → (vr : VerifyResult) × (run : VerificationRun) × (r ≡ ok vr)
        × (vr.status ≡ "pass")
        × (replay_policy printers run_env b ≡ ok run)
        × (run.status ≡ pass)
  code-explained_result b describe (err e) h = ground arith
  code-explained_result b describe (ok vr) h = elim (Bool-cases (vr.status == "pass")) [
    | inl t ↦
        let (run, e, p) =
          code-replayed b vr describe (replay_policy printers run_env b) (rw t at h) in
        (vr, run, refl, (eq_iff vr.status "pass").0 t, e, p)
    | inr n ↦ one_not_zero (rw n at h)
  ]

  code-explained_bundle :
      (describe : Option ReasonDescriber) (r : Result ReadError Bundle)
      → code_of (explained_bundle env decoders run_env printers describe r) ≡ 0
      → (b : Bundle) × (vr : VerifyResult) × (run : VerificationRun) × (r ≡ ok b)
        × (verify_extracted env b [] ≡ ok vr)
        × (vr.status ≡ "pass")
        × (replay_policy printers run_env b ≡ ok run)
        × (run.status ≡ pass)
  code-explained_bundle describe (err e) h = ground arith
  code-explained_bundle describe (ok b) h =
      let (vr, run, e, p, f, q) = code-explained_result b describe (verify_extracted env b []) h in
      (b, vr, run, refl, e, p, f, q)

  -- An explanation exits with 0 just if the bundle is read, its verification passes without a key, and the
  -- replay of its policy gives a run whose status is pass.
  pub exit_code_iff :
      (entries : List TarEntry) (describe : Option ReasonDescriber)
      → ((explain_from_reader env decoders run_env printers entries describe).exit_code ≡ 0)
        ↔ Passes entries
  unfolding explain_from_reader
  exit_code_iff entries describe = (
    code-explained_bundle describe (read_from_tar decoders entries),
    λ (b, vr, run, e, f, p, g, q). rw (e, f, p, g) (rw (run_view, q) refl),
  )

  -- If an explanation exits with 0, the bundle was read and is Verified, and the replay of its policy gave
  -- a run whose every finding passes.
  pub exit_code-Verified :
      (entries : List TarEntry) (describe : Option ReasonDescriber)
      → (explain_from_reader env decoders run_env printers entries describe).exit_code ≡ 0
      → (b : Bundle) × (m : Manifest) × (run : VerificationRun) × (read_from_tar decoders entries
          ≡ ok b)
        × (b.manifest ≡ some m)
        × Verified env b m []
        × (replay_policy printers run_env b ≡ ok run)
        × AllPass run.findings
  exit_code-Verified entries describe h =
      let (b, vr, run, e, f, p, g, q) = (exit_code_iff entries describe).0 h in
      let (m, n, v) = verify_extracted-Verified env b [] vr f p in
      (b, m, run, e, n, v, g, replay-AllPass b run g q)
