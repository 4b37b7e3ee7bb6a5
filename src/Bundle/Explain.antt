-- ===== src/Bundle/Explain.antt =====
-- Explaining a bundle (pkg/bundle/explain.go, explain_run.go).
pub mod ExitCode
use Prim.Native.Char.{Char, code}
use intentproof_tools.Prelude.{
  ℕ, Bool, true, false, not, ◌&&◌, List, [], ◌∷◌, ◌++◌, map, String, Option, none, some, ◌==◌, Eq-ℕ,
  Eq-String, if◌then◌else◌, Result, err, ok, ◌>>=◌, or_err, is_empty, ◌<>◌,
}
use intentproof_tools.Merkle.{Bytes}
use intentproof_tools.Value.{
  Value, obj, arr, Fields, Items, end, field, items, get, set, as_string, as_items, or_empty,
}
use intentproof_tools.Verifier.Types.{Finding, Outcome, pass, fail, inconclusive}
use intentproof_tools.Verifier.Run.{VerificationRun, VerifyError}
use intentproof_tools.Verifier.Verify.{verify}
use intentproof_tools.Verifier.Run.{Env as RunEnv}
use intentproof_tools.Bundle.{Bundle, BundleError, VerifyResult, Env, lookup}
use intentproof_tools.Bundle.Read.{Decoders, TarEntry, ReadError, read_from_tar}
use intentproof_tools.Bundle.Verify.{verify_extracted}
use intentproof_tools.Bundle.Replay.{Printers, ReplayError, replay_policy}

pub record PolicyFindingView : Type 0 where
  pub outcome : String
  pub reason : String
  pub human_summary : String

pub record VerifierRunView : Type 0 where
  pub status : String
  pub findings : List PolicyFindingView

unfoldable pub outcome_text : Outcome → String
outcome_text pass = "pass"
outcome_text fail = "fail"
outcome_text inconclusive = "inconclusive"

unfoldable pub policy_finding_from_map : Fields → PolicyFindingView
unfolding get
policy_finding_from_map m = record {
  outcome = or_empty (as_string (get "outcome" m));
  reason = or_empty (as_string (get "reason" m));
  human_summary = or_empty (as_string (get "human_summary" m));
}

-- `NewVerifierRunView` of the findings of a run, which stand in maps under these three keys.
unfoldable pub run_view : Printers → VerificationRun → VerifierRunView
unfolding outcome_text
run_view printers run = record {
  status = outcome_text run.status;
  findings =
      map
        (λ (f : Finding). record {
          outcome = outcome_text f.outcome;
          reason = f.reason;
          human_summary = printers.human_summary f;
        })
        run.findings;
}

unfoldable pub findings_of_items : List Value → List PolicyFindingView
unfolding policy_finding_from_map
findings_of_items [] = []
findings_of_items (obj m ∷ vs) = policy_finding_from_map m ∷ findings_of_items vs
findings_of_items (_ ∷ vs) = findings_of_items vs

abbrev or_no_items : Option Items → List Value
or_no_items none = []
or_no_items (some vs) = items vs

abbrev of_run : {A : Type 0} → A → (Fields → A) → Option Fields → A
of_run a f none = a
of_run a f (some run) = f run

unfoldable pub policy_findings_from_run : Option Fields → List PolicyFindingView
unfolding findings_of_items get items
policy_findings_from_run =
    of_run [] (λ run. findings_of_items (or_no_items (as_items (get "findings" run))))

-- `bundledRunStatus`: "" is no status.
unfoldable pub bundled_run_status : Option Fields → String
unfolding get
bundled_run_status = of_run "" (λ run. or_empty (as_string (get "status" run)))

-- `ReasonDescriber`: the title and the detail of a reason, if it is known.
abbrev pub ReasonDescriber : Type 0
ReasonDescriber = String → Option (String × String)

abbrev line_of : String → String → String
line_of indent s = if s == "" then "" else indent <> s <> "\n"

abbrev described : Option (String × String) → String
described none = ""
described (some (title, detail)) =
    line_of "    " title <> (if detail == title then "" else line_of "    " detail)

abbrev described_by : Option ReasonDescriber → String → String
described_by none reason = ""
described_by (some describe) reason = described (describe reason)

-- What is written of a finding.
unfoldable pub write_policy_finding : Option ReasonDescriber → PolicyFindingView → String
write_policy_finding describe f =
    let reason = if f.reason == "" then "unknown" else f.reason in
    if f.outcome == "pass"
    then ""
    else "\n  ["
      <> f.outcome
      <> "] "
      <> reason
      <> "\n"
      <> line_of "    " f.human_summary
      <> described_by describe reason

unfoldable pub write_policy_findings : Option ReasonDescriber → List PolicyFindingView → String
unfolding write_policy_finding
write_policy_findings describe [] = ""
write_policy_findings describe (f ∷ fs) =
    write_policy_finding describe f <> write_policy_findings describe fs

unfoldable pub integrity_lines : List String → String
integrity_lines [] = ""
integrity_lines (f ∷ fs) = "  - " <> f <> "\n" <> integrity_lines fs

unfoldable pub integrity_text : VerifyResult → String
unfolding integrity_lines
integrity_text vr =
    let marker = if vr.status == "pass" then "✓ pass" else "✗ fail" in
    let listed = not (is_empty vr.findings) && not (vr.status == "pass") in
    marker
    <> ": "
    <> vr.reason
    <> " (bundle integrity)\n"
    <> (if listed then "\nIntegrity findings:\n" <> integrity_lines vr.findings else "")

-- The policy part, of a replay or of the run that the bundle has.
abbrev bundled_status_text : String → String → String
bundled_status_text status replayed =
    let match = if status == replayed then "matches" else "differs from bundled run.json" in
    if status == "" then "" else "  bundled run.json status: " <> status <> " (" <> match <> ")\n"

abbrev policy_text_of : Option Fields → Option ReasonDescriber → Option VerifierRunView → String
policy_text_of run describe (some replay) =
    "\nPolicy replay:\n  status: "
    <> replay.status
    <> "\n"
    <> bundled_status_text (bundled_run_status run) replay.status
    <> write_policy_findings describe replay.findings
policy_text_of run describe none =
    let findings = policy_findings_from_run run in
    if is_empty findings
    then ""
    else "\nPolicy findings (from bundled run.json):\n" <> write_policy_findings describe findings

-- `strings.TrimRight(s, "\n")`
abbrev before_newlines : Char → String → String
before_newlines c String.[] = if code c == 10 then "" else String.◌∷◌ c ""
before_newlines c (String.◌∷◌ d s) = String.◌∷◌ c (String.◌∷◌ d s)

unfoldable pub trim_newlines : String → String
trim_newlines String.[] = ""
trim_newlines (String.◌∷◌ c s) = before_newlines c (trim_newlines s)

unfoldable pub format_explain :
    VerifyResult → Option Fields → Option VerifierRunView → Option ReasonDescriber → String
unfolding integrity_text bundled_run_status policy_findings_from_run write_policy_findings
    trim_newlines
format_explain vr run replay describe =
    trim_newlines (integrity_text vr <> policy_text_of run describe replay) <> "\n"

pub data ExplainError : Type 0 where
  read_failed : ReadError → ExplainError
  verify_failed : BundleError → ExplainError
  policy_replay : ReplayError → ExplainError

-- The three results of `ExplainFromReader`.
pub record Explained : Type 0 where
  pub explanation : String
  pub exit_code : ℕ
  pub error : Option ExplainError

abbrev failed_with : ExplainError → Explained
failed_with e = record { explanation = ""; exit_code = 1; error = some e }

module _ (env : Env) (decoders : Decoders) (run_env : RunEnv) (printers : Printers) where
  abbrev pub replayed :
      Bundle
      → VerifyResult
      → Option ReasonDescriber
      → Result ReplayError VerificationRun
      → Explained
  replayed b vr describe (err e) = record {
    explanation = format_explain vr b.run none describe;
    exit_code = 1;
    error = some (policy_replay e);
  }
  replayed b vr describe (ok run) =
      let view = run_view printers run in
      record {
        explanation = format_explain vr b.run (some view) describe;
        exit_code = if view.status == "pass" then 0 else 1;
        error = none;
      }

  abbrev pub explained_result :
      Bundle → Option ReasonDescriber → Result BundleError VerifyResult → Explained
  explained_result b describe (err e) = failed_with (verify_failed e)
  explained_result b describe (ok vr) =
      if vr.status == "pass"
      then replayed b vr describe (replay_policy printers run_env b)
      else record {
        explanation = format_explain vr b.run none describe;
        exit_code = 1;
        error = none;
      }

  abbrev pub explained_bundle : Option ReasonDescriber → Result ReadError Bundle → Explained
  explained_bundle describe (err e) = failed_with (read_failed e)
  explained_bundle describe (ok b) = explained_result b describe (verify_extracted env b [])

  unfoldable pub explain_from_reader : List TarEntry → Option ReasonDescriber → Explained
  unfolding read_from_tar verify_extracted replay_policy run_view format_explain
  explain_from_reader entries describe = explained_bundle describe (read_from_tar decoders entries)
