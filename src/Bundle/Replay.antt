-- ===== src/Bundle/Replay.antt =====
-- Replaying the policy of a bundle (pkg/bundle/replay.go).
use intentproof_tools.Prelude.{
  List, [], ◌∷◌, ◌++◌, String, Option, none, some, Eq-ℕ, Eq-String, if◌then◌else◌, Result, err, ok,
  ◌>>=◌, or_err, is_empty,
}
use intentproof_tools.Merkle.{Bytes}
use intentproof_tools.Value.{obj, arr, Fields, Items, end, set}
use intentproof_tools.Verifier.Types.{Finding}
use intentproof_tools.Verifier.Run.{VerificationRun, VerifyError}
use intentproof_tools.Verifier.Verify.{verify}
use intentproof_tools.Verifier.Run.{Env as RunEnv}
use intentproof_tools.Bundle.{Bundle, lookup}

-- json.Marshal of a map, where none is an error; the text of bytes; and the summary of a finding, which
-- the model of the verifier leaves out.
pub record Printers : Type 0 where
  pub marshal_map : Fields → Option Bytes
  pub text : Bytes → String
  pub human_summary : Finding → String

pub data ReplayError : Type 0 where
  policy_missing marshal_policy marshal_flow marshal_attestation : ReplayError
  verifier_error : VerifyError → ReplayError

abbrev or_no_file : Option Bytes → Bytes
or_no_file none = []
or_no_file (some b) = b

-- `for k, v := range b.Flow { flow[k] = v }`, of a map that may be nil.
abbrev copied : Option Fields → Fields
copied none = end
copied (some m) = m

abbrev objects : List Fields → Items
objects [] = Items.nil
objects (m ∷ ms) = Items.cons (obj m) (objects ms)

unfoldable pub replay_flow : Bundle → Fields
unfolding set
replay_flow b =
    if is_empty b.events
    then copied b.flow
    else set "events" (arr (objects b.events)) (copied b.flow)

module _ (printers : Printers) where
  unfoldable pub marshal_lines : List Fields → Result ReplayError Bytes
  marshal_lines [] = ok []
  marshal_lines (m ∷ ms) = do
    line ← or_err (printers.marshal_map m) marshal_attestation
    rest ← marshal_lines ms
    ok (line ++ 10 ∷ rest)

  abbrev policy_text : Bytes → Option Fields → Result ReplayError Bytes
  policy_text (b ∷ bs) policy = ok (b ∷ bs)
  policy_text [] none = err policy_missing
  policy_text [] (some policy) = or_err (printers.marshal_map policy) marshal_policy

  -- The flow, the policy and the attestations.
  unfoldable pub policy_inputs : Bundle → Result ReplayError (Bytes × Bytes × Bytes)
  unfolding replay_flow marshal_lines lookup
  policy_inputs b = do
    policy_data ← policy_text (or_no_file (lookup "policy.json" b.raw_files)) b.policy
    flow_data ← or_err (printers.marshal_map (replay_flow b)) marshal_flow
    att_data ← marshal_lines b.attestations
    ok (flow_data, policy_data, att_data)

  abbrev pub verified : Result VerifyError VerificationRun → Result ReplayError VerificationRun
  verified (err e) = err (verifier_error e)
  verified (ok run) = ok run

  unfoldable pub replay_policy : RunEnv → Bundle → Result ReplayError VerificationRun
  unfolding policy_inputs verify
  replay_policy run_env b = do
    inputs ← policy_inputs b
    verified
        (verify run_env (printers.text inputs.0) (printers.text inputs.1) (printers.text inputs.2))
