-- ===== src/Verifier/Consensus/Thresholds.antt =====
-- The thresholds of rule_consensus.go (pkg/verifier): when a consensus rule passes.
use intentproof_tools.Prelude.{
  ℕ, ◌*◌, ◌<◌, ◌≡◌, refl, ◌≢◌, String, List, [], ◌∷◌, true, false, Option, none, some, Eq-ℕ, length,
  arith, eq-false, count_if, is_empty, not, all,
}
use intentproof_tools.Prelude.Int.{ℤ, pos, ltb_ℤ, ◌≤ℤ◌}
use intentproof_tools.Value.{Value, bool, Fields, end, field, get, keys}
use intentproof_tools.Value.Number.{validate_agree_at_least, ok}
use intentproof_tools.Verifier.Types.{Attestation, Rule, finding, pass, Decides, decides_of_cases}
use intentproof_tools.Verifier.Events.{spec_string, spec_fields}
use intentproof_tools.Verifier.Attestations.{not_nil}
use intentproof_tools.Verifier.Consensus.{
  Agreement, agreement, witnesses, evaluate_consensus, check_threshold, threshold_of, agreed,
  is_operator,
}

-- What a well-formed threshold asks for.
pub data Operator : Type 0 where
  unanimous majority : Operator
  agree_at_least : Value → Operator

abbrev pub threshold_field : Operator → Fields
threshold_field unanimous = field "unanimous" (bool true) end
threshold_field majority = field "majority" (bool true) end
threshold_field (agree_at_least v) = field "agree_at_least" v end

-- The bound of `agree_at_least` is valid.
abbrev pub IsWellFormed : Operator → Type 0
IsWellFormed unanimous = Unit
IsWellFormed majority = Unit
IsWellFormed (agree_at_least v) = (m : ℤ) × (validate_agree_at_least v ≡ ok m)

-- `agree` of `n` attestations satisfy the operator.
abbrev pub Met : (op : Operator) → ℕ → ℕ → Type 0
Met unanimous n agree = agree ≡ n
Met majority n agree = n < 2 * agree
Met (agree_at_least v) n agree = (m : ℤ) × (validate_agree_at_least v ≡ ok m) × (m ≤ℤ pos agree)

threshold_decides :
    (op : Operator) (r : Rule) (n : ℕ) (a : Agreement)
    → 0 < n
    → IsWellFormed op
    → Decides (check_threshold r (threshold_field op) n a) (Met op n a.agree_count)
unfolding check_threshold keys get is_operator agreed finding
threshold_decides unanimous r n a p w = ((ground arith, ground arith), (ground arith, ground arith))
threshold_decides majority r n a p w = ((ground arith, ground arith), (ground arith, ground arith))
threshold_decides (agree_at_least v) r n a p (m, e) = rw e (
    decides_of_cases (agreed r (not (ltb_ℤ (pos a.agree_count) m)) a.evidence) _ (ground arith)
      (λ h. (m, refl, ground arith)) (λ h (k, q, l). ground arith))

not_empty : {A : Type 0} (xs : List A) → xs ≢ [] → is_empty xs ≡ false
not_empty [] n = absurd (n refl)
not_empty (x ∷ xs) n = refl

length-pos : {A : Type 0} (xs : List A) → xs ≢ [] → 0 < length xs
length-pos [] n = absurd (n refl)
length-pos (x ∷ xs) n = omega arith

-- A consensus rule with a claim, some attestation from an allowed source and one well-formed operator
-- passes just if the agreeing attestations satisfy the operator, and fails otherwise.
pub consensus_decides :
    (claim_key : Value → String) (r : Rule) (atts : List Attestation) (op : Operator)
    → spec_string r "claim" ≢ ""
    → witnesses r atts ≢ []
    → spec_fields r "threshold" ≡ some (threshold_field op)
    → IsWellFormed op
    → Decides (evaluate_consensus claim_key r atts) (
        Met op
          (length (witnesses r atts))
          (agreement claim_key
            (not_nil (get "expected_value" r.spec))
            (witnesses r atts)).agree_count)
unfolding evaluate_consensus
consensus_decides claim_key r atts op c n t w =
    rw (eq-false (spec_string r "claim") "" c, t, not_empty (witnesses r atts) n)
      (threshold_decides op r (length (witnesses r atts)) _ (length-pos (witnesses r atts) n) w)

check_threshold-exact :
    (r : Rule) (t : Fields) (n : ℕ) (a : Agreement)
    → (check_threshold r t n a).outcome ≡ pass
    → (all is_operator (keys t) ≡ true) × (count_if is_operator (keys t) ≡ 1)
unfolding check_threshold finding
check_threshold-exact r t n a h = (ground arith, ground arith)

-- A rule that passes has come to the check of its threshold.
consensus_checks :
    (claim_key : Value → String) (r : Rule) (atts : List Attestation)
    → (evaluate_consensus claim_key r atts).outcome ≡ pass
    → (n : ℕ) × (a : Agreement) × ((check_threshold r
          (threshold_of (spec_fields r "threshold"))
          n
          a).outcome
        ≡ pass)
unfolding evaluate_consensus finding
consensus_checks claim_key r atts h = (
  length (witnesses r atts),
  agreement claim_key (not_nil (get "expected_value" r.spec)) (witnesses r atts),
  ground arith,
)

exact_threshold :
    (r : Rule) (o : Option Fields) (n : ℕ) (a : Agreement)
    → (check_threshold r (threshold_of o) n a).outcome ≡ pass
    → (t : Fields) × (o ≡ some t)
      × (all is_operator (keys t) ≡ true)
      × (count_if is_operator (keys t) ≡ 1)
unfolding threshold_of
exact_threshold r none n a h = absurd (no_keys (check_threshold-exact r end n a h).1)
  where
    no_keys : count_if is_operator (keys end) ≡ 1 → ⊥
    no_keys e = unfold keys in omega arith
exact_threshold r (some t) n a h = let (p, q) = check_threshold-exact r t n a h in (t, refl, p, q)

-- A consensus rule passes only if its threshold has keys that are all operators, exactly one of them.
pub consensus_threshold_exact :
    (claim_key : Value → String) (r : Rule) (atts : List Attestation)
    → (evaluate_consensus claim_key r atts).outcome ≡ pass
    → (t : Fields) × (spec_fields r "threshold" ≡ some t)
      × (all is_operator (keys t) ≡ true)
      × (count_if is_operator (keys t) ≡ 1)
consensus_threshold_exact claim_key r atts h =
    let (n, a, e) = consensus_checks claim_key r atts h in
    exact_threshold r (spec_fields r "threshold") n a e
