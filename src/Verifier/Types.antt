-- ===== src/Verifier/Types.antt =====
-- pkg/verifier/types.go, and the findings of pkg/verifier/helpers.go. Human summaries are left out.
use intentproof_tools.Prelude.{
  String, List, map, ◌==◌, Eq-String, if◌then◌else◌, ◌≡◌, ◌↔◌, ◌⊎◌, inl, inr,
}
use intentproof_tools.Value.{Value, Fields}

pub record Event : Type 0 where
  pub event_id : String
  pub action : String
  pub status : String
  pub started_at : String
  pub completed_at : String
  pub attributes : Fields

pub record Rule : Type 0 where
  pub id : String
  pub category : String
  pub severity : String
  pub spec : Fields

pub record Attestation : Type 0 where
  pub attestation_id : String
  pub source_id : String
  pub claim : String
  pub claim_value : Value
  pub subject : Fields

pub data Outcome : Type 0 where
  pass fail inconclusive : Outcome

pub record Finding : Type 0 where
  pub rule_id : String
  pub rule_category : String
  pub outcome : Outcome
  pub severity : String
  pub reason : String
  pub evidence_event_ids : List String
  pub evidence_attestation_ids : List String

unfoldable pub finding : Rule → Outcome → String → List String → List String → Finding
finding r o reason events attestations = record {
  rule_id = r.id;
  rule_category =
      if reason == "inconclusive.unknown.unsupported_rule_category" then "unknown" else r.category;
  outcome = o;
  severity = r.severity;
  reason = reason;
  evidence_event_ids = events;
  evidence_attestation_ids = attestations;
}

unfoldable pub event_ids : List Event → List String
event_ids = map (λ e. e.event_id)

-- A finding passes or fails.
abbrev pub Settled : Finding → Type 0
Settled f = (f.outcome ≡ pass) ⊎ (f.outcome ≡ fail)

-- The outcome of a finding decides a statement: it passes if that holds, and fails if not.
abbrev pub Decides : Finding → Type 0 → Type 0
Decides f P = ((f.outcome ≡ pass) ↔ P) × ((f.outcome ≡ fail) ↔ ¬ P)

-- The finding fails if the statement holds, and passes if not.
abbrev pub Forbids : Finding → Type 0 → Type 0
Forbids f P = ((f.outcome ≡ pass) ↔ ¬ P) × ((f.outcome ≡ fail) ↔ P)

pub decides_of_cases :
    (f : Finding) (P : Type 0)
    → Settled f
    → (f.outcome ≡ pass → P)
    → (f.outcome ≡ fail → ¬ P)
    → Decides f P
decides_of_cases f P (inl e) s r = ((s, λ _. e), ((λ h. cc), λ n. absurd (n (s e))))
decides_of_cases f P (inr e) s r = ((s, λ p. absurd (r e p)), (r, λ _. e))

pub forbids_of_cases :
    (f : Finding) (P : Type 0)
    → Settled f
    → (f.outcome ≡ pass → ¬ P)
    → (f.outcome ≡ fail → P)
    → Forbids f P
forbids_of_cases f P (inl e) s r = ((s, λ _. e), (r, λ p. absurd (s e p)))
forbids_of_cases f P (inr e) s r = ((s, λ n. absurd (n (r e))), (r, λ _. e))

pub decides_map : (f : Finding) {P Q : Type 0} → Decides f P → (P → Q) → (Q → P) → Decides f Q
decides_map f (p, q) there back =
    ((λ h. there (p.0 h), λ h. p.1 (back h)), (λ h n. q.0 h (back n), λ n. q.1 (λ h. n (there h))))
