-- ===== src/Policy/Compile/Complete.antt =====
-- A document in order compiles (`Compile`, pkg/policy/compiler.go).
use mathlib.Core.List.{append_assoc, append-nil}
use intentproof_tools.Prelude.{
  Distinct, ◌≡◌, ◌≢◌, refl, sym, ap, subst, ◌∙◌, inl, inr, String, List, [], ◌∷◌, ◌++◌, false,
  Option, some, ◌==◌, eq-false, Eq-String, In, is_empty, ok, arith,
}
use intentproof_tools.Value.{Value}
use intentproof_tools.Policysig.{mem}
use intentproof_tools.Policy.Input.{
  YamlRule, YamlPolicy, CanonicalRule, CanonicalPolicy, CompileResult,
}
use intentproof_tools.Policy.Compile.{
  Progress, start, add_rule, add_rules, tenant_of, scope_actions, canonical_policy, compile,
}
use intentproof_tools.Policy.Compile.Accepts.{result_of}
use intentproof_tools.Policy.Compile.Loop.{CompilesTo, ids, Fresh, next}

Distinct-Fresh :
    (seen : List String) (compiled : List CanonicalRule)
    → Distinct (ids compiled)
    → ((x : String) → In x (ids compiled) → mem seen x ≡ false)
    → Fresh seen compiled
Distinct-Fresh seen [] d h = tt
Distinct-Fresh seen (c ∷ compiled) (n, d) h = (
  h c.id (inl refl),
  Distinct-Fresh (c.id ∷ seen) compiled d (λ x i.
      let e : (c.id == x) ≡ false =
        eq-false c.id x (λ q. n (subst (λ y. In y (ids compiled)) (sym q) i)) in
      ground (arith, h x (inr i))),
)

module _ (sprint : Value → String) where
  add_rules_complete :
      (p : Progress) (rules : List YamlRule) (compiled : List CanonicalRule)
      → CompilesTo sprint rules compiled
      → Fresh p.seen_rule_ids compiled
      → (q : Progress) × (add_rules sprint p rules ≡ ok q) × (q.rules ≡ p.rules ++ compiled)
  unfolding add_rules add_rule
  add_rules_complete p [] [] h f = (p, refl, sym (append-nil p.rules))
  add_rules_complete p [] (c ∷ compiled) h f = elim h [ ]
  add_rules_complete p (r ∷ rules) [] h f = elim h [ ]
  add_rules_complete p (r ∷ rules) (c ∷ compiled) (e, h) (n, f) =
      let (q, e₁, a) = add_rules_complete (next sprint p c) rules compiled h f in
      (q, rw (e, n) e₁, a ∙ append_assoc p.rules (c ∷ []) compiled)

  module _ (compute : CanonicalPolicy → Option String) where
    -- A document with an id, a tenant and a scope, whose rules all compile, to at least one rule and
    -- to rules with different ids, compiles to a policy of these rules, with the fingerprint that is
    -- computed for it.
    pub compile_complete :
        (input : YamlPolicy) (compiled : List CanonicalRule) (fp : String)
        → input.policy_id ≢ ""
        → tenant_of input ≢ ""
        → is_empty (scope_actions input) ≡ false
        → is_empty compiled ≡ false
        → CompilesTo sprint input.rules compiled
        → Distinct (ids compiled)
        → compute (canonical_policy sprint compute input compiled) ≡ some fp
        → (result : CompileResult) × (compile sprint compute (some input) ≡ ok result)
          × (result.policy.rules ≡ compiled)
          × (result.fingerprint ≡ fp)
          × (result.policy.policy_fingerprint ≡ fp)
    unfolding compile
    compile_complete input compiled fp n t s r c d f =
        let (q, e, a) =
          add_rules_complete start input.rules compiled c
            (Distinct-Fresh [] compiled d (λ x i. refl)) in
        let e₁ : is_empty q.rules ≡ false = ap is_empty a ∙ r in
        let e₂ : compute (canonical_policy sprint compute input q.rules) ≡ some fp =
          ap (λ rules. compute (canonical_policy sprint compute input rules)) a ∙ f in
        (
          result_of sprint compute input q fp,
          rw (eq-false _ "" n, eq-false _ "" t, s, e, e₁, e₂) refl,
          a,
          refl,
          refl,
        )
