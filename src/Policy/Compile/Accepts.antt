-- ===== src/Policy/Compile/Accepts.antt =====
-- What a policy that `Compile` (pkg/policy/compiler.go) accepts is made of.
use intentproof_tools.Prelude.{
  Distinct, ◌≡◌, ◌≢◌, refl, sym, ap, subst, ◌∙◌, String, [], false, not, Option, some, ◌==◌,
  Eq-String, is_empty, arith, ok, guard, or_err, bind-ok, then-ok, guard-not-ok, ne-of-eq-false,
  or_err-ok, ok-injective, count_of, count_of-sort,
}
use intentproof_tools.Value.{Value}
use intentproof_tools.Policy.Input.{
  YamlPolicy, CanonicalPolicy, CompileResult, needs_policy_id, needs_tenant_id, needs_scope,
  needs_rules, no_fingerprint,
}
use intentproof_tools.Policy.Compile.{
  Progress, start, add_rules, tenant_of, scope_actions, canonical_policy, compile, count_lt,
}
use intentproof_tools.Prelude.Sorting.{sort}
use intentproof_tools.Policy.Compile.Loop.{
  CompilesTo, ids, in_category, Fresh-Distinct, Grown, add_rules-Grown,
}

-- The fields of a result, as the document and the functions of the compiler give them.
pub record Accepted (sprint : Value → String) (compute : CanonicalPolicy → Option String)
    (input : YamlPolicy) (result : CompileResult) : Type 0 where
  pub named : input.policy_id ≢ ""
  pub owned : tenant_of input ≢ ""
  pub scoped : is_empty (scope_actions input) ≡ false
  pub ruled : is_empty result.policy.rules ≡ false
  pub compiles : CompilesTo sprint input.rules result.policy.rules
  pub distinct : Distinct (ids result.policy.rules)
  pub counted : (s : String) → count_of s result.rule_counts ≡ in_category s result.policy.rules
  pub fingerprinted :
      compute (canonical_policy sprint compute input result.policy.rules) ≡ some result.fingerprint
  pub assembled :
      result.policy ≡ (record (canonical_policy sprint compute input result.policy.rules) {
        policy_fingerprint = result.fingerprint;
      })

module _ (sprint : Value → String) (compute : CanonicalPolicy → Option String) where
  abbrev pub result_of : YamlPolicy → Progress → String → CompileResult
  result_of input q fp = record {
    policy = record (canonical_policy sprint compute input q.rules) { policy_fingerprint = fp };
    fingerprint = fp;
    rule_counts = sort count_lt q.rule_counts;
  }

  Grown-Accepted :
      (input : YamlPolicy) (q : Progress) (fp : String)
      → input.policy_id ≢ ""
      → tenant_of input ≢ ""
      → is_empty (scope_actions input) ≡ false
      → is_empty q.rules ≡ false
      → Grown sprint start q input.rules
      → compute (canonical_policy sprint compute input q.rules) ≡ some fp
      → Accepted sprint compute input (result_of input q fp)
  Grown-Accepted input q fp n t s r g f =
      let e : q.rules ≡ g.compiled = g.appended in
      record {
        named = n;
        owned = t;
        scoped = s;
        ruled = r;
        compiles = subst (CompilesTo sprint input.rules) (sym e) g.compiles;
        distinct = subst (λ c. Distinct (ids c)) (sym e) (Fresh-Distinct [] g.compiled g.fresh);
        counted = λ s.
            let n : count_of s q.rule_counts ≡ in_category s g.compiled =
              omega (arith, g.counted s) in
            count_of-sort count_lt s q.rule_counts (g.distinct refl)
            ∙ n
            ∙ ap (in_category s) (sym e);
        fingerprinted = f;
        assembled = refl;
      }

  -- A policy that compiles has an id and a tenant, a scope, and at least one rule. Its rules are those
  -- of the document, compiled in their order, with different ids. Its rule counts give the number of
  -- its rules of every category, and the fingerprint is that of the policy without it.
  pub compile-Accepted :
      (input : YamlPolicy) (result : CompileResult)
      → compile sprint compute (some input) ≡ ok result
      → Accepted sprint compute input result
  unfolding compile
  compile-Accepted input result h =
      let (e, h₁) = then-ok (guard (not (input.policy_id == "")) needs_policy_id) _ result h in
      let (e₁, h₂) = then-ok (guard (not (tenant_of input == "")) needs_tenant_id) _ result h₁ in
      let (e₂, h₃) =
        then-ok (guard (not (is_empty (scope_actions input))) needs_scope) _ result h₂ in
      let (q, e₃, h₄) = bind-ok (add_rules sprint start input.rules) _ result h₃ in
      let (e₄, h₅) = then-ok (guard (not (is_empty q.rules)) needs_rules) _ result h₄ in
      let (fp, e₅, h₆) =
        bind-ok (or_err (compute (canonical_policy sprint compute input q.rules)) no_fingerprint) _
          result h₅ in
      let f = or_err-ok _ no_fingerprint fp e₅ in
      subst (Accepted sprint compute input) (ok-injective h₆) (
        Grown-Accepted input q fp (ne-of-eq-false _ "" (guard-not-ok _ needs_policy_id e))
          (ne-of-eq-false _ "" (guard-not-ok _ needs_tenant_id e₁)) (guard-not-ok _ needs_scope e₂)
          (guard-not-ok _ needs_rules e₄) (add_rules-Grown sprint start q input.rules e₃) f)
