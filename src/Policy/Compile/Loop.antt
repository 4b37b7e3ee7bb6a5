-- ===== src/Policy/Compile/Loop.antt =====
-- The loop of `Compile` (pkg/policy/compiler.go) over the rules of a document.
use text.Mathlib.TextEquality.{eq_iff}
use mathlib.Core.Bool.{false≢true}
use mathlib.Core.List.{append_assoc, append-nil}
use intentproof_tools.Prelude.{
  Distinct, ℕ, ◌+◌, ◌≡◌, refl, sym, subst, ◌∙◌, inl, inr, String, List, [], ◌∷◌, ◌++◌, map, true,
  false, not, ◌==◌, Eq-String, In, any-of-In, count_if, arith, ok, guard, bind-ok, then-ok,
  guard-ok, ok-injective, increment, count_of, count_of-increment, distinct_keys,
  distinct_keys-increment,
}
use intentproof_tools.Value.{Value}
use intentproof_tools.Policysig.{mem}
use intentproof_tools.Policy.Input.{YamlRule, CanonicalRule, duplicate_id}
use intentproof_tools.Policy.CompileRule.{compile_rule}
use intentproof_tools.Policy.Compile.{Progress, add_rule, add_rules}

-- The rules of the policy, one for each rule of the document, in its order.
abbrev pub CompilesTo : (Value → String) → List YamlRule → List CanonicalRule → Type 0
CompilesTo sprint [] [] = Unit
CompilesTo sprint (r ∷ rules) (c ∷ compiled) =
    (compile_rule sprint r ≡ ok c) × CompilesTo sprint rules compiled
CompilesTo sprint _ _ = ⊥

abbrev pub ids : List CanonicalRule → List String
ids = map (λ (c : CanonicalRule). c.id)

-- How many rules have a category.
abbrev pub in_category : String → List CanonicalRule → ℕ
in_category s = count_if (λ (c : CanonicalRule). s == c.category)

-- No id of the list has been seen before, or twice in it.
abbrev pub Fresh : List String → List CanonicalRule → Type 0
Fresh seen [] = Unit
Fresh seen (c ∷ compiled) = (mem seen c.id ≡ false) × Fresh (c.id ∷ seen) compiled

Fresh-seen :
    (x : String) (seen : List String) (compiled : List CanonicalRule)
    → Fresh seen compiled
    → In x seen
    → ¬ In x (ids compiled)
Fresh-seen x seen [] h i j = j
Fresh-seen x seen (c ∷ compiled) (e, h) i (inl q) =
    let m = any-of-In (λ t. t == c.id) seen x i ((eq_iff x c.id).1 q) in
    absurd (false≢true (sym e ∙ m))
Fresh-seen x seen (c ∷ compiled) (e, h) i (inr j) = Fresh-seen x (c.id ∷ seen) compiled h (inr i) j

pub Fresh-Distinct :
    (seen : List String) (compiled : List CanonicalRule)
    → Fresh seen compiled
    → Distinct (ids compiled)
Fresh-Distinct seen [] h = tt
Fresh-Distinct seen (c ∷ compiled) (e, h) =
    (Fresh-seen c.id (c.id ∷ seen) compiled h (inl refl), Fresh-Distinct (c.id ∷ seen) compiled h)

module _ (sprint : Value → String) where
  -- The progress of the loop behind some rules.
  pub record Grown (p q : Progress) (rules : List YamlRule) : Type 0 where
    pub compiled : List CanonicalRule
    pub appended : q.rules ≡ p.rules ++ compiled
    pub compiles : CompilesTo sprint rules compiled
    pub fresh : Fresh p.seen_rule_ids compiled
    pub counted :
        (s : String) → count_of s q.rule_counts ≡ count_of s p.rule_counts + in_category s compiled
    pub distinct : distinct_keys p.rule_counts ≡ true → distinct_keys q.rule_counts ≡ true

  abbrev pub next : Progress → CanonicalRule → Progress
  next p c = record {
    seen_rule_ids = c.id ∷ p.seen_rule_ids;
    rules = p.rules ++ c ∷ [];
    rule_counts = increment c.category p.rule_counts;
  }

  add_rule-next :
      (p q : Progress) (r : YamlRule)
      → add_rule sprint p r ≡ ok q
      → (c : CanonicalRule) × (compile_rule sprint r ≡ ok c)
        × (mem p.seen_rule_ids c.id ≡ false)
        × (next p c ≡ q)
  unfolding add_rule
  add_rule-next p q r h =
      let (c, e, h₁) = bind-ok (compile_rule sprint r) _ q h in
      let (e₁, h₂) = then-ok (guard (not (mem p.seen_rule_ids c.id)) duplicate_id) _ q h₁ in
      let n = guard-ok _ duplicate_id e₁ in (c, e, ground arith, ok-injective h₂)

  Grown-cons :
      (p q : Progress) (r : YamlRule) (rules : List YamlRule) (c : CanonicalRule)
      → compile_rule sprint r ≡ ok c
      → mem p.seen_rule_ids c.id ≡ false
      → Grown (next p c) q rules
      → Grown p q (r ∷ rules)
  Grown-cons p q r rules c e n g = record {
    compiled = c ∷ g.compiled;
    appended = g.appended ∙ append_assoc p.rules (c ∷ []) g.compiled;
    compiles = (e, g.compiles);
    fresh = (n, g.fresh);
    counted = λ s. ground (
      arith,
      g.counted s,
      eq_iff s c.category,
      eq_iff c.category s,
      count_of-increment s c.category p.rule_counts,
    );
    distinct = λ d. g.distinct (distinct_keys-increment c.category p.rule_counts d);
  }

  pub add_rules-Grown :
      (p q : Progress) (rules : List YamlRule) → add_rules sprint p rules ≡ ok q → Grown p q rules
  unfolding add_rules
  add_rules-Grown p q [] h =
      subst (λ x. Grown p x []) (ok-injective h)
        (record {
          compiled = [];
          appended = sym (append-nil p.rules);
          compiles = tt;
          fresh = tt;
          counted = λ s. omega arith;
          distinct = λ d. d;
        })
  add_rules-Grown p q (r ∷ rules) h =
      let (p', e, h₁) = bind-ok (add_rule sprint p r) (λ q. add_rules sprint q rules) q h in
      let (c, e₁, n, i) = add_rule-next p p' r e in
      Grown-cons p q r rules c e₁ n
        (subst (λ x. Grown x q rules) (sym i) (add_rules-Grown p' q rules h₁))
