-- ===== src/Policy/Conformance/Forbidden.antt =====
-- Compiled forbidden rules (pkg/policy/compiler.go) under `evaluateForbidden` of pkg/verifier.
use text.Mathlib.TextEquality.{eq_iff}
use mathlib.Core.Path.{ap₂}
use intentproof_tools.Prelude.{
  String, List, ◌≡◌, ◌≢◌, refl, sym, ap, subst, ◌∙◌, true, false, not, ◌&&◌, ◌||◌, Option, none,
  some, ◌==◌, eq-false, ne-of-eq-false, Eq-String, ok, then-ok, guard, guard-not-ok, ok-injective,
  arith,
}
use intentproof_tools.Value.{Value, Fields, get, set, str, obj, end, or_empty, as_string, as_fields}
use intentproof_tools.Value.Lookup.{get-set}
use intentproof_tools.Policy.Input.{
  YamlRule, CanonicalRule, needs_action, two_predecessors, predecessor_without_after,
}
use intentproof_tools.Policy.Normalize.{normalize_string_map}
use intentproof_tools.Policy.Shorthand.{
  no_fields, set_text, set_map, is_set, normalize_map_or_nil, compile_forbidden,
}
use intentproof_tools.Policy.Conformance.{get-set_text, compile_rule-shorthand}
use intentproof_tools.Policy.CompileRule.{rule_category, compile_spec, compile_rule}
use intentproof_tools.Verifier.Types.{Rule, Event, Forbids}
use intentproof_tools.Verifier.Filters.{filter_events}
use intentproof_tools.Verifier.Events.{spec_string, selected, evaluate_forbidden}
use intentproof_tools.Verifier.Events.Forbidden.{predecessors, SomeAfter, forbidden_after}

get-set_map :
    (k j : String) (o : Option Fields) (m : Fields) → j ≢ k → get k (set_map j o m) ≡ get k m
unfolding set_map
get-set_map k j none m n = refl
get-set_map k j (some f) m n = ground (arith, eq_iff j k, get-set k j (obj f) m)

abbrev forbidden_spec : String → Option Fields → Option Fields → String → String → Fields
forbidden_spec without wp where_ after action = set_text "without_predecessor" without (
    set_map "where_predecessor" wp
      (set_map "where" where_ (set_text "after" after (set "action" (str action) end))))

after_at :
    (without : String) (wp where_ : Option Fields) (after action : String)
    → after ≢ ""
    → get "after" (forbidden_spec without wp where_ after action) ≡ some (str after)
unfolding set get
after_at without wp where_ after action n =
    get-set_text "after" "without_predecessor" without _
    ∙ get-set_map "after" "where_predecessor" wp _ (ne-of-eq-false _ _ refl)
    ∙ get-set_map "after" "where" where_ _ (ne-of-eq-false _ _ refl)
    ∙ get-set_text "after" "after" after _
    ∙ rw (eq-false after "" n) refl

where_predecessor_at :
    (without : String) (where_ : Option Fields) (after action : String)
    → get "where_predecessor" (forbidden_spec without none where_ after action) ≡ none
unfolding set get set_map
where_predecessor_at without where_ after action =
    get-set_text "where_predecessor" "without_predecessor" without _
    ∙ get-set_map "where_predecessor" "where" where_ _ (ne-of-eq-false _ _ refl)
    ∙ get-set_text "where_predecessor" "after" after _

without_predecessor_at :
    (without : String) (wp where_ : Option Fields) (after action : String)
    → without ≢ ""
    → get "without_predecessor" (forbidden_spec without wp where_ after action) ≡ some (str without)
without_predecessor_at without wp where_ after action n =
    get-set_text "without_predecessor" "without_predecessor" without _
    ∙ rw (eq-false without "" n) refl

not_set :
    (sprint : Value → String) (o : Option Fields)
    → is_set o ≡ false
    → normalize_map_or_nil sprint o ≡ none
not_set sprint none h = refl
not_set sprint (some m) h = cc

module _ (sprint : Value → String) where
  -- A compiled rule with `without_predecessor` has `after`, and no filter on predecessors.
  compile_forbidden_lem :
      (r : YamlRule) (spec : Fields)
      → r.without_predecessor ≢ ""
      → compile_forbidden sprint r ≡ ok spec
      → (r.after ≢ "")
        × (forbidden_spec r.without_predecessor none
              (normalize_string_map sprint r.where_)
              r.after
              r.action
            ≡ spec)
  unfolding compile_forbidden
  compile_forbidden_lem r spec n h =
      let has = is_set r.where_predecessor in
      let (e, h₁) = then-ok (guard (not (r.action == "")) needs_action) _ spec h in
      let (e₁, h₂) =
        then-ok (guard (not (has && not (r.without_predecessor == ""))) two_predecessors) _ spec
          h₁ in
      let (e₂, h₃) =
        then-ok
          (guard (not ((has || not (r.without_predecessor == "")) && r.after == ""))
            predecessor_without_after)
          _ spec h₂ in
      let nil : has ≡ false = ground (arith, guard-not-ok _ two_predecessors e₁, eq-false _ "" n) in
      let after : (r.after == "") ≡ false =
        ground (arith, guard-not-ok _ predecessor_without_after e₂, eq-false _ "" n) in
      (
        ne-of-eq-false _ "" after,
        ap
              (λ m.
                forbidden_spec r.without_predecessor m (normalize_string_map sprint r.where_)
                  r.after r.action)
              (sym (not_set sprint r.where_predecessor nil))
            ∙ ok-injective h₃,
      )

  -- For a forbidden rule in shorthand, without a spec of its own, the compiler takes `without_predecessor`
  -- only beside `after`, and the evaluator does not read it there: the compiled rule fails just if a
  -- selected event completes behind one of the action `after`, whether or not it has the predecessor.
  pub compiled_without_predecessor :
      (r : YamlRule) (c : CanonicalRule) (rule : Rule) (events : List Event)
      → no_fields r.spec ≡ true
      → rule_category r ≡ "forbidden"
      → r.without_predecessor ≢ ""
      → compile_rule sprint r ≡ ok c
      → rule.spec ≡ c.spec
      → (get "without_predecessor" rule.spec ≡ some (str r.without_predecessor))
        × Forbids
            (evaluate_forbidden rule events)
            (SomeAfter (filter_events events r.after none) (selected rule events))
  unfolding compile_spec
  compiled_without_predecessor r c rule events short category n compiled same =
      let spec = compile_rule-shorthand sprint r c short compiled in
      let h : compile_forbidden sprint r ≡ ok rule.spec =
        subst (λ k. compile_spec sprint k r ≡ ok c.spec) category spec ∙ ap ok (sym same) in
      let (m, e) = compile_forbidden_lem r rule.spec n h in
      let where_ = normalize_string_map sprint r.where_ in
      let without = r.without_predecessor in
      let after : get "after" rule.spec ≡ some (str r.after) =
        ap (get "after") (sym e) ∙ after_at without none where_ r.after r.action m in
      let filter : get "where_predecessor" rule.spec ≡ none =
        ap (get "where_predecessor") (sym e)
        ∙ where_predecessor_at without where_ r.after r.action in
      let at : spec_string rule "after" ≡ r.after = ap (λ o. or_empty (as_string o)) after in
      let before : predecessors rule "after" events ≡ filter_events events r.after none =
        ap₂ (λ s o. filter_events events s (as_fields o)) at filter in
      (
        ap (get "without_predecessor") (sym e)
            ∙ without_predecessor_at without none where_ r.after r.action n,
        subst (λ l. Forbids (evaluate_forbidden rule events) (SomeAfter l (selected rule events)))
            before (forbidden_after rule events (λ q. m (sym at ∙ q))),
      )
