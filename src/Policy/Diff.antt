-- ===== src/Policy/Diff.antt =====
-- `diffRules` and `diffOneRule` of pkg/policy/diff.go. Whether two values have one JSON text
-- (`deepJSONEqual`, by encoding/json) is a parameter.
pub mod Members
pub mod Same
pub mod Whole
use intentproof_tools.Prelude.{
  String, List, [], ◌∷◌, ◌++◌, map, Bool, true, false, not, ◌&&◌, ◌||◌, Option, none, some, ◌==◌,
  Eq-String, if◌then◌else◌,
}
use intentproof_tools.Prelude.Sorting.{sort, sort_strings, str_lt}
use intentproof_tools.Value.{Value, Fields, str, get, keys}
use intentproof_tools.Policysig.{mem}
use intentproof_tools.Policy.Input.{CanonicalRule}

pub data DiffChangeKind : Type 0 where
  added removed changed : DiffChangeKind

pub record SpecChange : Type 0 where
  pub kind : DiffChangeKind
  pub key : String
  pub old_value : Option Value
  pub new_value : Option Value

pub record RuleDiff : Type 0 where
  pub rule_id : String
  pub kind : DiffChangeKind
  pub old_category : String
  pub new_category : String
  pub old_severity : String
  pub new_severity : String
  pub spec_changes : List SpecChange

-- The keys of a map that is filled from a list: each of them once.
unfoldable pub unique : List String → List String
unique [] = []
unique (x ∷ xs) = if mem xs x then unique xs else x ∷ unique xs

abbrev pub later : {A : Type 0} → Option A → Option A → Option A
later (some a) o = some a
later none o = o

-- `indexRules(rules)[id]`: the last rule with an id counts.
unfoldable pub indexed : String → List CanonicalRule → Option CanonicalRule
indexed id [] = none
indexed id (r ∷ rules) = later (indexed id rules) (if r.id == id then some r else none)

-- `k1 < k2` of two kinds, which are texts.
unfoldable pub kind_lt : DiffChangeKind → DiffChangeKind → Bool
kind_lt added changed = true
kind_lt added removed = true
kind_lt changed removed = true
kind_lt _ _ = false

unfoldable pub change_lt : SpecChange → SpecChange → Bool
change_lt c d = if not (c.key == d.key) then str_lt c.key d.key else kind_lt c.kind d.kind

-- A change of the category or the severity.
unfoldable pub text_change : String → String → String → List SpecChange
text_change key old new =
    if old == new
    then []
    else (record {
      kind = changed;
      key = key;
      old_value = some (str old);
      new_value = some (str new);
    })
      ∷ []

module _ (json_equal : Value → Value → Bool) where
  -- The body of the loop over the keys of two specs.
  unfoldable pub spec_change : String → Option Value → Option Value → List SpecChange
  spec_change k none none = []
  spec_change k (some v) none =
      (record { kind = removed; key = k; old_value = some v; new_value = none }) ∷ []
  spec_change k none (some w) =
      (record { kind = added; key = k; old_value = none; new_value = some w }) ∷ []
  spec_change k (some v) (some w) =
      if json_equal v w
      then []
      else (record { kind = changed; key = k; old_value = some v; new_value = some w }) ∷ []

  unfoldable pub spec_changes_at : Fields → Fields → List String → List SpecChange
  spec_changes_at l r [] = []
  spec_changes_at l r (k ∷ ks) = spec_change k (get k l) (get k r) ++ spec_changes_at l r ks

  abbrev pub all_keys : Fields → Fields → List String
  all_keys l r = sort_strings (unique (keys l ++ keys r))

  unfoldable pub changes_of : CanonicalRule → CanonicalRule → List SpecChange
  changes_of l r =
      text_change "category" l.category r.category
      ++ text_change "severity" l.severity r.severity
      ++ spec_changes_at l.spec r.spec (all_keys l.spec r.spec)

  unfoldable pub rule_diff : CanonicalRule → CanonicalRule → List SpecChange → List RuleDiff
  rule_diff l r [] = []
  rule_diff l r (c ∷ changes) =
      (record {
        rule_id = l.id;
        kind = changed;
        old_category = l.category;
        new_category = r.category;
        old_severity = l.severity;
        new_severity = r.severity;
        spec_changes = sort change_lt (c ∷ changes);
      })
      ∷ []

  -- The nil pointer is the empty list.
  unfoldable pub diff_one_rule : CanonicalRule → CanonicalRule → List RuleDiff
  diff_one_rule l r = rule_diff l r (changes_of l r)

  -- The body of the loop over the ids, each of which one of the two maps has.
  unfoldable pub diff_at : String → Option CanonicalRule → Option CanonicalRule → List RuleDiff
  diff_at id none none = []
  diff_at id (some l) none =
      (record {
        rule_id = id;
        kind = removed;
        old_category = l.category;
        new_category = "";
        old_severity = l.severity;
        new_severity = "";
        spec_changes = [];
      })
      ∷ []
  diff_at id none (some r) =
      (record {
        rule_id = id;
        kind = added;
        old_category = "";
        new_category = r.category;
        old_severity = "";
        new_severity = r.severity;
        spec_changes = [];
      })
      ∷ []
  diff_at id (some l) (some r) = diff_one_rule l r

  unfoldable pub diff_ids : List CanonicalRule → List CanonicalRule → List String → List RuleDiff
  diff_ids left right [] = []
  diff_ids left right (id ∷ ids) =
      diff_at id (indexed id left) (indexed id right) ++ diff_ids left right ids

  abbrev pub all_ids : List CanonicalRule → List CanonicalRule → List String
  all_ids left right = sort_strings (unique (map (λ (r : CanonicalRule). r.id) (left ++ right)))

  unfoldable pub diff_rules : List CanonicalRule → List CanonicalRule → List RuleDiff
  diff_rules left right = diff_ids left right (all_ids left right)
