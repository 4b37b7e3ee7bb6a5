-- ===== src/Canon/Json.antt =====
-- The JSON trees that pkg/canon/canon.go decodes and encodes (orderedObject and the values in it).
use intentproof_tools.Prelude.{Bool, false, List, [], ◌∷◌, String, ◌==◌, Eq-String, ◌||◌}

mutual
  -- A number keeps its text, as json.Number does.
  pub data Json : Type 0 where
    null : Json
    bool : Bool → Json
    text : String → Json
    number : String → Json
    array : Elements → Json
    object : Members → Json

  pub data Elements : Type 0 where
    no_elements : Elements
    element : Json → Elements → Elements

  -- `orderedObject`: the keys in the order in which they came, each with its value.
  pub data Members : Type 0 where
    no_members : Members
    member : String → Json → Members → Members

unfoldable pub member_keys : Members → List String
member_keys no_members = []
member_keys (member k v ms) = k ∷ member_keys ms

-- `_, exists := o.values[k]`
unfoldable pub has_key : String → Members → Bool
has_key k no_members = false
has_key k (member j v ms) = j == k || has_key k ms

-- `o.keys = append(o.keys, k); o.values[k] = v`
unfoldable pub add_member : Members → String → Json → Members
add_member no_members k v = member k v no_members
add_member (member j w ms) k v = member j w (add_member ms k v)
