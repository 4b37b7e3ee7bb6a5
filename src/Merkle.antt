-- ===== src/Merkle.antt =====
-- The Merkle tree of pkg/merkle/rfc6962.go. The hash function is Go's crypto/sha256, a parameter.
pub mod Trees
pub mod Binding
pub mod Rfc6962
use Prim.Native.String.{◌++◌ as concat}
use intentproof_tools.Prelude.{ℕ, zero, suc, String, List, [], ◌∷◌, ◌++◌, map, length}
use intentproof_tools.Prelude.Bytes.{hex_encode}

abbrev pub Bytes : Type 0
Bytes = List ℕ

-- `LeafPrefix` and `InternalPrefix`.
abbrev pub leaf_prefix : ℕ
leaf_prefix = 0x00

abbrev pub internal_prefix : ℕ
internal_prefix = 0x01

module _ (sha256 : Bytes → Bytes) where
  abbrev pub hash_leaf : Bytes → Bytes
  hash_leaf leaf = sha256 (leaf_prefix ∷ leaf)

  abbrev pub hash_internal : Bytes → Bytes → Bytes
  hash_internal left right = sha256 (internal_prefix ∷ left ++ right)

  abbrev pub empty_tree_hash : Bytes
  empty_tree_hash = sha256 []

  -- One round of `Root`: neighbours are paired, an odd last node is promoted unchanged.
  unfoldable pub next_level : List Bytes → List Bytes
  next_level [] = []
  next_level (x ∷ []) = x ∷ []
  next_level (x ∷ y ∷ level) = hash_internal x y ∷ next_level level

  -- The loop `for len(level) > 1`, on fuel, and the `level[0]` behind it. A level halves in each
  -- round, so that its length is fuel enough.
  unfoldable pub reduce : ℕ → List Bytes → Bytes
  reduce fuel [] = []
  reduce fuel (x ∷ []) = x
  reduce zero (x ∷ y ∷ level) = x
  reduce (suc fuel) (x ∷ y ∷ level) = reduce fuel (next_level (x ∷ y ∷ level))

  unfoldable pub root : List Bytes → Bytes
  root [] = empty_tree_hash
  root (leaf ∷ leaves) = reduce (length (leaf ∷ leaves)) (map hash_leaf (leaf ∷ leaves))

  unfoldable pub root_hex : List Bytes → String
  root_hex leaves = concat "sha256:" (hex_encode (root leaves))
