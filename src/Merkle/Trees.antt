-- ===== src/Merkle/Trees.antt =====
-- The levels of `Root` (pkg/merkle/rfc6962.go) as lists of trees: what each hash of a level commits to.
use intentproof_tools.Prelude.{
  ℕ, zero, suc, ◌≤◌, ◌≡◌, refl, sym, ap, ◌∙◌, List, [], ◌∷◌, ◌++◌, map, length, length-map, arith,
}
use mathlib.Core.List.{append_assoc, append-nil}
use intentproof_tools.Merkle.{Bytes, hash_leaf, hash_internal, next_level, reduce, root}

-- A hash tree over leaf data.
pub data Tree : Type 0 where
  tip : Bytes → Tree
  fork : Tree → Tree → Tree

abbrev pub tips : Tree → List Bytes
tips (tip leaf) = leaf ∷ []
tips (fork l r) = tips l ++ tips r

abbrev pub all_tips : List Tree → List Bytes
all_tips [] = []
all_tips (t ∷ ts) = tips t ++ all_tips ts

pair_up : List Tree → List Tree
pair_up [] = []
pair_up (s ∷ []) = s ∷ []
pair_up (s ∷ t ∷ ts) = fork s t ∷ pair_up ts

all_tips-pair_up : (ts : List Tree) → all_tips (pair_up ts) ≡ all_tips ts
unfolding pair_up
all_tips-pair_up [] = refl
all_tips-pair_up (s ∷ []) = refl
all_tips-pair_up (s ∷ t ∷ ts) =
    rw (all_tips-pair_up ts) (append_assoc (tips s) (tips t) (all_tips ts))

length-pair_up : (ts : List Tree) → length (pair_up ts) ≤ length ts
unfolding pair_up
length-pair_up [] = omega arith
length-pair_up (s ∷ []) = omega arith
length-pair_up (s ∷ t ∷ ts) = omega (arith, length-pair_up ts)

all_tips-tip : (leaves : List Bytes) → all_tips (map tip leaves) ≡ leaves
all_tips-tip [] = refl
all_tips-tip (leaf ∷ leaves) = ap (λ t. leaf ∷ t) (all_tips-tip leaves)

module _ (sha256 : Bytes → Bytes) where
  abbrev pub hash_tree : Tree → Bytes
  hash_tree (tip leaf) = hash_leaf sha256 leaf
  hash_tree (fork l r) = hash_internal sha256 (hash_tree l) (hash_tree r)

  map-hash_tree-pair_up :
      (ts : List Tree) → map hash_tree (pair_up ts) ≡ next_level sha256 (map hash_tree ts)
  unfolding pair_up next_level
  map-hash_tree-pair_up [] = refl
  map-hash_tree-pair_up (s ∷ []) = refl
  map-hash_tree-pair_up (s ∷ t ∷ ts) =
      ap (λ l. hash_internal sha256 (hash_tree s) (hash_tree t) ∷ l) (map-hash_tree-pair_up ts)

  map-hash_tree-tip :
      (leaves : List Bytes) → map hash_tree (map tip leaves) ≡ map (hash_leaf sha256) leaves
  map-hash_tree-tip [] = refl
  map-hash_tree-tip (leaf ∷ leaves) = ap (λ l. hash_leaf sha256 leaf ∷ l) (map-hash_tree-tip leaves)

  -- With fuel for the length of the level, the loop ends in the hash of one tree over all its leaves.
  reduce-tree :
      (fuel : ℕ) (t : Tree) (ts : List Tree)
      → length ts ≤ fuel
      → (u : Tree) × (reduce sha256 fuel (map hash_tree (t ∷ ts)) ≡ hash_tree u)
        × (tips u ≡ all_tips (t ∷ ts))
  unfolding reduce pair_up
  reduce-tree fuel t [] h = (t, refl, sym (append-nil (tips t)))
  reduce-tree zero t (s ∷ ts) h = absurd (omega arith)
  reduce-tree (suc fuel) t (s ∷ ts) h =
      let (u, e, f) = reduce-tree fuel (fork t s) (pair_up ts) (omega (arith, length-pair_up ts)) in
      (
        u,
        ap (reduce sha256 fuel) (sym (map-hash_tree-pair_up (t ∷ s ∷ ts))) ∙ e,
        f ∙ all_tips-pair_up (t ∷ s ∷ ts),
      )

  pub root-tree :
      (leaf : Bytes) (leaves : List Bytes)
      → (u : Tree) × (root sha256 (leaf ∷ leaves) ≡ hash_tree u) × (tips u ≡ leaf ∷ leaves)
  unfolding root
  root-tree leaf leaves =
      let (u, e, f) =
        reduce-tree (length (leaf ∷ leaves)) (tip leaf) (map tip leaves)
          (omega (arith, length-map tip leaves)) in
      (u, rw (← map-hash_tree-tip (leaf ∷ leaves)) e, f ∙ all_tips-tip (leaf ∷ leaves))
