-- ===== src/Merkle/Binding.antt =====
-- What a root of pkg/merkle/rfc6962.go commits to: the leaves, up to a collision of the hash function.
use intentproof_tools.Prelude.{
  ◌≡◌, refl, sym, ap, ◌∙◌, ◌≢◌, ◌⊎◌, inl, inr, List, [], ◌∷◌, ◌++◌, length, arith,
}
use native.Mathlib.Decide.{ℕ_discrete}
use intentproof_tools.Merkle.{Bytes, empty_tree_hash, root}
use intentproof_tools.Merkle.Trees.{Tree, tip, fork, tips, hash_tree, root-tree}

-- Two different inputs with one digest.
abbrev pub Collision : (Bytes → Bytes) → Type 0
Collision sha256 = (x : Bytes) × (y : Bytes) × (x ≢ y) × (sha256 x ≡ sha256 y)

pub Bytes-discrete : Discrete Bytes
Bytes-discrete = hlevel ℕ_discrete

-- Texts of one length are split in one way.
append-split : (a b c d : Bytes) → length a ≡ length b → a ++ c ≡ b ++ d → (a ≡ b) × (c ≡ d)
append-split [] [] c d h e = (refl, e)
append-split [] (y ∷ b) c d h e = absurd (omega arith)
append-split (x ∷ a) [] c d h e = absurd (omega arith)
append-split (x ∷ a) (y ∷ b) c d h e =
    let (p, q) = append-split a b c d (omega arith) (cc) in (cc, q)

module _ (sha256 : Bytes → Bytes) (size : (x : Bytes) → length (sha256 x) ≡ 32) where
  same_input : (x y : Bytes) → sha256 x ≡ sha256 y → (x ≡ y) ⊎ Collision sha256
  same_input x y e = elim (Bytes-discrete x y) [ yes p ↦ inl p | no p ↦ inr (x, y, p, e) ]

  hash_tree-size : (t : Tree) → length (hash_tree sha256 t) ≡ 32
  hash_tree-size (tip leaf) = size _
  hash_tree-size (fork l r) = size _

  hash_tree_binds :
      (s t : Tree) → hash_tree sha256 s ≡ hash_tree sha256 t → (s ≡ t) ⊎ Collision sha256
  hash_tree_binds (tip x) (tip y) e = elim (same_input _ _ e) [ inl p ↦ inl (cc) | inr c ↦ inr c ]
  hash_tree_binds (tip x) (fork l r) e = inr (_, _, (λ p. cc), e)
  hash_tree_binds (fork l r) (tip y) e = inr (_, _, (λ p. cc), e)
  hash_tree_binds (fork l r) (fork m s) e = elim (same_input _ _ e) [
    | inr c ↦ inr c
    | inl p ↦
        let (q, q') =
          append-split (hash_tree sha256 l) (hash_tree sha256 m) (hash_tree sha256 r)
            (hash_tree sha256 s) (hash_tree-size l ∙ sym (hash_tree-size m)) (cc) in
        elim (hash_tree_binds l m q) [
          | inr c ↦ inr c
          | inl a ↦ elim (hash_tree_binds r s q') [ inr c ↦ inr c | inl b ↦ inl (cc) ]
        ]
  ]

  hash_tree-ne-empty : (t : Tree) → hash_tree sha256 t ≡ empty_tree_hash sha256 → Collision sha256
  hash_tree-ne-empty (tip x) e = (_, _, (λ p. cc), e)
  hash_tree-ne-empty (fork l r) e = (_, _, (λ p. cc), e)

  -- Two lists of leaves with one root are the same list, or the proof yields two inputs on which the
  -- hash function collides. The digests are 32 bytes long.
  pub root_binds :
      (xs ys : List Bytes) → root sha256 xs ≡ root sha256 ys → (xs ≡ ys) ⊎ Collision sha256
  unfolding root
  root_binds [] [] e = inl refl
  root_binds [] (y ∷ ys) e =
      let (t, p, f) = root-tree sha256 y ys in inr (hash_tree-ne-empty t (sym (e ∙ p)))
  root_binds (x ∷ xs) [] e =
      let (t, p, f) = root-tree sha256 x xs in inr (hash_tree-ne-empty t (sym p ∙ e))
  root_binds (x ∷ xs) (y ∷ ys) e =
      let (t, p, f) = root-tree sha256 x xs in
      let (u, q, g) = root-tree sha256 y ys in
      elim (hash_tree_binds t u (sym p ∙ e ∙ q)) [
        | inl a ↦ inl (sym f ∙ ap tips a ∙ g)
        | inr c ↦ inr c
      ]
