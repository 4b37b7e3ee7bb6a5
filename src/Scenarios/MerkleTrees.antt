-- ===== src/Scenarios/MerkleTrees.antt =====
-- Small trees of pkg/merkle, over a toy hash function that pads and cuts its input to 32 bytes.
use intentproof_tools.Prelude.{
  ℕ, zero, suc, ◌≡◌, refl, ◌↔◌, ◌⊎◌, List, [], ◌∷◌, ◌++◌, length, take, length-take, length-append,
  arith,
}
use intentproof_tools.Merkle.{Bytes, hash_leaf, hash_internal, reduce, next_level, root}
use intentproof_tools.Merkle.Binding.{Collision, root_binds}
use intentproof_tools.Merkle.Rfc6962.{Mth, root_iff_Mth}

zeros : ℕ → Bytes
zeros zero = []
zeros (suc n) = 0 ∷ zeros n

length-zeros : (n : ℕ) → length (zeros n) ≡ n
unfolding zeros
length-zeros zero = refl
length-zeros (suc n) = omega (arith, length-zeros n)

toy_hash : Bytes → Bytes
unfolding zeros
toy_hash x = take 32 (x ++ zeros 32)

toy_hash-size : (x : Bytes) → length (toy_hash x) ≡ 32
unfolding toy_hash
toy_hash-size x =
    length-take 32 (x ++ zeros 32) (omega (arith, length-append x (zeros 32), length-zeros 32))

-- A leaf whose last byte the toy hash does not see.
abbrev long_leaf : ℕ → Bytes
long_leaf n = zeros 40 ++ n ∷ []

root_binds_example :
    (◌≡◌ {A = List Bytes} ((7 ∷ []) ∷ long_leaf 1 ∷ []) ((7 ∷ []) ∷ long_leaf 2 ∷ []))
    ⊎ Collision toy_hash
unfolding root reduce next_level toy_hash
root_binds_example =
    root_binds toy_hash toy_hash-size ((7 ∷ []) ∷ long_leaf 1 ∷ []) ((7 ∷ []) ∷ long_leaf 2 ∷ [])
      refl

root_iff_Mth_example :
    (root toy_hash ((1 ∷ []) ∷ (2 ∷ []) ∷ (3 ∷ []) ∷ [])
      ≡ hash_internal toy_hash
          (hash_internal toy_hash (hash_leaf toy_hash (1 ∷ [])) (hash_leaf toy_hash (2 ∷ [])))
          (hash_leaf toy_hash (3 ∷ [])))
    ↔ Mth toy_hash ((1 ∷ []) ∷ (2 ∷ []) ∷ (3 ∷ []) ∷ []) (
        hash_internal toy_hash
          (hash_internal toy_hash (hash_leaf toy_hash (1 ∷ [])) (hash_leaf toy_hash (2 ∷ [])))
          (hash_leaf toy_hash (3 ∷ [])))
root_iff_Mth_example = root_iff_Mth toy_hash ((1 ∷ []) ∷ (2 ∷ []) ∷ (3 ∷ []) ∷ []) _

-- Five leaves: the fifth is promoted twice.
five :
    (h : Bytes → Bytes) (a b c d e : Bytes)
    → root h (a ∷ b ∷ c ∷ d ∷ e ∷ [])
      ≡ hash_internal h
          (hash_internal h
            (hash_internal h (hash_leaf h a) (hash_leaf h b))
            (hash_internal h (hash_leaf h c) (hash_leaf h d)))
          (hash_leaf h e)
unfolding root reduce next_level
five h a b c d e = refl
