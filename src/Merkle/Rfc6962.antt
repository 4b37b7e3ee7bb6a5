-- ===== src/Merkle/Rfc6962.antt =====
-- `Root` of pkg/merkle/rfc6962.go against the recursive definition of RFC 6962, section 2.1.
use native.Mathlib.Nat.{pow-suc}
use native.Mathlib.Decide.{dec_le}
use intentproof_tools.Prelude.{
  ℕ, zero, suc, ◌+◌, ◌^◌, ◌≤◌, ◌<◌, ◌≡◌, refl, sym, ap, ◌∙◌, subst, ◌↔◌, List, [], ◌∷◌, ◌++◌, map,
  length, length-map, length-append, take, drop, take-append-drop, length-take, length-drop, arith,
}
use mathlib.Core.List.{map-append}
use mathlib.Core.Path.{ap₂}
use intentproof_tools.Merkle.{
  Bytes, hash_leaf, hash_internal, empty_tree_hash, next_level, reduce, root,
}

-- MTH of the RFC, as a relation. A list of more than one item is split behind the largest power of
-- two that is smaller than its length.
pub data Mth (sha256 : Bytes → Bytes) : List Bytes → Bytes → Type 0 where
  empty : Mth sha256 [] (empty_tree_hash sha256)
  single : (leaf : Bytes) → Mth sha256 (leaf ∷ []) (hash_leaf sha256 leaf)
  split :
      {xs ys zs : List Bytes} {l r : Bytes} (k : ℕ)
      → length xs ≡ 2 ^ k
      → 0 < length ys
      → length ys ≤ 2 ^ k
      → zs ≡ xs ++ ys
      → Mth sha256 xs l
      → Mth sha256 ys r
      → Mth sha256 zs (hash_internal sha256 l r)

pow2-pos : (k : ℕ) → 0 < 2 ^ k
pow2-pos zero = omega arith
pow2-pos (suc k) = omega (arith, pow-suc 2 k, pow2-pos k)

-- The largest power of two below a number that is at least two.
power_below : (n : ℕ) → (k : ℕ) × (2 ^ k < suc (suc n)) × (suc (suc n) ≤ 2 ^ k + 2 ^ k)
power_below zero = (0, omega arith, omega arith)
power_below (suc n) =
    let (k, p, q) = power_below n in
    elim (dec_le (suc (suc (suc n))) (2 ^ k + 2 ^ k)) [
      | yes h ↦ (k, omega arith, h)
      | no h ↦ (suc k, omega (arith, pow-suc 2 k), omega (arith, pow-suc 2 k))
    ]

module _ (sha256 : Bytes → Bytes) where
  length-next_level : (xs : List Bytes) → length (next_level sha256 xs) ≤ length xs
  unfolding next_level
  length-next_level [] = omega arith
  length-next_level (x ∷ []) = omega arith
  length-next_level (x ∷ y ∷ xs) = omega (arith, length-next_level xs)

  length-next_level_half :
      (xs : List Bytes) (n : ℕ) → length xs ≤ n + n → length (next_level sha256 xs) ≤ n
  unfolding next_level
  length-next_level_half [] n h = omega arith
  length-next_level_half (x ∷ []) n h = omega arith
  length-next_level_half (x ∷ y ∷ xs) zero h = absurd (omega arith)
  length-next_level_half (x ∷ y ∷ xs) (suc n) h =
      omega (arith, length-next_level_half xs n (omega arith))

  length-next_level_even :
      (xs : List Bytes) (n : ℕ) → length xs ≡ n + n → length (next_level sha256 xs) ≡ n
  unfolding next_level
  length-next_level_even [] n h = omega arith
  length-next_level_even (x ∷ []) n h = omega arith
  length-next_level_even (x ∷ y ∷ xs) zero h = absurd (omega arith)
  length-next_level_even (x ∷ y ∷ xs) (suc n) h =
      omega (arith, length-next_level_even xs n (omega arith))

  next_level-pos : (xs : List Bytes) → 0 < length xs → 0 < length (next_level sha256 xs)
  unfolding next_level
  next_level-pos [] h = h
  next_level-pos (x ∷ []) h = h
  next_level-pos (x ∷ y ∷ xs) h = omega arith

  -- A level of even length pairs up without the one behind it.
  next_level-append :
      (xs ys : List Bytes) (n : ℕ)
      → length xs ≡ n + n
      → next_level sha256 (xs ++ ys) ≡ next_level sha256 xs ++ next_level sha256 ys
  unfolding next_level
  next_level-append [] ys n h = refl
  next_level-append (x ∷ []) ys n h = absurd (omega arith)
  next_level-append (x ∷ y ∷ xs) ys zero h = absurd (omega arith)
  next_level-append (x ∷ y ∷ xs) ys (suc n) h =
      ap (λ l. hash_internal sha256 x y ∷ l) (next_level-append xs ys n (omega arith))

  -- More fuel than the length changes nothing.
  reduce-enough :
      (f g : ℕ) (xs : List Bytes)
      → length xs ≤ suc f
      → length xs ≤ suc g
      → reduce sha256 f xs ≡ reduce sha256 g xs
  unfolding reduce next_level
  reduce-enough f g [] h k = refl
  reduce-enough f g (x ∷ []) h k = refl
  reduce-enough zero g (x ∷ y ∷ xs) h k = absurd (omega arith)
  reduce-enough (suc f) zero (x ∷ y ∷ xs) h k = absurd (omega arith)
  reduce-enough (suc f) (suc g) (x ∷ y ∷ xs) h k =
      reduce-enough f g (hash_internal sha256 x y ∷ next_level sha256 xs)
        (omega (arith, length-next_level xs)) (omega (arith, length-next_level xs))

  -- The loop with fuel for its level.
  abbrev reduce_all : List Bytes → Bytes
  reduce_all xs = reduce sha256 (length xs) xs

  reduce_all-next_level : (xs : List Bytes) → reduce_all (next_level sha256 xs) ≡ reduce_all xs
  unfolding reduce next_level
  reduce_all-next_level [] = refl
  reduce_all-next_level (x ∷ []) = refl
  reduce_all-next_level (x ∷ y ∷ xs) =
      reduce-enough (suc (length (next_level sha256 xs))) (suc (length xs))
        (hash_internal sha256 x y ∷ next_level sha256 xs) (omega arith)
        (omega (arith, length-next_level xs))

  reduce_all-split :
      (k : ℕ) (xs ys : List Bytes)
      → length xs ≡ 2 ^ k
      → 0 < length ys
      → length ys ≤ 2 ^ k
      → reduce_all (xs ++ ys) ≡ hash_internal sha256 (reduce_all xs) (reduce_all ys)
  reduce_all-split zero xs ys e p q = one_each xs ys e (omega arith)
    where
      one_each :
          (xs ys : List Bytes)
          → length xs ≡ 1
          → length ys ≡ 1
          → reduce_all (xs ++ ys) ≡ hash_internal sha256 (reduce_all xs) (reduce_all ys)
      one_each (x ∷ []) (y ∷ []) e f = unfold reduce next_level in refl
      one_each [] _ e f = absurd (omega arith)
      one_each _ [] e f = absurd (omega arith)
      one_each (x ∷ x' ∷ xs) _ e f = absurd (omega arith)
      one_each _ (x ∷ x' ∷ xs) e f = absurd (omega arith)
  reduce_all-split (suc k) xs ys e p q =
      sym (reduce_all-next_level (xs ++ ys))
      ∙ ap reduce_all (next_level-append xs ys (2 ^ k) (omega (arith, pow-suc 2 k)))
      ∙ reduce_all-split k (next_level sha256 xs) (next_level sha256 ys)
          (length-next_level_even xs (2 ^ k) (omega (arith, pow-suc 2 k))) (next_level-pos ys p)
          (length-next_level_half ys (2 ^ k) (omega (arith, pow-suc 2 k)))
      ∙ ap₂ (hash_internal sha256) (reduce_all-next_level xs) (reduce_all-next_level ys)

  Mth-reduce_all :
      {xs : List Bytes} {h : Bytes}
      → Mth sha256 xs h
      → 0 < length xs
      → reduce_all (map (hash_leaf sha256) xs) ≡ h
  unfolding reduce
  Mth-reduce_all empty p = absurd (omega arith)
  Mth-reduce_all (single leaf) p = refl
  Mth-reduce_all (split {xs = xs} {ys = ys} k e q u z m n) p =
      ap (λ l. reduce_all (map (hash_leaf sha256) l)) z
      ∙ ap reduce_all (map-append (hash_leaf sha256) xs ys)
      ∙ reduce_all-split k (map (hash_leaf sha256) xs) (map (hash_leaf sha256) ys)
          (omega (arith, length-map (hash_leaf sha256) xs))
          (omega (arith, length-map (hash_leaf sha256) ys))
          (omega (arith, length-map (hash_leaf sha256) ys))
      ∙ ap₂ (hash_internal sha256) (Mth-reduce_all m (omega (arith, pow2-pos k)))
          (Mth-reduce_all n q)

  root-reduce_all :
      (xs : List Bytes) → 0 < length xs → root sha256 xs ≡ reduce_all (map (hash_leaf sha256) xs)
  unfolding root
  root-reduce_all [] p = elim p [ ]
  root-reduce_all (x ∷ xs) p =
      ap (λ n. reduce sha256 (suc n) (map (hash_leaf sha256) (x ∷ xs)))
        (sym (length-map (hash_leaf sha256) xs))

  Mth-root : {xs : List Bytes} {h : Bytes} → Mth sha256 xs h → h ≡ root sha256 xs
  unfolding root
  Mth-root empty = refl
  Mth-root (single leaf) =
      sym (root-reduce_all (leaf ∷ []) (omega arith) ∙ Mth-reduce_all (single leaf) (omega arith))
  Mth-root (split {xs = xs} {ys = ys} {zs = zs} k e q u z m n) =
      let p : 0 < length zs = omega (arith, ap length z, length-append xs ys) in
      sym (root-reduce_all zs p ∙ Mth-reduce_all (split k e q u z m n) p)

  Mth-exists : (fuel : ℕ) (xs : List Bytes) → length xs ≤ fuel → (h : Bytes) × Mth sha256 xs h
  Mth-exists fuel [] b = (_, empty)
  Mth-exists fuel (x ∷ []) b = (_, single x)
  Mth-exists zero (x ∷ y ∷ xs) b = absurd (omega arith)
  Mth-exists (suc fuel) (x ∷ y ∷ xs) b =
      let zs : List Bytes = x ∷ y ∷ xs in
      let (k, p, q) = power_below (length xs) in
      let (l, m) =
        Mth-exists fuel (take (2 ^ k) zs) (omega (arith, length-take (2 ^ k) zs (omega arith))) in
      let (r, n) =
        Mth-exists fuel (drop (2 ^ k) zs) (omega (arith, length-drop (2 ^ k) zs, pow2-pos k)) in
      (
        hash_internal sha256 l r,
        split k (length-take (2 ^ k) zs (omega arith)) (omega (arith, length-drop (2 ^ k) zs))
            (omega (arith, length-drop (2 ^ k) zs)) (sym (take-append-drop (2 ^ k) zs)) m n,
      )

  -- `Root` computes the hash that the RFC defines, for every list of leaves, and that hash alone.
  pub root_iff_Mth : (xs : List Bytes) (h : Bytes) → (root sha256 xs ≡ h) ↔ Mth sha256 xs h
  root_iff_Mth xs h =
      let (h', m) = Mth-exists (length xs) xs (omega arith) in
      ((λ e. subst (Mth sha256 xs) (Mth-root m ∙ e) m), λ m'. sym (Mth-root m'))
