-- ===== src/Prelude/Counting.antt =====
-- Maps from texts to counts (`map[string]int`), as association lists.
use text.Mathlib.TextEquality.{eq_iff}
use Prim.Native.Nat.{ℕ, ◌+◌}
use Prim.Native.String.{String}
use mathlib.Core.Path.{◌≡◌, refl}
use mathlib.Core.Bool.{Bool, true, false, not, ◌&&◌, ◌||◌}
use mathlib.Core.List.{List, [], ◌∷◌}
use native.Mathlib.Omega.{arith}
use intentproof_tools.Prelude.Tests.{◌==◌, Eq-String, if◌then◌else◌}
use intentproof_tools.Prelude.Sorting.{insert_sorted, sort}

abbrev pub Counts : Type 0
Counts = List (String × ℕ)

-- `counts[s]++`
unfoldable pub increment : String → Counts → Counts
increment s [] = (s, 1) ∷ []
increment s ((k, n) ∷ counts) = if k == s then (k, n + 1) ∷ counts else (k, n) ∷ increment s counts

-- `counts[s]`, zero where the key is missing.
abbrev pub count_of : String → Counts → ℕ
count_of s [] = 0
count_of s ((k, n) ∷ counts) = if k == s then n else count_of s counts

pub count_of-increment :
    (s k : String) (counts : Counts)
    → count_of s (increment k counts) ≡ (if k == s then 1 else 0) + count_of s counts
unfolding increment
count_of-increment s k [] = ground arith
count_of-increment s k ((j, n) ∷ counts) =
    ground (arith, eq_iff j k, eq_iff j s, eq_iff k s, count_of-increment s k counts)

-- `_, ok := counts[s]`
abbrev pub has_key : String → Counts → Bool
has_key s [] = false
has_key s ((k, n) ∷ counts) = k == s || has_key s counts

-- A map has a key once.
abbrev pub distinct_keys : Counts → Bool
distinct_keys [] = true
distinct_keys ((k, n) ∷ counts) = not (has_key k counts) && distinct_keys counts

has_key-increment :
    (s k : String) (counts : Counts) → has_key s (increment k counts) ≡ (k == s || has_key s counts)
unfolding increment
has_key-increment s k [] = ground arith
has_key-increment s k ((j, n) ∷ counts) =
    ground (arith, eq_iff j k, eq_iff j s, eq_iff k s, has_key-increment s k counts)

pub distinct_keys-increment :
    (k : String) (counts : Counts)
    → distinct_keys counts ≡ true
    → distinct_keys (increment k counts) ≡ true
unfolding increment
distinct_keys-increment k [] h = refl
distinct_keys-increment k ((j, n) ∷ counts) h =
    ground (
      arith,
      eq_iff j k,
      eq_iff k j,
      has_key-increment j k counts,
      distinct_keys-increment k counts,
    )

module _ (lt : (String × ℕ) → (String × ℕ) → Bool) where
  has_key-insert :
      (s k : String) (n : ℕ) (counts : Counts)
      → has_key s (insert_sorted lt (k, n) counts) ≡ (k == s || has_key s counts)
  unfolding insert_sorted
  has_key-insert s k n [] = refl
  has_key-insert s k n ((j, m) ∷ counts) = ground (arith, has_key-insert s k n counts)

  count_of-insert :
      (s k : String) (n : ℕ) (counts : Counts)
      → has_key k counts ≡ false
      → count_of s (insert_sorted lt (k, n) counts) ≡ (if k == s then n else count_of s counts)
  unfolding insert_sorted
  count_of-insert s k n [] h = refl
  count_of-insert s k n ((j, m) ∷ counts) h =
      ground (arith, eq_iff j k, eq_iff j s, eq_iff k s, count_of-insert s k n counts)

  has_key-sort : (s : String) (counts : Counts) → has_key s (sort lt counts) ≡ has_key s counts
  unfolding sort
  has_key-sort s [] = refl
  has_key-sort s ((k, n) ∷ counts) =
      ground (arith, has_key-insert s k n (sort lt counts), has_key-sort s counts)

  -- Sorting a map with distinct keys keeps what it counts.
  pub count_of-sort :
      (s : String) (counts : Counts)
      → distinct_keys counts ≡ true
      → count_of s (sort lt counts) ≡ count_of s counts
  unfolding sort
  count_of-sort s [] h = refl
  count_of-sort s ((k, n) ∷ counts) h =
      ground (
        arith,
        has_key-sort k counts,
        count_of-insert s k n (sort lt counts),
        count_of-sort s counts,
      )
