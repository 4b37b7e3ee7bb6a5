-- ===== src/Prelude/Tests.antt =====
-- Boolean tests on the native numbers, equality tests by instances, and the conditional.
use Prim.Native.Nat.{ℕ, zero, suc, ◌<◌, compare, Ordering}
use Prim.Native.String.{String}
use mathlib.Core.Path.{◌≡◌, refl, sym, subst}
use mathlib.Core.Logic.{◌↔◌, ◌⊎◌, ◌≢◌, inl, inr}
use mathlib.Core.Bool.{Bool, true, false, ◌&&◌}
use mathlib.Core.Option.{Option, none, some}
use native.Mathlib.Omega.{arith}
use text.Mathlib.Text.{◌==◌ as str_eq}
use text.Mathlib.TextEquality.{eq_iff}

abbrev pub ltb : ℕ → ℕ → Bool
ltb a b = elim (compare a b) [ Ordering.lt ↦ true | _ ↦ false ]

abbrev pub leb : ℕ → ℕ → Bool
leb a b = elim (compare a b) [ Ordering.gt ↦ false | _ ↦ true ]

abbrev pub nat_eq : ℕ → ℕ → Bool
nat_eq a b = elim (compare a b) [ Ordering.eq ↦ true | _ ↦ false ]

infix 1 if◌then◌else◌
abbrev pub if◌then◌else◌ {ℓ} : {A : Type ℓ} → Bool → A → A → A
if true then x else y = x
if false then x else y = y

pub nat_eq_iff : (a b : ℕ) → (nat_eq a b ≡ true) ↔ (a ≡ b)
nat_eq_iff a b = ground arith

-- Go's `==` at the types of keys, tags and numbers, with what it decides.
pub record Eq (K : Type 0) : Type 0 where
  pub same : K → K → Bool
  pub same_iff : (j k : K) → (same j k ≡ true) ↔ (j ≡ k)

infix 50 ◌==◌
abbrev pub ◌==◌ : {K : Type 0} ⦃keys : Eq K⦄ → K → K → Bool
◌==◌ ⦃keys⦄ j k = keys.same j k

instance abbrev pub Eq-String : Eq String
Eq-String = record { same = str_eq; same_iff = eq_iff }

instance abbrev pub Eq-ℕ : Eq ℕ
Eq-ℕ = record { same = nat_eq; same_iff = nat_eq_iff }

-- To split on a computed value and keep the equation.
pub Bool-cases : (b : Bool) → (b ≡ true) ⊎ (b ≡ false)
Bool-cases true = inl refl
Bool-cases false = inr refl

pub Option-cases {ℓ} : {A : Type ℓ} (o : Option A) → (o ≡ none) ⊎ ((a : A) × (o ≡ some a))
Option-cases none = inl refl
Option-cases (some a) = inr (a, refl)

pub eq-false : (s t : String) → s ≢ t → (s == t) ≡ false
eq-false s t h = ground (arith, eq_iff s t)

pub eq-true : (s t : String) → s ≡ t → (s == t) ≡ true
eq-true s t h = (eq_iff s t).1 h

pub ne-of-eq-false : (s t : String) → (s == t) ≡ false → s ≢ t
ne-of-eq-false s t h = ground (arith, eq_iff s t)

-- A test of every number below a bound.
abbrev pub check_below : (ℕ → Bool) → ℕ → Bool
check_below p zero = true
check_below p (suc k) = p k && check_below p k

pub check_below-holds : (p : ℕ → Bool) (k n : ℕ) → n < k → check_below p k ≡ true → p n ≡ true
check_below-holds p zero n h e = absurd (omega arith)
check_below-holds p (suc k) n h e = elim (Bool-cases (n == k)) [
  | inl q ↦ subst (λ m. p m ≡ true) (sym ((nat_eq_iff n k).0 q)) (ground arith)
  | inr q ↦ check_below-holds p k n (ground arith) (ground arith)
]
