-- ===== src/Prelude/Fallible.antt =====
-- Go's `(value, error)` results: a call gives an error or a value, and a do block returns the first
-- error that one of its calls gives.
use mathlib.Core.Path.{◌≡◌, refl, ap}
use mathlib.Core.Logic.{◌⊎◌, inl, inr}
use mathlib.Core.Bool.{Bool, true, false, not}
use mathlib.Core.Option.{Option, none, some}

pub data Result (E A : Type 0) : Type 0 where
  err : E → Result E A
  ok : A → Result E A

module _ {E : Type 0} where
  infixl 5 ◌>>=◌ ◌>>◌
  -- Go on with the value of a call.
  abbrev pub ◌>>=◌ : {A B : Type 0} → Result E A → (A → Result E B) → Result E B
  err e >>= rest = err e
  ok value >>= rest = rest value

  abbrev pub ◌>>◌ : {B : Type 0} → Result E (Unit {0}) → Result E B → Result E B
  err e >> rest = err e
  ok u >> rest = rest

  -- `if !condition { return err }`
  abbrev pub guard : Bool → E → Result E (Unit {0})
  guard false e = err e
  guard true e = ok tt

  -- A call whose error is turned into this one.
  abbrev pub or_err : {A : Type 0} → Option A → E → Result E A
  or_err (some value) e = ok value
  or_err none e = err e

abbrev pub as_option : {E A : Type 0} → Result E A → Option A
as_option (err e) = none
as_option (ok a) = some a

module _ {E : Type 0} where
  -- A chain that gives a value gives one at its first call and one behind it.
  pub bind-ok :
      {A B : Type 0} (m : Result E A) (f : A → Result E B) (b : B)
      → (m >>= f) ≡ ok b
      → (a : A) × (m ≡ ok a) × (f a ≡ ok b)
  bind-ok (err e) f b h = cc
  bind-ok (ok a) f b h = (a, refl, h)

  pub ok-injective : {A : Type 0} {a b : A} → ◌≡◌ {A = Result E A} (ok a) (ok b) → a ≡ b
  ok-injective h = cc

  pub err-not-ok : {A : Type 0} {e : E} {a : A} → ¬ (◌≡◌ {A = Result E A} (err e) (ok a))
  err-not-ok h = cc

  pub ok-not-err : {A : Type 0} {e : E} {a : A} → ¬ (◌≡◌ {A = Result E A} (ok a) (err e))
  ok-not-err h = cc

  pub then-ok :
      {B : Type 0} (m : Result E (Unit {0})) (n : Result E B) (b : B)
      → (m >> n) ≡ ok b
      → (m ≡ ok tt) × (n ≡ ok b)
  then-ok (err e) n b h = cc
  then-ok (ok u) n b h = (refl, h)

  pub guard-ok : (c : Bool) (e : E) → guard c e ≡ ok tt → c ≡ true
  guard-ok false e h = cc
  guard-ok true e h = refl

  pub guard-not-ok : (c : Bool) (e : E) → guard (not c) e ≡ ok tt → c ≡ false
  guard-not-ok false e h = refl
  guard-not-ok true e h = cc

  pub or_err-ok : {A : Type 0} (o : Option A) (e : E) (a : A) → or_err o e ≡ ok a → o ≡ some a
  or_err-ok none e a h = cc
  or_err-ok (some c) e a h = ap as_option h

  pub Result-cases :
      {A : Type 0} (m : Result E A) → ((e : E) × (m ≡ err e)) ⊎ ((a : A) × (m ≡ ok a))
  Result-cases (err e) = inl (e, refl)
  Result-cases (ok a) = inr (a, refl)
