-- ===== src/Policysig/Keys.antt =====
-- When a signing key resolves, and what a normalized status is.
use text.Mathlib.TextEquality.{eq_iff}
use intentproof_tools.Prelude.{
  String, ◌≡◌, ◌≢◌, ◌↔◌, ◌⊎◌, inl, inr, false, refl, Option, none, some, Eq-String, trim_space,
  to_lower, arith,
}
use intentproof_tools.Prelude.Int.{◌≤ℤ◌}
use intentproof_tools.Verifier.Time.{Time}
use intentproof_tools.Policysig.{
  KeyStatus, normalize_key_status, is_usable, KeyRecord, key_not_active, key_not_usable,
  is_deactivated, resolve_key_at,
}

-- Strictly before the deactivation, where there is one.
abbrev pub IsBefore : Time → Option Time → Type 0
IsBefore t none = Unit
IsBefore t (some d) = ¬ (d ≤ℤ t)

-- From the activation on, and before the deactivation.
abbrev pub InWindow : KeyRecord → Time → Type 0
InWindow k t = (k.activated_at ≤ℤ t) × IsBefore t k.deactivated_at

is_deactivated_iff : (o : Option Time) (t : Time) → (is_deactivated o t ≡ false) ↔ IsBefore t o
unfolding is_deactivated
is_deactivated_iff none t = ground arith
is_deactivated_iff (some d) t = ground arith

-- A key resolves just if its status is active and the moment lies in its window. A status other than active
-- is reported as not usable at every moment, also outside of the window, and a moment outside of the window
-- as not active only for a key whose status is active.
pub resolve_key_at_decides :
    (k : KeyRecord) (t : Time)
    → ((resolve_key_at (some k) t ≡ none) ↔ ((k.status ≡ "active") × InWindow k t))
      × ((resolve_key_at (some k) t ≡ some key_not_usable) ↔ (k.status ≢ "active"))
      × ((resolve_key_at (some k) t ≡ some key_not_active)
          ↔ ((k.status ≡ "active") × (¬ InWindow k t)))
unfolding resolve_key_at is_usable
resolve_key_at_decides k t =
    let o = is_deactivated_iff k.deactivated_at t in ground (arith, eq_iff k.status "active")

normalize-active :
    (raw s : String)
    → normalize_key_status raw ≡ some s
    → (s ≡ "active") ↔ ((to_lower (trim_space raw) ≡ "") ⊎ (to_lower (trim_space raw) ≡ "active"))
unfolding normalize_key_status
normalize-active raw s h =
    let t = to_lower (trim_space raw) in
    ground (
      arith,
      eq_iff t "",
      eq_iff t "active",
      eq_iff s "active",
      eq_iff "active" t,
      eq_iff "inactive" t,
      eq_iff "revoked" t,
    )

abbrev Canonical : KeyStatus → Type 0
Canonical s = (s ≡ "active") ⊎ (s ≡ "inactive") ⊎ (s ≡ "revoked")

normalize-Canonical : (raw s : String) → normalize_key_status raw ≡ some s → Canonical s
unfolding normalize_key_status
normalize-Canonical raw s h =
    let t = to_lower (trim_space raw) in
    ground (arith, eq_iff t "", eq_iff "active" t, eq_iff "inactive" t, eq_iff "revoked" t)

Canonical-normal : (s : KeyStatus) → Canonical s → normalize_key_status s ≡ some s
unfolding normalize_key_status trim_space to_lower
Canonical-normal s (inl e) = rw e refl
Canonical-normal s (inr (inl e)) = rw e refl
Canonical-normal s (inr (inr e)) = rw e refl

-- A status that is accepted is one of the three, and is its own normal form. It is active just if the
-- raw text is blank or spells that word, whatever its case.
pub normalize_key_status_decides :
    (raw s : String)
    → normalize_key_status raw ≡ some s
    → ((s ≡ "active") ⊎ (s ≡ "inactive") ⊎ (s ≡ "revoked"))
      × (normalize_key_status s ≡ some s)
      × ((s ≡ "active")
          ↔ ((to_lower (trim_space raw) ≡ "") ⊎ (to_lower (trim_space raw) ≡ "active")))
normalize_key_status_decides raw s h =
    let c = normalize-Canonical raw s h in (c, Canonical-normal s c, normalize-active raw s h)
