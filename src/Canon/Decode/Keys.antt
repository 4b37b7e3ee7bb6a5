-- ===== src/Canon/Decode/Keys.antt =====
-- The keys of an object under construction.
use intentproof_tools.Prelude.{
  false, ◌||◌, String, ◌==◌, Eq-String, ◌≡◌, refl, ap, In, Distinct, inl, inr, arith, eq-false,
  subst, sym,
}
use text.Mathlib.TextEquality.{eq_iff}
use intentproof_tools.Canon.Json.{
  Json, Members, no_members, member, member_keys, has_key, add_member,
}

-- Members behind members.
abbrev pub append_members : Members → Members → Members
append_members no_members ms = ms
append_members (member k v obj) ms = member k v (append_members obj ms)

pub append-no_members : (obj : Members) → append_members obj no_members ≡ obj
append-no_members no_members = refl
append-no_members (member k v obj) = ap (member k v) (append-no_members obj)

pub append-add_member :
    (obj : Members) (k : String) (v : Json) (ms : Members)
    → append_members (add_member obj k v) ms ≡ append_members obj (member k v ms)
unfolding add_member
append-add_member no_members k v ms = refl
append-add_member (member j w obj) k v ms = ap (member j w) (append-add_member obj k v ms)

pub has_key-add_member :
    (obj : Members) (j k : String) (v : Json)
    → has_key j (add_member obj k v) ≡ (has_key j obj || k == j)
unfolding has_key add_member
has_key-add_member no_members j k v = ground (arith, eq_iff k j)
has_key-add_member (member i w obj) j k v = ground (arith, has_key-add_member obj j k v)

-- None of the keys stands in the object, and none stands twice.
abbrev pub Fresh : Members → Members → Type 0
Fresh obj ms =
    ((k : String) → In k (member_keys ms) → has_key k obj ≡ false) × Distinct (member_keys ms)

pub Fresh-add_member :
    (obj : Members) (k : String) (v : Json) (ms : Members)
    → Fresh obj (member k v ms)
    → (has_key k obj ≡ false) × Fresh (add_member obj k v) ms
unfolding member_keys
Fresh-add_member obj k v ms (h, (n, d)) = (
  h k (inl refl),
  (
    λ j i.
        let e = h j (inr i) in
        let q = eq-false k j (λ p. n (subst (λ x. In x (member_keys ms)) (sym p) i)) in
        rw (has_key-add_member obj j k v, e, q) refl,
    d,
  ),
)
