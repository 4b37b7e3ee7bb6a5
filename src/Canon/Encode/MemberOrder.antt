-- ===== src/Canon/Encode/MemberOrder.antt =====
-- The canonical form does not depend on the order of the members.
use mathlib.Core.Path.{ap₂}
use intentproof_tools.Prelude.{
  true, false, String, ◌≡◌, ◌≢◌, refl, sym, ◌∙◌, ◌⊎◌, inl, inr, In, Distinct, Bool-cases,
}
use intentproof_tools.Prelude.Sorting.{insert_sorted, sort}
use intentproof_tools.Prelude.Sorting.Commute.{insert_sorted_swap}
use intentproof_tools.Canon.Json.{
  Json, array, object, Elements, no_elements, element, Members, no_members, member, member_keys,
}
use intentproof_tools.Canon.Utf16.{less_utf16}
use intentproof_tools.Canon.Utf16.Ordering.{less_utf16_asym, less_utf16_trans, less_utf16_total}
use intentproof_tools.Canon.Es6.{Floats}
use intentproof_tools.Canon.Encode.{
  Entry, entry_less, encode_object, encode_value, encode_elements, entries,
}

-- Two trees that differ in the order of the members of their objects, at any depth.
mutual
  pub data Reordered : Json → Json → Type 0 where
    same : {v : Json} → Reordered v v
    arrays : {vs ws : Elements} → ReorderedElements vs ws → Reordered (array vs) (array ws)
    objects :
        {ms ns : Members}
        → Distinct (member_keys ms)
        → ReorderedMembers ms ns
        → Reordered (object ms) (object ns)

  pub data ReorderedElements : Elements → Elements → Type 0 where
    no_items : ReorderedElements no_elements no_elements
    items :
        {v w : Json} {vs ws : Elements}
        → Reordered v w
        → ReorderedElements vs ws
        → ReorderedElements (element v vs) (element w ws)

  pub data ReorderedMembers : Members → Members → Type 0 where
    none_left : ReorderedMembers no_members no_members
    keep_member :
        {k : String} {v w : Json} {ms ns : Members}
        → Reordered v w
        → ReorderedMembers ms ns
        → ReorderedMembers (member k v ms) (member k w ns)
    exchange :
        {j k : String} {v w : Json} {ms : Members}
        → ReorderedMembers (member j v (member k w ms)) (member k w (member j v ms))
    followed_by :
        {ms ns os : Members}
        → ReorderedMembers ms ns
        → ReorderedMembers ns os
        → ReorderedMembers ms os

-- The keys stay.
keys_stay :
    {ms ns : Members}
    → ReorderedMembers ms ns
    → (k : String) → In k (member_keys ns)
    → In k (member_keys ms)
unfolding member_keys
keys_stay none_left k i = i
keys_stay (keep_member v r) k (inl e) = inl e
keys_stay (keep_member v r) k (inr i) = inr (keys_stay r k i)
keys_stay exchange k (inl e) = inr (inl e)
keys_stay exchange k (inr (inl e)) = inl e
keys_stay exchange k (inr (inr i)) = inr (inr i)
keys_stay (followed_by r s) k i = keys_stay r k (keys_stay s k i)

keys_stay-Distinct :
    {ms ns : Members}
    → ReorderedMembers ms ns
    → Distinct (member_keys ms)
    → Distinct (member_keys ns)
unfolding member_keys
keys_stay-Distinct none_left d = d
keys_stay-Distinct (keep_member v r) (n, d) = ((λ i. n (keys_stay r _ i)), keys_stay-Distinct r d)
keys_stay-Distinct exchange (n, (m, d)) =
    ((λ i. elim i [ inl e ↦ n (inl (sym e)) | inr j ↦ m j ]), ((λ i. n (inr i)), d))
keys_stay-Distinct (followed_by r s) d = keys_stay-Distinct s (keys_stay-Distinct r d)

entry_asym : (a b : Entry) → entry_less a b ≡ true → entry_less b a ≡ false
unfolding entry_less
entry_asym a b h = less_utf16_asym a.key b.key h

entry_trans :
    (a b c : Entry) → entry_less a b ≡ true → entry_less b c ≡ true → entry_less a c ≡ true
unfolding entry_less
entry_trans a b c h k = less_utf16_trans a.key b.key c.key h k

-- Of two different keys one is less.
entry_either : (a b : Entry) → a.key ≢ b.key → (entry_less a b ≡ true) ⊎ (entry_less b a ≡ true)
unfolding entry_less
entry_either a b n = elim (Bool-cases (less_utf16 a.key b.key)) [
  | inl e ↦ inl e
  | inr e ↦ elim (Bool-cases (less_utf16 b.key a.key)) [
    | inl f ↦ inr f
    | inr f ↦ absurd (n (less_utf16_total a.key b.key e f))
  ]
]

module _ (floats : Floats) where
  mutual
    unfolding encode_value encode_object sort member_keys

    value_same : {v w : Json} → Reordered v w → encode_value floats v ≡ encode_value floats w
    value_same same = refl
    value_same (arrays r) = rw (elements_same r) refl
    value_same (objects d r) = rw (members_same r d) refl

    elements_same :
        {vs ws : Elements}
        → ReorderedElements vs ws
        → encode_elements floats vs ≡ encode_elements floats ws
    elements_same no_items = refl
    elements_same (items v r) = rw (value_same v, elements_same r) refl

    members_same :
        {ms ns : Members}
        → ReorderedMembers ms ns
        → Distinct (member_keys ms)
        → sort entry_less (entries floats ms) ≡ sort entry_less (entries floats ns)
    members_same none_left d = refl
    members_same (keep_member {k = k} v r) (n, d) =
        ap₂ (λ e es. insert_sorted entry_less (record { key = k; encoded = e }) es) (value_same v)
          (members_same r d)
    members_same (exchange {j = j} {k = k} {v = v} {w = w} {ms = ms}) d =
        let a : Entry = record { key = j; encoded = encode_value floats v } in
        let b : Entry = record { key = k; encoded = encode_value floats w } in
        insert_sorted_swap entry_less entry_asym entry_trans a b
          (sort entry_less (entries floats ms)) (entry_either a b (λ e. d.0 (inl e)))
    members_same (followed_by r s) d = members_same r d ∙ members_same s (keys_stay-Distinct r d)

  -- The canonical form does not depend on the order in which the members of an object came, at any
  -- depth of the tree, if no key stands twice in a reordered object.
  pub encode_value-Reordered :
      (v w : Json) → Reordered v w → encode_value floats v ≡ encode_value floats w
  encode_value-Reordered v w r = value_same r
