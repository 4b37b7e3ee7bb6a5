-- ===== src/Localloop/Store/Reachable.antt =====
-- What every sequence of calls of `StoreEvent` (pkg/localloop/store_events.go) leaves in the store.
use text.Mathlib.TextEquality.{eq_iff}
use intentproof_tools.Prelude.{
  ℕ, zero, suc, ◌≤◌, ◌≡◌, ◌⊎◌, inl, inr, refl, sym, ap, subst, ◌∙◌, List, [], ◌∷◌, Bool, false,
  Eq-String, any, any-of-In, In, In-keep, length, ok, then-ok, ok-injective, Bool-cases, nat_eq,
  nat_eq_iff, ◌≢◌, arith,
}
use intentproof_tools.Prelude.Int.{ℤ, pos, pos_part, ◌-ℤ◌}
use intentproof_tools.Merkle.{Bytes}
use intentproof_tools.Value.{eq_ℤ}
use intentproof_tools.Localloop.Types.{ExecutionEvent, Row}
use intentproof_tools.Localloop.Store.{
  in_slot, slot, previous, check_previous, check_occupants, check_link, check_chain, same_key,
  insert_row, store_event,
}
use intentproof_tools.Localloop.Store.Chain.{
  At, in_slot-At, Linked, check_link-Linked, same_key_iff, WellFormed, appended-WellFormed,
  eq_ℤ_iff,
}

insert_row-WellFormed :
    (rows rows' : List Row) (ev : ExecutionEvent) (hash : Bytes) (b : Bool)
    → WellFormed rows
    → Linked rows ev
    → insert_row rows ev hash ≡ ok (rows', b)
    → WellFormed rows'
unfolding insert_row
insert_row-WellFormed rows rows' ev hash b w l h = elim (Bool-cases (any (same_key ev) rows)) [
  | inl e ↦ subst WellFormed (ap (λ p. p.0) (ok-injective (rw e at h))) w
  | inr e ↦ elim (Bool-cases (any (in_slot ev ev.chain_position) rows)) [
    | inl e₁ ↦ cc (rw (e, e₁) at h)
    | inr e₁ ↦
        subst WellFormed (ap (λ p. p.0) (ok-injective (rw (e, e₁) at h)))
          (appended-WellFormed rows ev hash w l e e₁)
  ]
]

store_event-WellFormed :
    (rows rows' : List Row) (ev : ExecutionEvent) (hash : Bytes) (b : Bool)
    → WellFormed rows
    → store_event rows ev hash ≡ ok (rows', b)
    → WellFormed rows'
unfolding store_event check_chain
store_event-WellFormed rows rows' ev hash b w h =
    let (c, i) = then-ok (check_chain rows ev) _ (rows', b) h in
    let (l, o) = then-ok (check_link rows ev) _ tt c in
    insert_row-WellFormed rows rows' ev hash b w (check_link-Linked rows ev l) i

-- The stores that calls of `StoreEvent` make of the empty one. A call that fails changes nothing.
pub data Reachable : List Row → Type 0 where
  empty : Reachable []
  stored :
      {rows rows' : List Row} (ev : ExecutionEvent) (hash : Bytes) (b : Bool)
      → Reachable rows
      → store_event rows ev hash ≡ ok (rows', b)
      → Reachable rows'

-- In every reachable store each event starts its chain with the sentinel or names the hash of an event
-- at the position before its own, no slot of a chain is taken twice, and no event is stored twice.
pub Reachable-WellFormed : {rows : List Row} → Reachable rows → WellFormed rows
Reachable-WellFormed empty = record {
  linked = λ s i. elim i [ ];
  one_per_slot = λ ev i. omega arith;
  one_per_key = λ ev. omega arith;
}
Reachable-WellFormed (stored {rows} {rows'} ev hash b r h) =
    store_event-WellFormed rows rows' ev hash b (Reachable-WellFormed r) h

previous_lem :
    (ev : ExecutionEvent) (n : ℕ)
    → ev.chain_position ≡ pos (suc (suc n))
    → previous ev ≡ pos (suc n)
unfolding ◌-ℤ◌
previous_lem ev n e = rw e (ground arith)

le_cases : (k m : ℕ) → k ≤ suc m → (k ≡ suc m) ⊎ (k ≤ m)
le_cases k m h = elim (Bool-cases (nat_eq k (suc m))) [
  | inl e ↦ inl ((nat_eq_iff k (suc m)).0 e)
  | inr e ↦ inr (ground arith)
]

one-apart : (m : ℕ) → pos (suc (suc m)) ≢ pos 1
one-apart m e = let q : suc (suc m) ≡ 1 = ap pos_part e in omega (arith, q)

At-self : (s : Row) (i : ℤ) → s.event.chain_position ≡ i → At s.event i s
At-self s i e = (refl, refl, refl, e)

At-chain : (s t p : Row) (i j : ℤ) → At s.event i t → At t.event j p → At s.event j p
At-chain s t p i j (a, b, c, d) (a', b', c', d') = (a' ∙ a, b' ∙ b, c' ∙ c, d')

-- Below an event at position n of a reachable store its chain is complete: every position from 1 to n
-- is taken by an event of that chain.
pub chain_complete :
    {rows : List Row} (r : Reachable rows) (n k : ℕ) (s : Row)
    → In s rows
    → s.event.chain_position ≡ pos (suc n)
    → k ≤ n
    → (p : Row) × In p rows × At s.event (pos (suc k)) p
chain_complete r zero k s i e h = (s, i, At-self s _ (e ∙ ap (λ m. pos (suc m)) (ground arith)))
chain_complete {rows} r (suc m) k s i e h = elim (le_cases k m h) [
  | inl q ↦ (s, i, At-self s _ (e ∙ ap (λ j. pos (suc j)) (sym q)))
  | inr l ↦ elim ((Reachable-WellFormed r).linked s i) [
    | inl (first, hash) ↦ absurd (one-apart m (sym e ∙ first))
    | inr (first, p, j, a, hash) ↦
        let (_, _, _, d) = a in
        let (q, v, b) = chain_complete r m k p j (d ∙ previous_lem s.event m e) l in
        (q, v, At-chain s p q (previous s.event) (pos (suc k)) a b)
  ]
]

two-above : {A : Type 0} (xs : List A) → ¬ (suc (suc (length xs)) ≤ 1)
two-above xs = omega arith

-- A list of at most one item that has an item is that item alone.
only : {A : Type 0} (a : A) (xs : List A) → In a xs → length xs ≤ 1 → xs ≡ a ∷ []
only a [] i h = elim i [ ]
only a (x ∷ []) (inl e) h = ap (λ y. y ∷ []) (sym e)
only a (x ∷ []) (inr i) h = elim i [ ]
only a (x ∷ y ∷ xs) i h = absurd (two-above xs h)

is_false : (i : ℤ) → i ≢ pos 1 → eq_ℤ i (pos 1) ≡ false
is_false i n = elim (Bool-cases (eq_ℤ i (pos 1))) [
  | inl e ↦ absurd (n ((eq_ℤ_iff i (pos 1)).0 e))
  | inr e ↦ e
]

check_link-ok :
    (rows : List Row) (ev : ExecutionEvent)
    → WellFormed rows
    → Linked rows ev
    → check_link rows ev ≡ ok tt
unfolding check_link check_previous
check_link-ok rows ev w (inl (e, n)) = rw ((eq_ℤ_iff _ _).1 e, (eq_iff _ _).1 n) refl
check_link-ok rows ev w (inr (m, p, i, a, n)) =
    let found =
      (In-keep (in_slot ev (previous ev)) rows p).1 (i, (in_slot-At ev (previous ev) p).1 a) in
    let alone = only p (slot rows ev (previous ev)) found (w.one_per_slot ev (previous ev)) in
    rw (is_false _ m, alone, (eq_iff _ _).1 n) refl

-- Storing an event of a reachable store again, with any hash, is accepted and changes nothing.
pub store_event_again :
    {rows : List Row} (r : Reachable rows) (s : Row) (hash : Bytes)
    → In s rows
    → store_event rows s.event hash ≡ ok (rows, false)
unfolding store_event check_chain check_occupants insert_row
store_event_again {rows} r s hash i =
    let ev = s.event in
    let w = Reachable-WellFormed r in
    let found =
      (In-keep (in_slot ev ev.chain_position) rows s).1
        (i, (in_slot-At ev ev.chain_position s).1 (At-self s ev.chain_position refl)) in
    let alone =
      only s (slot rows ev ev.chain_position) found (w.one_per_slot ev ev.chain_position) in
    let stored = any-of-In (same_key ev) rows s i ((same_key_iff ev s).1 (refl, refl)) in
    rw
      (
        check_link-ok rows ev w (w.linked s i),
        alone,
        (eq_iff ev.event_id ev.event_id).1 refl,
        stored,
      )
      refl

-- An event whose id another event of its tenant has already, of whatever chain and content, is never
-- stored: a call that succeeds changes nothing, and tells that no row went in.
pub store_event_id_taken :
    (rows rows' : List Row) (ev : ExecutionEvent) (hash : Bytes) (b : Bool) (s : Row)
    → In s rows
    → s.event.tenant_id ≡ ev.tenant_id
    → s.event.event_id ≡ ev.event_id
    → store_event rows ev hash ≡ ok (rows', b)
    → (rows' ≡ rows) × (b ≡ false)
unfolding store_event insert_row
store_event_id_taken rows rows' ev hash b s i t e h =
    let (c, k) = then-ok (check_chain rows ev) _ (rows', b) h in
    let taken = any-of-In (same_key ev) rows s i ((same_key_iff ev s).1 (t, e)) in
    let same = ok-injective (rw taken at k) in (sym (ap (λ p. p.0) same), sym (ap (λ p. p.1) same))
