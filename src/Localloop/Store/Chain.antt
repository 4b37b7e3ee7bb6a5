-- ===== src/Localloop/Store/Chain.antt =====
-- The rows that `StoreEvent` (pkg/localloop/store_events.go) leaves behind form hash chains.
use text.Mathlib.TextEquality.{eq_iff}
use mathlib.Core.Bool.{false≢true}
use intentproof_tools.Prelude.{
  ◌+◌, ◌≤◌, ◌≡◌, ◌≢◌, ◌↔◌, ◌⊎◌, inl, inr, refl, sym, subst, ◌∙◌, List, [], ◌∷◌, ◌++◌, Bool, true,
  false, Eq-String, if◌then◌else◌, keep, any, any-false, any-false-of-all, In, In-keep, length, ok,
  guard-ok, Bool-cases, arith,
}
use intentproof_tools.Prelude.Int.{ℤ, pos}
use intentproof_tools.Merkle.{Bytes}
use intentproof_tools.Value.{eq_ℤ}
use intentproof_tools.Localloop.Types.{ExecutionEvent, Row}
use intentproof_tools.Localloop.Store.{
  sentinel, normalize_prev_event_hash, format_chain_hash, in_slot, slot, previous, check_previous,
  check_link, same_key, first_not_sentinel, prev_mismatch,
}

pub eq_ℤ_iff : (a b : ℤ) → (eq_ℤ a b ≡ true) ↔ (a ≡ b)
unfolding eq_ℤ
eq_ℤ_iff a b = ground arith

-- The row is of the event's chain and stands at a position.
abbrev pub At : ExecutionEvent → ℤ → Row → Type 0
At ev i row =
    (row.event.tenant_id ≡ ev.tenant_id)
    × (row.event.instance_id ≡ ev.instance_id)
    × (row.event.correlation_id ≡ ev.correlation_id)
    × (row.event.chain_position ≡ i)

pub in_slot-At : (ev : ExecutionEvent) (i : ℤ) (row : Row) → (in_slot ev i row ≡ true) ↔ At ev i row
unfolding in_slot
in_slot-At ev i row = ground (
  arith,
  eq_iff row.event.tenant_id ev.tenant_id,
  eq_iff row.event.instance_id ev.instance_id,
  eq_iff row.event.correlation_id ev.correlation_id,
  eq_ℤ_iff row.event.chain_position i,
)

-- The event starts its chain, or names the hash of a row at the position before its own.
abbrev pub Linked : List Row → ExecutionEvent → Type 0
Linked rows ev =
    ((ev.chain_position ≡ pos 1) × (normalize_prev_event_hash ev.prev_event_hash ≡ sentinel))
    ⊎ ((ev.chain_position ≢ pos 1)
        × (p : Row) × In p rows
        × At ev (previous ev) p
        × (normalize_prev_event_hash ev.prev_event_hash ≡ format_chain_hash p.event_hash))

not_first :
    (ev : ExecutionEvent) → eq_ℤ ev.chain_position (pos 1) ≡ false → ev.chain_position ≢ pos 1
not_first ev e q = absurd (false≢true (sym e ∙ (eq_ℤ_iff ev.chain_position (pos 1)).1 q))

check_previous-ok :
    (ev : ExecutionEvent) (rows : List Row)
    → check_previous ev rows ≡ ok tt
    → (p : Row) × In p rows
      × (normalize_prev_event_hash ev.prev_event_hash ≡ format_chain_hash p.event_hash)
unfolding check_previous
check_previous-ok ev [] h = cc
check_previous-ok ev (p ∷ []) h =
    (p, inl refl, (eq_iff _ (format_chain_hash p.event_hash)).0 (guard-ok _ prev_mismatch h))
check_previous-ok ev (p ∷ q ∷ rows) h = cc

pub check_link-Linked :
    (rows : List Row) (ev : ExecutionEvent) → check_link rows ev ≡ ok tt → Linked rows ev
unfolding check_link
check_link-Linked rows ev h = elim (Bool-cases (eq_ℤ ev.chain_position (pos 1))) [
  | inl e ↦ inl (
    (eq_ℤ_iff ev.chain_position (pos 1)).0 e,
    (eq_iff _ sentinel).0 (guard-ok _ first_not_sentinel (rw e at h)),
  )
  | inr e ↦
      let (p, i, n) = check_previous-ok ev (slot rows ev (previous ev)) (rw e at h) in
      let (j, s) = (In-keep (in_slot ev (previous ev)) rows p).0 i in
      inr (not_first ev e, p, j, (in_slot-At ev (previous ev) p).0 s, n)
]

In-append : {A : Type 0} (a : A) (xs ys : List A) → In a xs → In a (xs ++ ys)
In-append a [] ys i = elim i [ ]
In-append a (x ∷ xs) ys (inl e) = inl e
In-append a (x ∷ xs) ys (inr i) = inr (In-append a xs ys i)

In-snoc : {A : Type 0} (a x : A) (xs : List A) → In a (xs ++ x ∷ []) → In a xs ⊎ (a ≡ x)
In-snoc a x [] (inl e) = inr e
In-snoc a x [] (inr i) = elim i [ ]
In-snoc a x (y ∷ xs) (inl e) = inl (inl e)
In-snoc a x (y ∷ xs) (inr i) = elim (In-snoc a x xs i) [ inl j ↦ inl (inr j) | inr e ↦ inr e ]

length-keep-snoc :
    {A : Type 0} (p : A → Bool) (xs : List A) (x : A)
    → length (keep p (xs ++ x ∷ [])) ≡ length (keep p xs) + (if p x then 1 else 0)
length-keep-snoc p [] x = ground arith
length-keep-snoc p (y ∷ xs) x = ground (arith, length-keep-snoc p xs x)

keep-none : {A : Type 0} (p : A → Bool) (xs : List A) → any p xs ≡ false → length (keep p xs) ≡ 0
keep-none p [] h = refl
keep-none p (x ∷ xs) h = ground (arith, keep-none p xs)

pub same_key_iff :
    (ev : ExecutionEvent) (row : Row)
    → (same_key ev row ≡ true)
      ↔ ((row.event.tenant_id ≡ ev.tenant_id) × (row.event.event_id ≡ ev.event_id))
unfolding same_key
same_key_iff ev row =
    ground (arith, eq_iff row.event.tenant_id ev.tenant_id, eq_iff row.event.event_id ev.event_id)

-- A test that only rows with the key of the new one pass finds no old row.
none_of_class :
    (p q : Row → Bool) (rows : List Row)
    → any q rows ≡ false
    → ((row : Row) → p row ≡ true → q row ≡ true)
    → any p rows ≡ false
none_of_class p q rows e h = any-false-of-all p rows (λ row i. elim (Bool-cases (p row)) [
  | inl t ↦ absurd (false≢true (sym (any-false q rows row e i) ∙ h row t))
  | inr f ↦ f
])

-- Every row is linked to its chain, and no two rows have one slot or one key.
pub record WellFormed (rows : List Row) : Type 0 where
  pub linked : (s : Row) → In s rows → Linked rows s.event
  pub one_per_slot : (ev : ExecutionEvent) (i : ℤ) → length (slot rows ev i) ≤ 1
  pub one_per_key : (ev : ExecutionEvent) → length (keep (same_key ev) rows) ≤ 1

abbrev pub row_of : ExecutionEvent → Bytes → Row
row_of ev hash = record { event = ev; event_hash = hash }

Linked-append :
    (rows more : List Row) (ev : ExecutionEvent) → Linked rows ev → Linked (rows ++ more) ev
Linked-append rows more ev (inl e) = inl e
Linked-append rows more ev (inr (m, p, i, a, n)) = inr (m, p, In-append p rows more i, a, n)

module _ (rows : List Row) (ev : ExecutionEvent) (hash : Bytes) where
  At-new :
      (e : ExecutionEvent) (i : ℤ) (row : Row)
      → At e i (row_of ev hash)
      → At e i row
      → At ev ev.chain_position row
  At-new e i row (t, n, c, p) (t', n', c', p') = (t' ∙ sym t, n' ∙ sym n, c' ∙ sym c, p' ∙ sym p)

  one_more :
      (p : Row → Bool)
      → length (keep p rows) ≤ 1
      → (p (row_of ev hash) ≡ true → any p rows ≡ false)
      → length (keep p (rows ++ row_of ev hash ∷ [])) ≤ 1
  one_more p h f = elim (Bool-cases (p (row_of ev hash))) [
    | inl e ↦ ground (arith, length-keep-snoc p rows (row_of ev hash), keep-none p rows (f e))
    | inr e ↦ ground (arith, length-keep-snoc p rows (row_of ev hash))
  ]

  pub appended-WellFormed :
      WellFormed rows
      → Linked rows ev
      → any (same_key ev) rows ≡ false
      → any (in_slot ev ev.chain_position) rows ≡ false
      → WellFormed (rows ++ row_of ev hash ∷ [])
  appended-WellFormed w l k s = record {
    linked = λ r i. elim (In-snoc r (row_of ev hash) rows i) [
      | inl j ↦ Linked-append rows _ r.event (w.linked r j)
      | inr e ↦
          subst (λ (x : Row). Linked (rows ++ row_of ev hash ∷ []) x.event) (sym e)
            (Linked-append rows _ ev l)
    ];
    one_per_slot = λ e i. one_more (in_slot e i) (w.one_per_slot e i) (λ t.
        none_of_class (in_slot e i) (in_slot ev ev.chain_position) rows s (λ row u.
          (in_slot-At ev ev.chain_position row).1
            (At-new e i row ((in_slot-At e i (row_of ev hash)).0 t) ((in_slot-At e i row).0 u))));
    one_per_key = λ e. one_more (same_key e) (w.one_per_key e) (λ t.
        none_of_class (same_key e) (same_key ev) rows k (λ row u.
          let (a, b) = (same_key_iff e (row_of ev hash)).0 t in
          let (c, d) = (same_key_iff e row).0 u in (same_key_iff ev row).1 (c ∙ sym a, d ∙ sym b)));
  }
