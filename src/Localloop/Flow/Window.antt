-- ===== src/Localloop/Flow/Window.antt =====
-- The window of a flow (`FlowBoundsAndMode`, pkg/localloop/store_flows.go).
use intentproof_tools.Prelude.{
  ◌≡◌, ◌⊎◌, inl, inr, refl, sym, subst, ◌∙◌, List, [], ◌∷◌, In, Eq-String, if◌then◌else◌, Bool,
  true, false, arith,
}
use intentproof_tools.Prelude.Int.{ℤ, ◌≤ℤ◌}
use intentproof_tools.Verifier.Time.{before, after}
use intentproof_tools.Localloop.Types.{Row}
use intentproof_tools.Localloop.Flow.{Bounds, widen, flow_bounds}

-- The window covers a row.
abbrev pub Covers : Bounds → Row → Type 0
Covers b r = (b.started ≤ℤ r.event.started_at) × (r.event.completed_at ≤ℤ b.closed)

-- The window is no wider than the rows.
abbrev pub Within : Bounds → Bounds → Type 0
Within b c = (c.started ≤ℤ b.started) × (b.closed ≤ℤ c.closed)

widen-Covers :
    (b : Bounds) (rows : List Row)
    → Within b (widen b rows) × ((r : Row) → In r rows → Covers (widen b rows) r)
unfolding widen
widen-Covers b [] = (ground arith, (λ r i. elim i [ ]))
widen-Covers b (r ∷ rows) =
    let c : Bounds = record {
      started = if before r.event.started_at b.started then r.event.started_at else b.started;
      closed = if after r.event.completed_at b.closed then r.event.completed_at else b.closed;
    } in
    let (w, h) = widen-Covers c rows in
    (
      ground (arith, w),
      (λ s i. elim i [
        | inl e ↦ subst (Covers (widen c rows)) (sym e) (ground (arith, w))
        | inr j ↦ h s j
      ]),
    )

if_cases : (b : Bool) (x y : ℤ) → ((if b then x else y) ≡ x) ⊎ ((if b then x else y) ≡ y)
if_cases true x y = inl refl
if_cases false x y = inr refl

widen-reached :
    (b : Bounds) (rows : List Row)
    → (((widen b rows).started ≡ b.started)
        ⊎ ((s : Row) × In s rows × (s.event.started_at ≡ (widen b rows).started)))
      × (((widen b rows).closed ≡ b.closed)
          ⊎ ((s : Row) × In s rows × (s.event.completed_at ≡ (widen b rows).closed)))
unfolding widen
widen-reached b [] = (inl refl, inl refl)
widen-reached b (r ∷ rows) =
    let start = before r.event.started_at b.started in
    let end_ = after r.event.completed_at b.closed in
    let c : Bounds = record {
      started = if start then r.event.started_at else b.started;
      closed = if end_ then r.event.completed_at else b.closed;
    } in
    let (x, y) = widen-reached c rows in
    (
      elim x [
        | inl e ↦ elim (if_cases start r.event.started_at b.started) [
          | inl f ↦ inr (r, inl refl, sym (e ∙ f))
          | inr f ↦ inl (e ∙ f)
        ]
        | inr (s, i, e) ↦ inr (s, inr i, e)
      ],
      elim y [
        | inl e ↦ elim (if_cases end_ r.event.completed_at b.closed) [
          | inl f ↦ inr (r, inl refl, sym (e ∙ f))
          | inr f ↦ inl (e ∙ f)
        ]
        | inr (s, i, e) ↦ inr (s, inr i, e)
      ],
    )

-- The window of a flow with events is the least one that covers them: it opens when one of them starts
-- and none starts earlier, and closes when one of them completes and none completes later.
pub flow_bounds-least :
    (r : Row) (rows : List Row)
    → ((s : Row) → In s (r ∷ rows) → Covers (flow_bounds (r ∷ rows)) s)
      × ((s : Row) × In s (r ∷ rows) × (s.event.started_at ≡ (flow_bounds (r ∷ rows)).started))
      × ((s : Row) × In s (r ∷ rows) × (s.event.completed_at ≡ (flow_bounds (r ∷ rows)).closed))
unfolding flow_bounds
flow_bounds-least r rows =
    let b : Bounds = record { started = r.event.started_at; closed = r.event.completed_at } in
    let (w, h) = widen-Covers b rows in
    let (x, y) = widen-reached b rows in
    (
      (λ s i. elim i [ inl e ↦ subst (Covers (widen b rows)) (sym e) w | inr j ↦ h s j ]),
      elim x [ inl e ↦ (r, inl refl, sym e) | inr (s, i, e) ↦ (s, inr i, e) ],
      elim y [ inl e ↦ (r, inl refl, sym e) | inr (s, i, e) ↦ (s, inr i, e) ],
    )
