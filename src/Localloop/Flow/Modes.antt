-- ===== src/Localloop/Flow/Modes.antt =====
-- The mode of a flow (pkg/localloop/store_flow_mode.go).
use text.Mathlib.TextEquality.{eq_iff}
use intentproof_tools.Prelude.{
  ℕ, suc, ◌≤◌, ◌≡◌, ◌⊎◌, inl, inr, refl, sym, ap, subst, ◌∙◌, String, List, [], ◌∷◌, In, ltb,
  Eq-String, Bool-cases, true, false, arith,
}
use intentproof_tools.Localloop.Flow.{mode_rank, min_mode, known_or_default, reduce_flow_mode}

below : {m n : ℕ} → ltb m n ≡ true → suc m ≤ n
below {m} {n} h = ground arith

not_below : {m n : ℕ} → ltb m n ≡ false → n ≤ m
not_below {m} {n} h = ground arith

-- One of some modes, whose rank is lowest among them.
abbrev pub IsLeast : String → List String → Type 0
IsLeast r modes = In r modes × ((m : String) → In m modes → mode_rank r ≤ mode_rank m)

min_mode-IsLeast :
    (least : String) (modes : List String) → IsLeast (min_mode least modes) (least ∷ modes)
unfolding min_mode
min_mode-IsLeast least [] =
    (inl refl, (λ m i. elim i [ inl h ↦ omega (arith, ap mode_rank h) | inr j ↦ elim j [ ] ]))
min_mode-IsLeast least (x ∷ modes) = elim (Bool-cases (ltb (mode_rank x) (mode_rank least))) [
  | inl e ↦
      let (r, q) = min_mode-IsLeast x modes in
      let s : min_mode least (x ∷ modes) ≡ min_mode x modes = rw e refl in
      subst (λ y. IsLeast y (least ∷ x ∷ modes)) (sym s)
        (
          inr r,
          (λ m i. elim i [
            | inl h ↦ omega (arith, q x (inl refl), ap mode_rank h, below e)
            | inr k ↦ q m k
          ]),
        )
  | inr e ↦
      let (r, q) = min_mode-IsLeast least modes in
      let s : min_mode least (x ∷ modes) ≡ min_mode least modes = rw e refl in
      subst (λ y. IsLeast y (least ∷ x ∷ modes)) (sym s)
        (
          elim r [ inl h ↦ inl h | inr k ↦ inr (inr k) ],
          (λ m i. elim i [
            | inl h ↦ q m (inl h)
            | inr k ↦ elim k [
              | inl h ↦ omega (arith, q least (inl refl), ap mode_rank h, not_below e)
              | inr l ↦ q m (inr l)
            ]
          ]),
        )
]

-- A mode is known, or ranks as operational.
known_cases :
    (m : String)
    → (known_or_default m ≡ m) ⊎ ((known_or_default m ≡ "operational") × (mode_rank m ≡ 1))
unfolding mode_rank known_or_default
known_cases m = ground (arith, eq_iff m "minimal", eq_iff m "operational", eq_iff m "full")

mode_rank-known : (m : String) → mode_rank (known_or_default m) ≡ mode_rank m
unfolding mode_rank
mode_rank-known m = elim (known_cases m) [
  | inl e ↦ ap mode_rank e
  | inr (e, r) ↦ ap mode_rank e ∙ sym r
]

known-mode :
    (m : String)
    → (known_or_default m ≡ "minimal")
      ⊎ (known_or_default m ≡ "operational")
      ⊎ (known_or_default m ≡ "full")
unfolding known_or_default
known-mode m = ground (arith, eq_iff m "minimal", eq_iff m "operational", eq_iff m "full")

-- The mode of a flow with events is minimal, operational or full. It ranks as low as every mode of
-- its events, an unknown mode counting as operational, and as one of them.
pub reduce_flow_mode-least :
    (m : String) (modes : List String)
    → ((reduce_flow_mode (m ∷ modes) ≡ "minimal")
        ⊎ (reduce_flow_mode (m ∷ modes) ≡ "operational")
        ⊎ (reduce_flow_mode (m ∷ modes) ≡ "full"))
      × ((x : String) → In x (m ∷ modes) → mode_rank (reduce_flow_mode (m ∷ modes)) ≤ mode_rank x)
      × ((x : String) × In x (m ∷ modes) × (mode_rank x ≡ mode_rank (reduce_flow_mode (m ∷ modes))))
unfolding reduce_flow_mode
reduce_flow_mode-least m modes =
    let (r, q) = min_mode-IsLeast m modes in
    let k = mode_rank-known (min_mode m modes) in
    (known-mode (min_mode m modes), (λ x i. omega (arith, q x i, k)), (min_mode m modes, r, sym k))
