-- ===== src/Verifier/Verify/IdOrder.antt =====
-- The attestation set of a run (pkg/verifier/verify.go and `computeMerkleRoot` of helpers.go).
use intentproof_tools.Prelude.{◌≡◌, ap, List, map}
use mathlib.Core.Logic.{∥∥₁_map}
use mathlib.Core.List.{Perm, Permᴰ}
use intentproof_tools.Prelude.Bytes.{bytes}
use intentproof_tools.Prelude.Sorting.Order.{sort_strings-perm}
use intentproof_tools.Merkle.{root_hex}
use intentproof_tools.Verifier.Types.{Attestation}
use intentproof_tools.Verifier.Attestations.{attestation_ids}
use intentproof_tools.Verifier.Verify.{Env, attestation_set}

map-permᴰ : {A B : Type 0} (f : A → B) {xs ys : List A} → Permᴰ xs ys → Permᴰ (map f xs) (map f ys)
map-permᴰ f Permᴰ.nil = Permᴰ.nil
map-permᴰ f (Permᴰ.cons p q) = Permᴰ.cons (ap f p) (map-permᴰ f q)
map-permᴰ f (Permᴰ.swap p q) = Permᴰ.swap (ap f p) (ap f q)
map-permᴰ f (Permᴰ.trans p q) = Permᴰ.trans (map-permᴰ f p) (map-permᴰ f q)

map-perm : {A B : Type 0} (f : A → B) {xs ys : List A} → Perm xs ys → Perm (map f xs) (map f ys)
map-perm f {xs} {ys} p = ∥∥₁_map {B = Permᴰ (map f xs) (map f ys)} p (map-permᴰ f)

-- The ids and the Merkle root that a run reports do not depend on the order in which the attestations
-- came.
pub attestation_set-perm :
    (env : Env) (xs ys : List Attestation)
    → Perm xs ys
    → attestation_set env (attestation_ids xs) ≡ attestation_set env (attestation_ids ys)
unfolding attestation_set attestation_ids
attestation_set-perm env xs ys p =
    ap (λ ids. record { ids = ids; merkle_root = root_hex env.sha256 (map bytes ids) })
      (sort_strings-perm (map (λ a. a.attestation_id) xs) (map (λ a. a.attestation_id) ys)
        (map-perm (λ a. a.attestation_id) p))
