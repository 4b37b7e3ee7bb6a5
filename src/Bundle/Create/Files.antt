-- ===== src/Bundle/Create/Files.antt =====
-- What the loop of readFromTar leaves of the files that it reads.
use mathlib.Core.Bool.{false≢true}
use text.Mathlib.TextEquality.{eq_iff}
use intentproof_tools.Prelude.{
  Bool, true, false, not, ◌&&◌, ◌||◌, any, any-false, any-true, List, [], ◌∷◌, map, In, ◌≡◌, refl,
  sym, ap, subst, ◌∙◌, inl, inr, String, Option, some, ◌==◌, Eq-String, if◌then◌else◌, ok, bind-ok,
  ok-injective, Bool-cases, arith, eq-true, eq-false, ne-of-eq-false,
}
use intentproof_tools.Merkle.{Bytes}
use intentproof_tools.Value.{Fields}
use intentproof_tools.Bundle.{Bundle, Manifest, lookup}
use intentproof_tools.Bundle.Read.{
  Decoders, TarEntry, file, put, parse_jsonl, read_key, read_file, read_entry, read_entries,
}

or_false : (b c : Bool) → (b || c) ≡ false → (b ≡ false) × (c ≡ false)
or_false b c h = ground arith

-- No name stands with two bodies, as in a map of Go.
abbrev pub Functional : List (String × Bytes) → Type 0
Functional fs = (k : String) (v w : Bytes) → In (k, v) fs → In (k, w) fs → v ≡ w

-- No name twice.
unfoldable pub no_repeat : List (String × Bytes) → Bool
no_repeat [] = true
no_repeat (f ∷ fs) = not (any (λ g. g.0 == f.0) fs) && no_repeat fs

not_and : (b c : Bool) → not b && c ≡ true → (b ≡ false) × (c ≡ true)
not_and b c h = ground arith

repeated :
    (f g : String × Bytes) (fs : List (String × Bytes))
    → no_repeat (f ∷ fs) ≡ true
    → In g fs
    → g.0 ≡ f.0
    → ⊥
unfolding no_repeat
repeated f g fs h i e =
    let (n, k) = not_and (any (λ g. g.0 == f.0) fs) (no_repeat fs) h in
    false≢true (sym (any-false (λ g. g.0 == f.0) fs g n i) ∙ eq-true g.0 f.0 e)

pub no_repeat-Functional : (fs : List (String × Bytes)) → no_repeat fs ≡ true → Functional fs
unfolding no_repeat
no_repeat-Functional [] h k v w i j = elim i [ ]
no_repeat-Functional (f ∷ fs) h k v w (inl p) (inl q) = ap (λ g. g.1) (p ∙ sym q)
no_repeat-Functional (f ∷ fs) h k v w (inl p) (inr j) =
    absurd (repeated f (k, w) fs h j (ap (λ g. g.0) p))
no_repeat-Functional (f ∷ fs) h k v w (inr i) (inl q) =
    absurd (repeated f (k, v) fs h i (ap (λ g. g.0) q))
no_repeat-Functional (f ∷ fs) h k v w (inr i) (inr j) =
    let (n, t) = not_and (any (λ g. g.0 == f.0) fs) (no_repeat fs) h in
    no_repeat-Functional fs t k v w i j

abbrev pub as_entry : String × Bytes → TarEntry
as_entry f = file f.0 f.1

pub lookup-put :
    {A : Type 0} (j k : String) (a : A) (m : List (String × A))
    → lookup k (put j a m) ≡ (if j == k then some a else lookup k m)
unfolding lookup put
lookup-put j k a [] = ground arith
lookup-put j k a ((i, b) ∷ m) =
    ground (arith, eq_iff i j, eq_iff i k, eq_iff j k, lookup-put j k a m)

-- A name that is one text is not another.
other : (s t name : String) → (s == t) ≡ false → (name == s) ≡ true → (name == t) ≡ false
other s t name h e = eq-false name t (λ q. ne-of-eq-false s t h (sym ((eq_iff name s).0 e) ∙ q))

module _ (decoders : Decoders) where
  -- One entry sets what is seen of the bundle under one name, and no other name changes it.
  abbrev pub Sees : (X : Type 0) → (Bundle → X) → String → (Bytes → X) → Type 0
  Sees X seen key from =
      (name : String) (body : Bytes) (b c : Bundle)
      → read_entry decoders (file name body) b ≡ ok c
      → seen c ≡ (if name == key then from body else seen b)

  module _ (X : Type 0) (seen : Bundle → X) (key : String) (from : Bytes → X)
      (sees : Sees X seen key from) where
    abbrev named : String × Bytes → Bool
    named f = f.0 == key

    absent :
        (fs : List (String × Bytes)) (b c : Bundle)
        → read_entries decoders (map as_entry fs) b ≡ ok c
        → any named fs ≡ false
        → seen c ≡ seen b
    unfolding read_entries
    absent [] b c h n = ap seen (sym (ok-injective h))
    absent ((k, v) ∷ fs) b c h n =
        let (e, m) = or_false (k == key) (any named fs) n in
        let (d, q, g) = bind-ok (read_entry decoders (file k v) b) _ c h in
        absent fs d c g m ∙ sees k v b d q ∙ rw e refl

    pub present :
        (fs : List (String × Bytes)) (b c : Bundle) (body : Bytes)
        → read_entries decoders (map as_entry fs) b ≡ ok c
        → Functional fs
        → In (key, body) fs
        → seen c ≡ from body
    unfolding read_entries
    present [] b c body h fun i = elim i [ ]
    present ((k, v) ∷ fs) b c body h fun i =
        let (d, q, g) = bind-ok (read_entry decoders (file k v) b) _ c h in
        elim (Bool-cases (any named fs)) [
          | inl e ↦
              let (f, j, t) = any-true named fs e in
              let same : f ≡ (key, f.1) = ap (λ n. (n, f.1)) ((eq_iff f.0 key).0 t) in
              let inside = subst (λ x. In x fs) same j in
              present fs d c f.1 g (λ n x y a z. fun n x y (inr a) (inr z)) inside
              ∙ ap from (fun key f.1 body (inr inside) i)
          | inr e ↦ absent fs d c g e ∙ sees k v b d q ∙ here e i
        ]
      where
        here :
            any named fs ≡ false
            → In (key, body) ((k, v) ∷ fs)
            → (if k == key then from v else seen b) ≡ from body
        here e (inl p) =
            let t = eq-true k key (sym (ap (λ f. f.0) p)) in rw t (ap from (sym (ap (λ f. f.1) p)))
        here e (inr j) =
            absurd (false≢true (sym (any-false named fs (key, body) e j) ∙ eq-true key key refl))

  -- The manifest is the last one that was read, and its text decodes.
  pub manifest-Sees :
      Sees
        (Option Manifest)
        (λ b. b.manifest)
        "manifest.json"
        (λ body. decoders.decode_manifest body)
  unfolding read_entry read_file read_key
  manifest-Sees name body b c h = ground arith

  pub events-Sees : Sees (List Fields) (λ b. b.events) "events.jsonl" (parse_jsonl decoders)
  unfolding read_entry read_file read_key
  events-Sees name body b c h =
      let m = other "manifest.json" "events.jsonl" name refl in
      let f = other "flow.json" "events.jsonl" name refl in ground arith

  pub attestations-Sees :
      Sees (List Fields) (λ b. b.attestations) "attestations.jsonl" (parse_jsonl decoders)
  unfolding read_entry read_file read_key
  attestations-Sees name body b c h =
      let m = other "manifest.json" "attestations.jsonl" name refl in
      let f = other "flow.json" "attestations.jsonl" name refl in
      let e = other "events.jsonl" "attestations.jsonl" name refl in ground arith

  keeps_raw :
      (name : String) (body : Bytes) (b c : Bundle)
      → read_file decoders name body b ≡ ok c
      → c.raw_files ≡ b.raw_files
  unfolding read_file read_key
  keeps_raw name body b c h = ground arith

  pub raw-Sees :
      (k : String) → Sees (Option Bytes) (λ b. lookup k b.raw_files) k (λ body. some body)
  unfolding read_entry
  raw-Sees k name body b c h =
      ap (lookup k) (keeps_raw name body (record b { raw_files = put name body b.raw_files }) c h)
      ∙ lookup-put name k body b.raw_files
