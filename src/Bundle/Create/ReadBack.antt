-- ===== src/Bundle/Create/ReadBack.antt =====
-- Reading back a bundle that was created (pkg/bundle/create.go, read.go).
use text.Mathlib.TextEquality.{eq_iff}
use intentproof_tools.Prelude.{
  List, [], ◌∷◌, ◌++◌, map, In, All, ◌≡◌, refl, sym, ap, subst, ◌∙◌, ◌↔◌, inl, inr, String, Option,
  none, some, Eq-String, err, ok, bind-ok, ok-injective, or_err, Result-cases, arith, trim_prefix,
}
use intentproof_tools.Prelude.Sorting.{sort}
use intentproof_tools.Prelude.Sorting.Members.{In-sort}
use intentproof_tools.Merkle.{Bytes}
use intentproof_tools.Value.{Fields}
use intentproof_tools.Policysig.{SignatureEnvelope}
use intentproof_tools.Bundle.{Bundle, Manifest, Env, lookup}
use intentproof_tools.Bundle.Manifests.{compute_item_merkle, canonical_manifest_json}
use intentproof_tools.Bundle.Read.{
  Decoders, TarEntry, file, ReadError, put, parse_jsonl, read_file, read_entry, read_entries,
  read_from_tar, empty_bundle,
}
use intentproof_tools.Bundle.Create.{
  CreateOptions, bundle_files, by_name, entry_of, manifest_entries, signed_by, unsigned_manifest,
  derive_verification_profile, canonical_or, sign_manifest, create_manifest, create,
}
use intentproof_tools.Bundle.Create.Files.{
  Functional, as_entry, present, manifest-Sees, events-Sees, attestations-Sees, raw-Sees,
}
use intentproof_tools.Bundle.Verify.{or_none}
use intentproof_tools.Bundle.Verify.Passes.{FileOk}

In-append_left : {A : Type 0} (a : A) (xs ys : List A) → In a xs → In a (xs ++ ys)
In-append_left a [] ys i = elim i [ ]
In-append_left a (x ∷ xs) ys (inl e) = inl e
In-append_left a (x ∷ xs) ys (inr i) = inr (In-append_left a xs ys i)

In-append_last : {A : Type 0} (a : A) (xs : List A) → In a (xs ++ a ∷ [])
In-append_last a [] = inl refl
In-append_last a (x ∷ xs) = inr (In-append_last a xs)

none-not-some : (m : Manifest) → ◌≡◌ {A = Option Manifest} none (some m) → ⊥
none-not-some m h = cc

module _ (env : Env) (decoders : Decoders) where
  -- Only a manifest can fail to be read.
  read_file-errors :
      (name : String) (body : Bytes) (b : Bundle) (e : ReadError)
      → read_file decoders name body b ≡ err e
      → (name ≡ "manifest.json") × (decoders.decode_manifest body ≡ none)
  unfolding read_file
  read_file-errors name body b e h = (ground (arith, eq_iff name "manifest.json"), ground arith)

  -- An entry that cannot be read is a manifest that does not decode.
  entry_reads :
      (k : String) (v : Bytes) (b : Bundle) (m : Manifest)
      → (k ≡ "manifest.json" → decoders.decode_manifest v ≡ some m)
      → (x : ReadError) → read_entry decoders (file k v) b ≡ err x
      → ⊥
  unfolding read_entry
  entry_reads k v b m d x e =
      let (p, q) = read_file-errors k v (record b { raw_files = put k v b.raw_files }) x e in
      none-not-some m (sym q ∙ d p)

  reads :
      (fs : List (String × Bytes)) (b : Bundle) (m : Manifest)
      → ((k : String) (v : Bytes)
          → In (k, v) fs
          → k ≡ "manifest.json"
          → decoders.decode_manifest v ≡ some m)
      → (c : Bundle) × (read_entries decoders (map as_entry fs) b ≡ ok c)
  unfolding read_entries
  reads [] b m d = (b, refl)
  reads ((k, v) ∷ fs) b m d = elim (Result-cases (read_entry decoders (file k v) b)) [
    | inr (c, e) ↦ let (o, g) = reads fs c m (λ j w i. d j w (inr i)) in (o, rw e g)
    | inl (x, e) ↦ absurd (entry_reads k v b m (d k v (inl refl)) x e)
  ]

  signed_by-keeps :
      (m n : Manifest) (signer : Option (Bytes → Option SignatureEnvelope))
      → signed_by env decoders m signer ≡ ok n
      → (n.files ≡ m.files) × (n.event_merkle ≡ m.event_merkle) × (n.att_merkle ≡ m.att_merkle)
  signed_by-keeps m n none h = ground arith
  signed_by-keeps m n (some signer) h =
      let (c, p, g) = bind-ok (canonical_or env decoders (canonical_manifest_json env m)) _ n h in
      let (sig, q, k) = bind-ok (or_err (signer c) sign_manifest) _ n g in
      let e = ok-injective k in
      (ap (λ o. o.files) (sym e), ap (λ o. o.event_merkle) (sym e), ap (λ o. o.att_merkle) (sym e))

  entries_ok :
      (b : Bundle) (fs : List (String × Bytes))
      → ((f : String × Bytes) → In f fs → lookup f.0 b.raw_files ≡ some f.1)
      → All (FileOk env b) (map (entry_of env decoders) fs)
  unfolding trim_prefix
  entries_ok b [] h = tt
  entries_ok b (f ∷ fs) h = ((f.1, h f (inl refl), refl), entries_ok b fs (λ g i. h g (inr i)))

  -- What `create` writes: its own files and the text of its manifest.
  abbrev pub written : CreateOptions → Bytes → List (String × Bytes)
  written opts text = bundle_files opts ++ ("manifest.json", text) ∷ []

  -- What a bundle that was read has of the manifest.
  abbrev pub Faithful : CreateOptions → Manifest → Bundle → Type 0
  Faithful opts m b =
      (b.manifest ≡ some m)
      × (b.events ≡ parse_jsonl decoders opts.events_jsonl)
      × (b.attestations ≡ parse_jsonl decoders opts.attestations_jsonl)
      × All (FileOk env b) (or_none m.files)
      × (m.event_merkle ≡ compute_item_merkle env.prims.sha256 b.events "event_id")
      × (m.att_merkle ≡ compute_item_merkle env.prims.sha256 b.attestations "attestation_id")

  -- The manifest's entries and roots are those of the options.
  abbrev Describes : CreateOptions → Manifest → Type 0
  Describes opts m =
      (m.files ≡ some (manifest_entries env decoders (bundle_files opts)))
      × (m.event_merkle
          ≡ compute_item_merkle env.prims.sha256 (parse_jsonl decoders opts.events_jsonl)
              "event_id")
      × (m.att_merkle
          ≡ compute_item_merkle env.prims.sha256 (parse_jsonl decoders opts.attestations_jsonl)
              "attestation_id")

  create_manifest-Describes :
      (spec_ref : String) (opts : CreateOptions) (m : Manifest)
      → create_manifest env decoders spec_ref opts ≡ ok m
      → Describes opts m
  unfolding create_manifest
  create_manifest-Describes spec_ref opts m h =
      let (profile, p, k) =
        bind-ok (derive_verification_profile env decoders spec_ref opts) _ m h in
      signed_by-keeps (unsigned_manifest env decoders opts profile) m opts.signer k

  events_written :
      (opts : CreateOptions) → In ("events.jsonl", opts.events_jsonl) (bundle_files opts)
  unfolding bundle_files
  events_written opts = inr (inl refl)

  attestations_written :
      (opts : CreateOptions)
      → In ("attestations.jsonl", opts.attestations_jsonl) (bundle_files opts)
  unfolding bundle_files
  attestations_written opts = inr (inr (inl refl))

  files_listed :
      (opts : CreateOptions) (m : Manifest) (b : Bundle)
      → m.files ≡ some (manifest_entries env decoders (bundle_files opts))
      → ((f : String × Bytes) → In f (bundle_files opts) → lookup f.0 b.raw_files ≡ some f.1)
      → All (FileOk env b) (or_none m.files)
  unfolding manifest_entries
  files_listed opts m b e h = rw e (
      entries_ok b (sort by_name (bundle_files opts))
        (λ f i. h f ((In-sort by_name f (bundle_files opts)).0 i)))

  -- Any order of the files, each name once, is read back.
  read-written :
      (opts : CreateOptions) (m : Manifest) (text : Bytes) (fs : List (String × Bytes))
      → decoders.decode_manifest text ≡ some m
      → Functional (written opts text)
      → ((f : String × Bytes) → In f fs ↔ In f (written opts text))
      → Describes opts m
      → (b : Bundle) × (read_entries decoders (map as_entry fs) (empty_bundle decoders) ≡ ok b)
        × Faithful opts m b
  read-written opts m text fs decodes distinct same (files, events_root, attestations_root) =
      let (b, r) = reads fs (empty_bundle decoders) m manifest_decodes in
      let raw = λ (f : String × Bytes) (i : In f (bundle_files opts)).
        present decoders (Option Bytes) (λ c. lookup f.0 c.raw_files) f.0 (λ body. some body)
          (raw-Sees decoders f.0) fs (empty_bundle decoders) b f.1 r once (from_files f i) in
      let events =
        present decoders (List Fields) (λ c. c.events) "events.jsonl" (parse_jsonl decoders)
          (events-Sees decoders) fs (empty_bundle decoders) b opts.events_jsonl r once
          (from_files ("events.jsonl", opts.events_jsonl) (events_written opts)) in
      let attestations =
        present decoders (List Fields) (λ c. c.attestations) "attestations.jsonl"
          (parse_jsonl decoders) (attestations-Sees decoders) fs (empty_bundle decoders) b
          opts.attestations_jsonl r once
          (from_files ("attestations.jsonl", opts.attestations_jsonl)
            (attestations_written opts)) in
      (
        b,
        r,
        (
          present decoders (Option Manifest) (λ c. c.manifest) "manifest.json"
                decoders.decode_manifest (manifest-Sees decoders) fs (empty_bundle decoders) b text
                r once ((same ("manifest.json", text)).1 last)
              ∙ decodes,
          events,
          attestations,
          files_listed opts m b files raw,
          events_root ∙ ap (λ es. compute_item_merkle env.prims.sha256 es "event_id") (sym events),
          attestations_root
              ∙ ap (λ es. compute_item_merkle env.prims.sha256 es "attestation_id")
                  (sym attestations),
        ),
      )
    where
      last : In ("manifest.json", text) (written opts text)
      last = In-append_last ("manifest.json", text) (bundle_files opts)

      once : Functional fs
      once k v w i j = distinct k v w ((same (k, v)).0 i) ((same (k, w)).0 j)

      from_files : (f : String × Bytes) → In f (bundle_files opts) → In f fs
      from_files f i =
          (same f).1 (In-append_left f (bundle_files opts) (("manifest.json", text) ∷ []) i)

      manifest_decodes :
          (k : String) (v : Bytes)
          → In (k, v) fs
          → k ≡ "manifest.json"
          → decoders.decode_manifest v ≡ some m
      manifest_decodes k v i e =
          let j = subst (λ n. In (n, v) (written opts text)) e ((same (k, v)).0 i) in
          ap decoders.decode_manifest (distinct "manifest.json" v text j last) ∙ decodes

  -- If no name stands twice among the files of the options and manifest.json, and the text of the manifest
  -- decodes to it, a bundle that is created is read back with that manifest and with the events and the
  -- attestations of the options; every file that the manifest lists has its hash, and the Merkle roots are
  -- those of the events and the attestations that were read.
  pub create-reads_back :
      (manifest_json : Manifest → Bytes) (spec_ref : String) (opts : CreateOptions)
      (items : List TarEntry)
      → ((m : Manifest)
          → create_manifest env decoders spec_ref opts ≡ ok m
          → decoders.decode_manifest (manifest_json m) ≡ some m)
      → ((text : Bytes) → Functional (written opts text))
      → create env decoders manifest_json spec_ref opts ≡ ok items
      → (m : Manifest) × (b : Bundle) × (create_manifest env decoders spec_ref opts ≡ ok m)
        × (read_from_tar decoders items ≡ ok b)
        × Faithful opts m b
  unfolding create read_from_tar
  create-reads_back manifest_json spec_ref opts items decodes distinct h =
      let (m, e, k) = bind-ok (create_manifest env decoders spec_ref opts) _ items h in
      let text = manifest_json m in
      let (b, r, f) =
        read-written opts m text (sort by_name (written opts text)) (decodes m e) (distinct text)
          (λ f. In-sort by_name f (written opts text))
          (create_manifest-Describes spec_ref opts m e) in
      let back =
        ap (λ es. read_entries decoders es (empty_bundle decoders)) (sym (ok-injective k)) in
      (m, b, e, back ∙ r, f)
