-- ===== src/Bundle/Manifests.antt =====
-- The canonical JSON of manifests and of signed documents, and item roots (pkg/bundle/helpers.go).
use intentproof_tools.Prelude.{List, [], ◌∷◌, map, String, Option, none, some, Result, err, ok}
use intentproof_tools.Prelude.Bytes.{bytes, hex_encode}
use intentproof_tools.Prelude.Sorting.{sort_strings}
use intentproof_tools.Merkle.{Bytes, next_level, reduce, root, root_hex}
use intentproof_tools.Value.{
  Value, obj, arr, str, null, Fields, end, field, Items, nil, cons, get, delete, as_string,
  or_empty,
}
use intentproof_tools.Canon.Encode.{MarshalError}
use intentproof_tools.Canon.Values.{marshal}
use intentproof_tools.Bundle.{Manifest, ManifestEntry, VerificationProfile, Env}

abbrev list_items : List Value → Items
list_items [] = nil
list_items (v ∷ vs) = cons v (list_items vs)

-- A nil slice is printed as null.
abbrev slice : {A : Type 0} → (A → Value) → Option (List A) → Value
slice f none = null
slice f (some xs) = arr (list_items (map f xs))

abbrev entry_value : ManifestEntry → Value
entry_value e = obj (field "path" (str e.path) (field "sha256" (str e.sha) end))

abbrev profile_value : VerificationProfile → Value
profile_value p = obj (
    field "spec_version" (str p.spec_version) (
      field "verifier_version" (str p.verifier_version) (
        field "policy_versions" (slice str p.policy_versions) (
          field "export_profile" (str p.export_profile) (
            field "flow_snapshot_id" (str p.flow_snapshot_id)
              (field "run_id" (str p.run_id) end))))))

-- `omitempty`
abbrev profile_field : Option VerificationProfile → Fields
profile_field none = end
profile_field (some p) = field "verification_profile" (profile_value p) end

-- The JSON of a manifest, by its tags, behind the deletion of its signature.
unfoldable pub manifest_fields : Manifest → Fields
manifest_fields m = field "schema" (str m.schema) (
    field "bundle_id" (str m.bundle_id) (
      field "created_at" (str m.created_at) (
        field "flow_id" (str m.flow_id) (
          field "tenant_id" (str m.tenant_id) (
            field "files" (slice entry_value m.files) (
              field "event_merkle_root" (str m.event_merkle) (
                field "attestation_merkle_root" (str m.att_merkle)
                  (profile_field m.verification_profile))))))))

unfoldable pub delete_all : List String → Fields → Fields
unfolding delete
delete_all [] m = m
delete_all (k ∷ ks) m = delete_all ks (delete k m)

-- `computeItemMerkle`
unfoldable pub item_ids : List Fields → String → List String
unfolding get
item_ids items id_field = map (λ item. or_empty (as_string (get id_field item))) items

unfoldable pub compute_item_merkle : (Bytes → Bytes) → List Fields → String → String
unfolding item_ids root_hex root reduce next_level hex_encode sort_strings bytes
compute_item_merkle sha256 items id_field =
    root_hex sha256 (map bytes (sort_strings (item_ids items id_field)))

module _ (env : Env) where
  abbrev canonical_bytes : Result MarshalError String → Result MarshalError Bytes
  canonical_bytes (err e) = err e
  canonical_bytes (ok s) = ok (bytes s)

  unfoldable pub canonical_manifest_json : Manifest → Result MarshalError Bytes
  unfolding manifest_fields marshal bytes
  canonical_manifest_json m =
      canonical_bytes (marshal env.number_text env.floats (obj (manifest_fields m)))

  unfoldable pub canonical_signed_map : Fields → List String → Result MarshalError Bytes
  unfolding delete_all marshal bytes
  canonical_signed_map doc excluded_fields =
      canonical_bytes (marshal env.number_text env.floats (obj (delete_all excluded_fields doc)))

  unfoldable pub sha256hex : Bytes → String
  unfolding hex_encode
  sha256hex body = hex_encode (env.prims.sha256 body)
