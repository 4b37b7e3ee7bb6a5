-- ===== src/Bundle/Read.antt =====
-- Reading the entries of a bundle's archive (pkg/bundle/read.go, helpers.go: parseJSONL). The archive is a
-- list of entries; zstd and tar are outside.
use intentproof_tools.Prelude.{
  ℕ, ◌&&◌, ◌-◌, List, [], ◌∷◌, String, Option, none, some, ◌==◌, Eq-ℕ, Eq-String, if◌then◌else◌,
  Result, err, ok, ◌>>=◌, is_empty, has_prefix, has_suffix, trim_prefix, take_text, text_len,
}
use intentproof_tools.Merkle.{Bytes}
use intentproof_tools.Value.{Fields}
use intentproof_tools.Bundle.{Manifest, Bundle}

-- encoding/json's decoding of a file, where none is an error, what `json.Unmarshal` leaves of a variable
-- when its error is dropped, and bytes.TrimSpace.
pub record Decoders : Type 0 where
  pub decode_manifest : Bytes → Option Manifest
  pub decode_map : Bytes → Option Fields
  pub fill_map : Option Fields → Bytes → Option Fields
  pub fill_strings : List String → Bytes → List String
  pub trim_line : Bytes → Bytes

-- What `tr.Next()` gives and then `io.Copy`: a file, or a failure of either.
pub data TarEntry : Type 0 where
  file : String → Bytes → TarEntry
  next_fails copy_fails : TarEntry

pub data ReadError : Type 0 where
  tar_read_failed tar_extract_failed manifest_decode_failed : ReadError

-- `m[k] = v`
unfoldable pub put : {A : Type 0} → String → A → List (String × A) → List (String × A)
put k a [] = (k, a) ∷ []
put k a ((j, b) ∷ rest) = if j == k then (k, a) ∷ rest else (j, b) ∷ put k a rest

-- `bytes.Split(data, "\n")`: the line so far, and the lines behind it.
abbrev add_byte : ℕ → List Bytes → List Bytes
add_byte b [] = (b ∷ []) ∷ []
add_byte b (line ∷ lines) = (b ∷ line) ∷ lines

unfoldable pub split_lines : Bytes → List Bytes
split_lines [] = [] ∷ []
split_lines (b ∷ bs) = let rest = split_lines bs in if b == 10 then [] ∷ rest else add_byte b rest

-- `strings.TrimSuffix`
unfoldable pub trim_suffix : String → String → String
unfolding has_suffix
trim_suffix s p = if has_suffix s p then take_text (text_len s - text_len p) s else s

module _ (decoders : Decoders) where
  abbrev pub keep_decoded : Option Fields → List Fields → List Fields
  keep_decoded none ms = ms
  keep_decoded (some m) ms = m ∷ ms

  unfoldable pub parse_lines : List Bytes → List Fields
  parse_lines [] = []
  parse_lines (raw ∷ lines) =
      let line = decoders.trim_line raw in
      let rest = parse_lines lines in
      if is_empty line then rest else keep_decoded (decoders.decode_map line) rest

  unfoldable pub parse_jsonl : Bytes → List Fields
  unfolding parse_lines split_lines
  parse_jsonl body = if is_empty body then [] else parse_lines (split_lines body)

  abbrev pub decoded_manifest : Bundle → Option Manifest → Result ReadError Bundle
  decoded_manifest b none = err manifest_decode_failed
  decoded_manifest b (some m) = ok (record b { manifest = some m })

  -- The `default` of the switch.
  unfoldable pub read_key : String → Bytes → Bundle → Bundle
  unfolding put has_prefix has_suffix trim_prefix trim_suffix
  read_key name body b =
      if has_prefix "keys/" name && has_suffix name ".pub"
      then record b {
        public_keys = put (trim_suffix (trim_prefix name "keys/") ".pub") body b.public_keys;
      }
      else b

  -- The `switch` on the name.
  unfoldable pub read_file : String → Bytes → Bundle → Result ReadError Bundle
  unfolding read_key parse_jsonl
  read_file name body b =
      if name == "manifest.json"
      then decoded_manifest b (decoders.decode_manifest body)
      else if name == "flow.json"
      then ok (record b { flow = decoders.fill_map b.flow body })
      else if name == "events.jsonl"
      then ok (record b { events = parse_jsonl body })
      else if name == "attestations.jsonl"
      then ok (record b { attestations = parse_jsonl body })
      else if name == "policy.json"
      then ok (record b { policy = decoders.fill_map b.policy body })
      else if name == "run.json"
      then ok (record b { run = decoders.fill_map b.run body })
      else if name == "certificate.json"
      then ok (record b { certificate = decoders.fill_map b.certificate body })
      else if name == "inclusion_proof.json"
      then ok (record b { inclusion_proof = decoders.fill_strings b.inclusion_proof body })
      else ok (read_key name body b)

  unfoldable pub read_entry : TarEntry → Bundle → Result ReadError Bundle
  unfolding put read_file
  read_entry next_fails b = err tar_read_failed
  read_entry copy_fails b = err tar_extract_failed
  read_entry (file name body) b =
      read_file name body (record b { raw_files = put name body b.raw_files })

  -- The loop of `readFromTar`.
  unfoldable pub read_entries : List TarEntry → Bundle → Result ReadError Bundle
  unfolding read_entry
  read_entries [] b = ok b
  read_entries (e ∷ es) b = do next ← read_entry e b; read_entries es next

  abbrev pub empty_bundle : Bundle
  empty_bundle = record {
    manifest = none;
    flow = none;
    events = [];
    attestations = [];
    policy = none;
    run = none;
    certificate = none;
    inclusion_proof = [];
    public_keys = [];
    raw_files = [];
  }

  unfoldable pub read_from_tar : List TarEntry → Result ReadError Bundle
  unfolding read_entries
  read_from_tar entries = read_entries entries empty_bundle
