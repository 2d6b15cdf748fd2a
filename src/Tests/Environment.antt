-- ===== src/Tests/Environment.antt =====
-- The theorems on src/environment.rs at one small manifest.
use wasm_runtime.Base.{ℕ, ◌≤◌, ◌≡◌, refl, [], ◌∷◌, ◌++◌, All, arith, Bytes, codes, equal, all, true}
use wasm_runtime.Base.Ascii.{strip_prefix, starts_with}
use wasm_runtime.Base.Words.{to_be_bytes}
use wasm_runtime.Checkpoint.Binding.{is_lower_hex}
use wasm_runtime.Failure.{ok}
use wasm_runtime.Environment.{
  hash_string, hash_strings, hash_each, EnvironmentManifest, Crates, decoded, validate_profile,
  validate_names, validate_filesystem, validate_encoding, validate_identity_fields,
  calculate_environment_id, with_calculated_environment_id, validate, from_json, identity_preimage,
}
use wasm_runtime.Environment.Fields.{
  is_hex_byte, validate_hex_sha256, validate_text, validate_token, validate_prefixed_sha256,
  validate_sorted_tokens, validate_sorted_guest_paths, validate_each, contains, has_unordered,
  has_overlap, is_below, equal_lists, validate_guest_path, lex_lt,
}
use wasm_runtime.Environment.Ordered.{IsAscending}
use wasm_runtime.Environment.Paths.{AllApart, validate_sorted_guest_paths-AllApart}
use wasm_runtime.Environment.Identity.{
  IsHexDigest, IsEncodable, identity_preimage-injective, validate-with_calculated_environment_id,
}
use wasm_runtime.Environment.Valid.{IsManifest, from_json-IsManifest, validate-same_id}
use wasm_runtime.Tests.Crates.{toy, toy-IsDocumented, repeated}

abbrev draft : EnvironmentManifest
draft = record {
  schema_version = 1;
  environment_id = [];
  execution_profile = codes "wasix32-v1";
  language = record {
    name = codes "Python";
    version = codes "3.13";
    implementation = codes "CPython";
  };
  artifact = record {
    format = codes "webc";
    path = codes "environment.webc";
    sha256 = repeated 64 97;
  };
  required_wasm_features = codes "simd" ∷ codes "threads" ∷ [];
  commands = record { default = codes "python"; available = codes "pip" ∷ codes "python" ∷ [] };
  filesystem = record {
    immutable = codes "/lib" ∷ codes "/usr/bin" ∷ [];
    writable = codes "/tmp" ∷ codes "/work" ∷ [];
  };
  build = record {
    toolchain_id = codes "t-1";
    source_digest = codes "sha256:" ++ repeated 64 98;
    lock_digest = codes "sha256:" ++ repeated 64 99;
  };
}

abbrev manifest : EnvironmentManifest
manifest = record draft {
  environment_id = codes "sha256:" ++ toy.hex_encode (toy.sha256 (identity_preimage draft));
}

abbrev crates : Crates
crates = record {
  sha256 = toy.sha256;
  hex_encode = toy.hex_encode;
  schema_version = λ json. decoded 1;
  manifest = λ json. decoded manifest;
  to_vec = λ m. decoded (m.environment_id ++ identity_preimage m);
}

lower-hex : (b : ℕ) → is_lower_hex b ≡ true → is_hex_byte b ≡ true
lower-hex b h = ground arith

all_hex : (bytes : Bytes) → all is_lower_hex bytes ≡ true → all is_hex_byte bytes ≡ true
all_hex [] h = refl
all_hex (b ∷ bytes) h = ground (arith, lower-hex b, all_hex bytes)

crates-IsHexDigest : IsHexDigest crates
crates-IsHexDigest = record {
  length-sha256 = toy-IsDocumented.length-sha256;
  length-hex_encode = toy-IsDocumented.length-hex_encode;
  hex_encode_lower =
      λ bytes. all_hex (toy.hex_encode bytes) (toy-IsDocumented.hex_encode_lower bytes);
}

draft_valid : validate_identity_fields crates draft ≡ ok tt
unfolding validate_identity_fields validate_profile validate_names validate_filesystem
    validate_encoding validate_hex_sha256 validate_text validate_token validate_prefixed_sha256
    validate_sorted_tokens validate_sorted_guest_paths validate_each contains has_unordered
    has_overlap is_below equal_lists validate_guest_path lex_lt equal strip_prefix starts_with
    identity_preimage hash_string hash_strings hash_each to_be_bytes
draft_valid = refl

draft_calculated : with_calculated_environment_id crates draft ≡ ok manifest
unfolding with_calculated_environment_id calculate_environment_id
draft_calculated = rw draft_valid refl

validate-with_calculated_environment_id_example :
    (validate crates manifest ≡ ok tt)
    × (manifest ≡ record draft { environment_id = manifest.environment_id })
validate-with_calculated_environment_id_example =
    validate-with_calculated_environment_id crates draft manifest crates-IsHexDigest
      draft_calculated

manifest_valid : validate crates manifest ≡ ok tt
manifest_valid =
    (validate-with_calculated_environment_id crates draft manifest crates-IsHexDigest
      draft_calculated).0

manifest_json : from_json crates (codes "{}") ≡ ok manifest
unfolding from_json
manifest_json = rw manifest_valid refl

from_json-IsManifest_example : IsManifest crates manifest × (2 ≤ 65536)
from_json-IsManifest_example = from_json-IsManifest crates (codes "{}") manifest manifest_json

manifest-IsEncodable : IsEncodable manifest
manifest-IsEncodable = record {
  schema = omega arith;
  counted = (
    omega arith,
    (
      omega arith,
      (
        omega arith,
        (
          omega arith,
          (
            omega arith,
            (
              omega arith,
              (
                omega arith,
                (
                  (omega arith, (omega arith, (omega arith, tt))),
                  (
                    omega arith,
                    (
                      (omega arith, (omega arith, (omega arith, tt))),
                      (
                        (omega arith, (omega arith, (omega arith, tt))),
                        (
                          (omega arith, (omega arith, (omega arith, tt))),
                          (omega arith, (omega arith, (omega arith, tt))),
                        ),
                      ),
                    ),
                  ),
                ),
              ),
            ),
          ),
        ),
      ),
    ),
  );
}

identity_preimage-injective_example :
    record manifest { environment_id = [] } ≡ record draft { environment_id = [] }
unfolding identity_preimage
identity_preimage-injective_example =
    identity_preimage-injective manifest draft manifest-IsEncodable
      (record { schema = omega arith; counted = manifest-IsEncodable.counted }) refl

validate-same_id_example : manifest ≡ manifest
validate-same_id_example =
    validate-same_id crates manifest manifest manifest-IsEncodable manifest-IsEncodable (λ e. refl)
      (λ e. refl) manifest_valid manifest_valid refl

paths_valid :
    validate_sorted_guest_paths "immutable guest paths" (codes "/lib" ∷ codes "/usr/bin" ∷ [])
    ≡ ok tt
unfolding validate_sorted_guest_paths validate_each validate_guest_path starts_with equal
    has_unordered lex_lt has_overlap is_below strip_prefix
paths_valid = refl

validate_sorted_guest_paths-AllApart_example :
    (2 ≤ 256)
    × All
        (λ v. validate_guest_path "immutable guest paths" v ≡ ok tt)
        (codes "/lib" ∷ codes "/usr/bin" ∷ [])
    × IsAscending (codes "/lib" ∷ codes "/usr/bin" ∷ [])
    × AllApart (codes "/lib" ∷ codes "/usr/bin" ∷ [])
validate_sorted_guest_paths-AllApart_example =
    validate_sorted_guest_paths-AllApart "immutable guest paths"
      (codes "/lib" ∷ codes "/usr/bin" ∷ []) paths_valid
