-- ===== src/Environment/Identity.antt =====
-- src/environment.rs: the hash preimage of a manifest, and its calculated identity.
use mathlib.Core.Path.{ap₂, subst}
use wasm_runtime.Base.{
  ℕ, ◌*◌, ◌^◌, ◌<◌, ◌≡◌, refl, sym, ◌∙◌, String, true, List, [], ◌∷◌, ◌++◌, append_assoc,
  append-nil, arith, Bytes, codes, length, all, All, equal_refl,
}
use wasm_runtime.Base.Words.{to_be_bytes}
use wasm_runtime.Base.Ascii.{strip_prefix-append}
use wasm_runtime.Failure.{ok, >>=-eq-ok, >>-eq-ok, ok-injective}
use wasm_runtime.Environment.{
  validate_profile, validate_names, validate_filesystem, validate_encoding, EnvironmentManifest,
  Crates, identity_preimage, identity_domain, validate_identity_fields, calculate_environment_id,
  with_calculated_environment_id, validate,
}
use wasm_runtime.Environment.Fields.{is_hex_byte, validate_hex_sha256, validate_prefixed_sha256}
use wasm_runtime.Environment.Items.{
  Item, one, many, items_code, items_code-injective, IsCountedItem, one_at, many_at,
}
use wasm_runtime.Environment.Preimage.{
  hash_string-string_code, hash_strings-strings_code, append-cancel, number-cancel,
}

-- The identity-bearing fields behind the schema version, in the order of the hash.
abbrev pub fields : EnvironmentManifest → List Item
fields m =
    one m.execution_profile
    ∷ one m.language.name
    ∷ one m.language.version
    ∷ one m.language.implementation
    ∷ one m.artifact.format
    ∷ one m.artifact.path
    ∷ one m.artifact.sha256
    ∷ many m.required_wasm_features
    ∷ one m.commands.default
    ∷ many m.commands.available
    ∷ many m.filesystem.immutable
    ∷ many m.filesystem.writable
    ∷ one m.build.toolchain_id
    ∷ one m.build.source_digest
    ∷ one m.build.lock_digest
    ∷ []

-- The manifest with these fields.
abbrev of_fields : ℕ → Bytes → List Item → EnvironmentManifest
of_fields schema_version environment_id items = record {
  schema_version = schema_version;
  environment_id = environment_id;
  execution_profile = one_at 0 items;
  language = record {
    name = one_at 1 items;
    version = one_at 2 items;
    implementation = one_at 3 items;
  };
  artifact = record { format = one_at 4 items; path = one_at 5 items; sha256 = one_at 6 items };
  required_wasm_features = many_at 7 items;
  commands = record { default = one_at 8 items; available = many_at 9 items };
  filesystem = record { immutable = many_at 10 items; writable = many_at 11 items };
  build = record {
    toolchain_id = one_at 12 items;
    source_digest = one_at 13 items;
    lock_digest = one_at 14 items;
  };
}

abbrev spelled : EnvironmentManifest → Bytes
spelled m = identity_domain ++ (to_be_bytes 4 m.schema_version ++ items_code (fields m))

preimage_spelled : (m : EnvironmentManifest) → identity_preimage m ≡ spelled m
unfolding identity_preimage
preimage_spelled m =
    simp (hash_string-string_code, hash_strings-strings_code, append_assoc, append-nil)

-- The lengths of a manifest fit the widths of the encoding.
pub record IsEncodable (m : EnvironmentManifest) : Type 0 where
  pub schema : m.schema_version < 256 ^ 4
  pub counted : All IsCountedItem (fields m)

-- Two manifests with one hash preimage agree in every field but the environment ID: the preimage
-- that `calculate_environment_id` hashes is an unambiguous encoding of all identity-bearing fields,
-- when lengths are `u64` and the schema version is a `u32`.
pub identity_preimage-injective :
    (m n : EnvironmentManifest)
    → IsEncodable m
    → IsEncodable n
    → identity_preimage m ≡ identity_preimage n
    → record m { environment_id = [] } ≡ record n { environment_id = [] }
identity_preimage-injective m n hm hn e =
    let (domain, behind) =
      append-cancel identity_domain identity_domain refl
        (sym (preimage_spelled m) ∙ e ∙ preimage_spelled n) in
    let (schema, items) =
      number-cancel 4 m.schema_version n.schema_version hm.schema hn.schema behind in
    ap₂ (λ v is. of_fields v [] is) schema
      (items_code-injective (fields m) (fields n) tt hm.counted hn.counted items)

-- The documented behaviour of sha2 and hex.
pub record IsHexDigest (crates : Crates) : Type 0 where
  pub length-sha256 : (message : Bytes) → length (crates.sha256 message) ≡ 32
  pub length-hex_encode : (bytes : Bytes) → length (crates.hex_encode bytes) ≡ 2 * length bytes
  pub hex_encode_lower : (bytes : Bytes) → all is_hex_byte (crates.hex_encode bytes) ≡ true

-- The texts of digests are accepted behind their prefix.
prefixed :
    (crates : Crates) (label : String) (message : Bytes)
    → IsHexDigest crates
    → validate_prefixed_sha256 label (codes "sha256:" ++ crates.hex_encode (crates.sha256 message))
      ≡ ok tt
unfolding validate_prefixed_sha256 validate_hex_sha256
prefixed crates label message d =
    let size : length (crates.hex_encode (crates.sha256 message)) ≡ 64 =
      omega (arith, d.length-hex_encode (crates.sha256 message), d.length-sha256 message) in
    rw
      (
        strip_prefix-append (codes "sha256:") (crates.hex_encode (crates.sha256 message)),
        size,
        d.hex_encode_lower (crates.sha256 message),
      )
      refl

module _ (crates : Crates) (m : EnvironmentManifest) (id : Bytes) where
  abbrev renamed : EnvironmentManifest
  renamed = record m { environment_id = id }

  -- The tests and the preimage do not read the ID.
  validate_identity_fields-renamed :
      validate_identity_fields crates renamed ≡ validate_identity_fields crates m
  unfolding validate_identity_fields validate_profile validate_names validate_filesystem
      validate_encoding
  validate_identity_fields-renamed = refl

  identity_preimage-renamed : identity_preimage renamed ≡ identity_preimage m
  unfolding identity_preimage
  identity_preimage-renamed = refl

  validate-renamed :
      IsHexDigest crates
      → validate_identity_fields crates m ≡ ok tt
      → codes "sha256:" ++ crates.hex_encode (crates.sha256 (identity_preimage m)) ≡ id
      → validate crates renamed ≡ ok tt
  unfolding validate calculate_environment_id
  validate-renamed d valid e =
      let accepted : validate_prefixed_sha256 "environment ID" id ≡ ok tt =
        subst (λ t. validate_prefixed_sha256 "environment ID" t ≡ ok tt) e
          (prefixed crates "environment ID" (identity_preimage m) d) in
      rw
        (
          validate_identity_fields-renamed,
          valid,
          identity_preimage-renamed,
          e,
          equal_refl id,
          accepted,
        )
        refl

-- A manifest whose ID was calculated is valid, whatever ID it had before, when digests have 32
-- bytes and their text is twice as many lowercase hexadecimal digits; and the manifest is otherwise
-- unchanged.
pub validate-with_calculated_environment_id :
    (crates : Crates) (m n : EnvironmentManifest)
    → IsHexDigest crates
    → with_calculated_environment_id crates m ≡ ok n
    → (validate crates n ≡ ok tt) × (n ≡ record m { environment_id = n.environment_id })
unfolding with_calculated_environment_id calculate_environment_id
validate-with_calculated_environment_id crates m n d e =
    let (id, c, h) = >>=-eq-ok (calculate_environment_id crates m) _ e in
    let (valid, named) = >>-eq-ok (validate_identity_fields crates m) _ c in
    let same : record m { environment_id = id } ≡ n = ok-injective h in
    (
      subst (λ k. validate crates k ≡ ok tt) same
          (validate-renamed crates m id d valid (ok-injective named)),
      subst (λ (k : EnvironmentManifest). k ≡ record m { environment_id = k.environment_id }) same
          refl,
    )
