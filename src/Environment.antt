-- ===== src/Environment.antt =====
-- src/environment.rs: the version 1 environment manifest, its validation and its content identity.
pub mod Fields
pub mod Ordered
pub mod Paths
pub mod Preimage
pub mod Items
pub mod Identity
pub mod Valid
use wasm_runtime.Base.{
  ℕ, zero, suc, ◌*◌, Bool, not, ◌&&◌, ◌||◌, List, [], ◌∷◌, ◌++◌, Bytes, codes, length, any, ltb,
  ◌==◌, equal,
}
use wasm_runtime.Base.Words.{to_be_bytes}
use wasm_runtime.Base.Ascii.{starts_with}
use wasm_runtime.Failure.{
  Message, text, number, quoted, bytes, preparation, unsupported_component, limit, Result, ok, err,
  ◌>>=◌, ◌>>◌, reject,
}
use wasm_runtime.Environment.Fields.{
  validate_text, validate_token, validate_hex_sha256, validate_prefixed_sha256,
  validate_sorted_tokens, validate_sorted_guest_paths, contains, equal_lists,
}

pub record EnvironmentLanguage : Type 0 where
  pub name : Bytes
  pub version : Bytes
  pub implementation : Bytes

pub record EnvironmentArtifact : Type 0 where
  pub format : Bytes
  pub path : Bytes
  pub sha256 : Bytes

pub record EnvironmentCommands : Type 0 where
  pub default : Bytes
  pub available : List Bytes

pub record EnvironmentFilesystem : Type 0 where
  pub immutable : List Bytes
  pub writable : List Bytes

pub record EnvironmentBuild : Type 0 where
  pub toolchain_id : Bytes
  pub source_digest : Bytes
  pub lock_digest : Bytes

pub record EnvironmentManifest : Type 0 where
  pub schema_version : ℕ
  pub environment_id : Bytes
  pub execution_profile : Bytes
  pub language : EnvironmentLanguage
  pub artifact : EnvironmentArtifact
  pub required_wasm_features : List Bytes
  pub commands : EnvironmentCommands
  pub filesystem : EnvironmentFilesystem
  pub build : EnvironmentBuild

-- The outcome of a call of serde_json.
pub data Json (A : Type 0) : Type 0 where
  decoded : A → Json A
  malformed : Message → Json A

abbrev pub json_or : {A : Type 0} → Json A → (Message → Result A) → Result A
json_or (decoded a) e = ok a
json_or (malformed m) e = e m

-- The crates sha2, hex and serde_json: `schema_version` is the envelope's parser.
pub record Crates : Type 0 where
  pub sha256 : Bytes → Bytes
  pub hex_encode : Bytes → Bytes
  pub schema_version : Bytes → Json ℕ
  pub manifest : Bytes → Json EnvironmentManifest
  pub to_vec : EnvironmentManifest → Json Bytes

abbrev pub max_manifest_bytes : ℕ
max_manifest_bytes = 64 * 1024

abbrev pub identity_domain : Bytes
identity_domain = codes "runtrue.environment" ++ (0 ∷ (codes "v1" ++ (0 ∷ [])))

-- A hash in progress: the bytes fed to it.
unfoldable pub hash_string : Bytes → Bytes → Bytes
hash_string hash value = (hash ++ to_be_bytes 8 (length value)) ++ value

unfoldable pub hash_each : Bytes → List Bytes → Bytes
hash_each hash [] = hash
hash_each hash (value ∷ values) = hash_each (hash_string hash value) values

unfoldable pub hash_strings : Bytes → List Bytes → Bytes
hash_strings hash values = hash_each (hash ++ to_be_bytes 8 (length values)) values

-- The updates of `calculate_environment_id`, in their order.
unfoldable pub identity_preimage : EnvironmentManifest → Bytes
identity_preimage m =
    let h0 = identity_domain ++ to_be_bytes 4 m.schema_version in
    let h1 = hash_string h0 m.execution_profile in
    let h2 = hash_string h1 m.language.name in
    let h3 = hash_string h2 m.language.version in
    let h4 = hash_string h3 m.language.implementation in
    let h5 = hash_string h4 m.artifact.format in
    let h6 = hash_string h5 m.artifact.path in
    let h7 = hash_string h6 m.artifact.sha256 in
    let h8 = hash_strings h7 m.required_wasm_features in
    let h9 = hash_string h8 m.commands.default in
    let h10 = hash_strings h9 m.commands.available in
    let h11 = hash_strings h10 m.filesystem.immutable in
    let h12 = hash_strings h11 m.filesystem.writable in
    let h13 = hash_string h12 m.build.toolchain_id in
    let h14 = hash_string h13 m.build.source_digest in hash_string h14 m.build.lock_digest

abbrev zeros : ℕ → Bytes
zeros zero = []
zeros (suc n) = b'0' ∷ zeros n

-- The test on the immutable paths.
abbrev pub is_writable_path : Bytes → Bool
is_writable_path path =
    equal path (codes "/tmp")
    || starts_with (codes "/tmp/") path
    || equal path (codes "/work")
    || starts_with (codes "/work/") path

-- The identity fields up to the artifact.
unfoldable pub validate_profile : EnvironmentManifest → Result (Unit {0})
validate_profile m = do
  reject (not (m.schema_version == 1)) (
      unsupported_component
        (text "unsupported environment schema version " ∷ number m.schema_version ∷ []))
  reject (not (equal m.execution_profile (codes "wasix32-v1"))) (
      unsupported_component
        (text "unsupported environment execution profile " ∷ quoted m.execution_profile ∷ []))
  reject (not (equal m.artifact.format (codes "webc"))) (
      unsupported_component
        (text "unsupported environment artifact format " ∷ quoted m.artifact.format ∷ []))
  reject (not (equal m.artifact.path (codes "environment.webc")))
      (preparation (text "schema 1 artifact path must be exactly environment.webc" ∷ []))
  validate_hex_sha256 "artifact SHA-256" m.artifact.sha256

-- The texts, digests and lists of names.
unfoldable pub validate_names : EnvironmentManifest → Result (Unit {0})
validate_names m = do
  validate_text "language name" m.language.name
  validate_text "language version" m.language.version
  validate_text "language implementation" m.language.implementation
  validate_token "toolchain ID" m.build.toolchain_id
  validate_prefixed_sha256 "source digest" m.build.source_digest
  validate_prefixed_sha256 "lock digest" m.build.lock_digest
  validate_sorted_tokens "required WebAssembly features" m.required_wasm_features
  validate_token "default command" m.commands.default
  validate_sorted_tokens "available commands" m.commands.available
  reject (not (contains m.commands.default m.commands.available))
      (preparation (text "environment default command is missing from the command catalog" ∷ []))

-- The guest paths.
unfoldable pub validate_filesystem : EnvironmentFilesystem → Result (Unit {0})
validate_filesystem f = do
  validate_sorted_guest_paths "immutable guest paths" f.immutable
  reject (not (equal_lists f.writable (codes "/tmp" ∷ codes "/work" ∷ [])))
      (unsupported_component (text "schema 1 requires fresh writable /tmp and /work only" ∷ []))
  reject (any is_writable_path f.immutable)
      (preparation (text "immutable guest paths overlap a writable guest path" ∷ []))

module _ (crates : Crates) where
  -- The size of the manifest with an identity of the right length.
  unfoldable pub validate_encoding : EnvironmentManifest → Result (Unit {0})
  validate_encoding m = do
    encoded ←
        json_or (crates.to_vec (record m { environment_id = codes "sha256:" ++ zeros 64 }))
          (λ e. err (preparation (text "environment manifest cannot be encoded: " ∷ e)))
    reject (ltb max_manifest_bytes (length encoded)) (limit "environment manifest bytes")

  unfoldable pub validate_identity_fields : EnvironmentManifest → Result (Unit {0})
  validate_identity_fields m = do
    validate_profile m
    validate_names m
    validate_filesystem m.filesystem
    validate_encoding m

  unfoldable pub calculate_environment_id : EnvironmentManifest → Result Bytes
  calculate_environment_id m = do
    validate_identity_fields m
    ok (codes "sha256:" ++ crates.hex_encode (crates.sha256 (identity_preimage m)))

  unfoldable pub with_calculated_environment_id : EnvironmentManifest → Result EnvironmentManifest
  with_calculated_environment_id m = do
    environment_id ← calculate_environment_id m
    ok (record m { environment_id = environment_id })

  unfoldable pub validate : EnvironmentManifest → Result (Unit {0})
  validate m = do
    validate_identity_fields m
    validate_prefixed_sha256 "environment ID" m.environment_id
    calculated ← calculate_environment_id m
    reject (not (equal m.environment_id calculated)) (
        preparation (
          text "environment ID mismatch: expected "
          ∷ bytes calculated
          ∷ text ", got "
          ∷ bytes m.environment_id
          ∷ []))

  unfoldable pub from_json : Bytes → Result EnvironmentManifest
  from_json json = do
    reject (ltb max_manifest_bytes (length json)) (limit "environment manifest bytes")
    schema_version ←
        json_or (crates.schema_version json)
          (λ e. err (preparation (text "invalid environment manifest: " ∷ e)))
    reject (not (schema_version == 1)) (
        unsupported_component
          (text "unsupported environment schema version " ∷ number schema_version ∷ []))
    manifest ←
        json_or (crates.manifest json)
          (λ e. err (preparation (text "invalid environment manifest: " ∷ e)))
    validate manifest
    ok manifest
