-- ===== src/DiskCache.antt =====
-- src/cache.rs: the authenticated cache of native code on disk.
pub mod Names
pub mod Atomic
pub mod Publishing
pub mod Authentic
pub mod Loading
pub mod RoundTrip
pub mod Returning
use wasm_runtime.Base.{
  ℕ, zero, suc, ◌+◌, ◌/◌, ◌%◌, Bool, true, false, not, ◌&&◌, Option, none, some, List, [], ◌∷◌,
  ◌++◌, Bytes, codes, length, ltb, ◌==◌, equal, if◌then◌else◌, ◌≡◌, refl, ◌⊎◌, inl, inr,
}
use wasm_runtime.Config.{DiskCacheConfig}
use wasm_runtime.Files.{
  Files, Io, ◌>>=◌, ◌>>◌, lift, exists, read, write, set_private_file, rename, on_directory,
  fetch_add,
}
use wasm_runtime.Failure.{
  Message, text, cache, configuration, Error, Result, ok, err, reject, ok_or,
}
use wasm_runtime.Profiles.{WasiProfile, cli0_3, cli0_2, http0_3, http0_2, cache_id}

abbrev pub cache_domain : Bytes
cache_domain = codes "runtrue-wasm-runtime.aot.v1" ++ (0 ∷ [])

abbrev pub wasmtime_version : Bytes
wasmtime_version = codes "46.0.3"

pub record CacheIdentity : Type 0 where
  pub format : ℕ
  pub component_digest : Bytes
  pub profile : Bytes
  pub wasmtime_version : Bytes
  pub target : Bytes
  pub compiler_profile : Bytes

pub record CacheMetadata : Type 0 where
  pub identity : CacheIdentity
  pub artifact_len : ℕ
  pub authentication_tag : Bytes

-- An outcome of serde_json: a value, or the text of the error.
pub data Json (A : Type 0) : Type 0 where
  json : A → Json A
  malformed : Message → Json A

abbrev pub json_or : {A : Type 0} → Json A → Message → Result A
json_or (json a) failed = ok a
json_or (malformed m) failed = err (cache (failed ++ m))

pub Json-cases :
    {A : Type 0} (j : Json A) → ((a : A) × (j ≡ json a)) ⊎ ((m : Message) × (j ≡ malformed m))
Json-cases (json a) = inl (a, refl)
Json-cases (malformed m) = inr (m, refl)

-- The crates hmac, sha2, hex and serde_json, and the process ID.
pub record Crates : Type 0 where
  pub hmac_accepts : Bytes → Bool
  pub hmac_sha256 : Bytes → Bytes → Bytes
  pub sha256 : Bytes → Bytes
  pub hex_encode : Bytes → Bytes
  pub hex_decode : Bytes → Option Bytes
  pub identity_to_vec : CacheIdentity → Json Bytes
  pub metadata_to_vec : CacheMetadata → Json Bytes
  pub metadata_from_slice : Bytes → Json CacheMetadata
  pub process_id : ℕ

pub record DiskCache : Type 0 where
  pub config : DiskCacheConfig
  pub target : Bytes

-- The derived `==` of `CacheIdentity`.
unfoldable pub identity_eq : CacheIdentity → CacheIdentity → Bool
identity_eq a b =
    a.format == b.format
    && equal a.component_digest b.component_digest
    && equal a.profile b.profile
    && equal a.wasmtime_version b.wasmtime_version
    && equal a.target b.target
    && equal a.compiler_profile b.compiler_profile

unfoldable pub profile_name : WasiProfile → Bytes
profile_name cli0_3 = codes "cli-p3"
profile_name cli0_2 = codes "cli-p2"
profile_name http0_3 = codes "http-p3"
profile_name http0_2 = codes "http-p2"

-- `format!("{digest}-{profile}")` with what `paths` puts behind it.
unfoldable pub file_name : Bytes → WasiProfile → Bytes → Bytes
file_name digest profile extension =
    digest ++ (codes "-" ++ (profile_name profile ++ (codes "." ++ extension)))

-- The two components of `paths`.
abbrev pub artifact_path : Bytes → WasiProfile → Bytes
artifact_path digest profile = file_name digest profile (codes "aot")

abbrev pub metadata_path : Bytes → WasiProfile → Bytes
metadata_path digest profile = file_name digest profile (codes "aot.json")

-- The part of a file name in front of its last dot.
unfoldable pub before_last_dot : Bytes → Option Bytes
before_last_dot [] = none
before_last_dot (c ∷ name) = elim (before_last_dot name) [
  | some front ↦ some (c ∷ front)
  | none ↦ if c == b'.' then some [] else none
]

abbrev pub stem_or : Bytes → Option Bytes → Bytes
stem_or name none = name
stem_or name (some []) = name
stem_or name (some (c ∷ front)) = c ∷ front

-- `Path::with_extension` on a file name other than `..`.
unfoldable pub with_extension : Bytes → Bytes → Bytes
with_extension extension name = stem_or name (before_last_dot name) ++ (codes "." ++ extension)

-- The decimal digits of a number that is below `10 ^ fuel`.
unfoldable pub digits : ℕ → ℕ → Bytes
digits zero n = []
digits (suc fuel) n =
    let front = digits fuel (n / 10) in
    (if n / 10 == 0 then [] else front) ++ ((b'0' + n % 10) ∷ [])

abbrev pub decimal : ℕ → Bytes
decimal = digits 20

module _ (x : Crates) where
  unfoldable pub component_digest : Bytes → Bytes
  component_digest bytes = x.hex_encode (x.sha256 bytes)

  unfoldable pub atomic_publish : Bytes → Bytes → Io (Unit {0})
  atomic_publish path bytes = do
    sequence ← fetch_add
    let temporary =
        with_extension (codes "tmp-" ++ (decimal x.process_id ++ (codes "-" ++ decimal sequence)))
          path
    write temporary bytes
    set_private_file temporary
    rename temporary path

  unfoldable pub prepare : DiskCacheConfig → Bytes → Io DiskCache
  prepare config target = do
    lift (
        reject (config.max_entry_bytes == 0)
          (configuration (text "disk cache entry limit must be positive" ∷ [])))
    on_directory
    on_directory
    lift (ok (record { config = config; target = target }))

  module _ (disk : DiskCache) where
    unfoldable pub contains : Bytes → WasiProfile → Files → Bool
    contains digest profile s =
        exists (artifact_path digest profile) s && exists (metadata_path digest profile) s

    unfoldable pub identity : Bytes → WasiProfile → CacheIdentity
    unfolding cache_id
    identity digest profile = record {
      format = 1;
      component_digest = digest;
      profile = cache_id profile;
      wasmtime_version = wasmtime_version;
      target = disk.target;
      compiler_profile = codes "cranelift-speed-and-size;component-async;fuel;epoch;baseline";
    }

    -- The bytes that the returned `HmacSha256` has been fed.
    unfoldable pub authentication_tag : CacheIdentity → Bytes → Result Bytes
    authentication_tag id artifact = elim (x.hmac_accepts disk.config.authentication_key) [
      | false ↦ err (cache (text "authentication key is invalid" ∷ []))
      | true ↦ elim (x.identity_to_vec id) [
        | json encoded ↦ ok (cache_domain ++ (encoded ++ artifact))
        | malformed m ↦ err (cache (text "identity encoding failed: " ∷ m))
      ]
    ]

    abbrev pub finalize : Bytes → Bytes
    finalize fed = x.hmac_sha256 disk.config.authentication_key fed

    -- `load` up to the bound on the length.
    unfoldable pub load_metadata : Bytes → WasiProfile → Io CacheMetadata
    load_metadata digest profile = do
      metadata_bytes ←
          read (λ m. cache (text "metadata read failed: " ∷ m)) (metadata_path digest profile)
      metadata ←
          lift
            (json_or (x.metadata_from_slice metadata_bytes) (text "metadata is malformed: " ∷ []))
      lift (
          reject (not (identity_eq metadata.identity (identity digest profile)))
            (cache (text "artifact identity is incompatible" ∷ [])))
      lift (
          reject (ltb disk.config.max_entry_bytes metadata.artifact_len)
            (cache (text "artifact exceeds the configured limit" ∷ [])))
      lift (ok metadata)

    -- The rest of `load`.
    unfoldable pub load_artifact : Bytes → WasiProfile → CacheMetadata → Io Bytes
    load_artifact digest profile metadata = do
      artifact ←
          read (λ m. cache (text "artifact read failed: " ∷ m)) (artifact_path digest profile)
      lift (
          reject (not (length artifact == metadata.artifact_len))
            (cache (text "artifact length does not match metadata" ∷ [])))
      expected ← lift (authentication_tag (identity digest profile) artifact)
      supplied ← lift (
          ok_or (x.hex_decode metadata.authentication_tag)
            (cache (text "authentication tag is malformed" ∷ [])))
      lift (
          reject (not (equal (finalize expected) supplied))
            (cache (text "artifact authentication failed" ∷ [])))
      lift (ok artifact)

    unfoldable pub load : Bytes → WasiProfile → Io (Option Bytes)
    load digest profile s =
        if not (exists (artifact_path digest profile) s)
          && not (exists (metadata_path digest profile) s)
        then (ok none, s)
        else (do
          metadata ← load_metadata digest profile
          artifact ← load_artifact digest profile metadata
          lift (ok (some artifact)))
            s

    unfoldable pub publish : Bytes → WasiProfile → Bytes → Io (Unit {0})
    publish digest profile artifact = do
      lift (
          reject (ltb disk.config.max_entry_bytes (length artifact))
            (cache (text "artifact exceeds the configured limit" ∷ [])))
      fed ← lift (authentication_tag (identity digest profile) artifact)
      metadata ← lift (
          json_or
            (x.metadata_to_vec (record {
              identity = identity digest profile;
              artifact_len = length artifact;
              authentication_tag = x.hex_encode (finalize fed);
            }))
            (text "metadata encoding failed: " ∷ []))
      atomic_publish (artifact_path digest profile) artifact
      atomic_publish (metadata_path digest profile) metadata
