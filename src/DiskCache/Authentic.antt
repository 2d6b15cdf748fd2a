-- ===== src/DiskCache/Authentic.antt =====
-- src/cache.rs: what the files of an artifact that `load` accepts hold.
use wasm_runtime.Base.{◌≤◌, ◌≡◌, ◌↔◌, true, Option, some, ◌++◌, Bytes, arith, length}
use wasm_runtime.Base.Maps.{equal_iff}
use wasm_runtime.DiskCache.{
  json, CacheIdentity, CacheMetadata, Crates, DiskCache, cache_domain, identity_eq, artifact_path,
  metadata_path, identity,
}
use wasm_runtime.Files.{File}
use wasm_runtime.Profiles.{WasiProfile}

pub identity_eq_iff : (a b : CacheIdentity) → (identity_eq a b ≡ true) ↔ (a ≡ b)
unfolding identity_eq
identity_eq_iff a b = ground (
  arith,
  equal_iff a.component_digest b.component_digest,
  equal_iff a.profile b.profile,
  equal_iff a.wasmtime_version b.wasmtime_version,
  equal_iff a.target b.target,
  equal_iff a.compiler_profile b.compiler_profile,
)

module _ (x : Crates) (disk : DiskCache) where
  -- The files of a digest and profile hold this artifact, under metadata for this cache and with
  -- the tag of the cache's key over the domain, the identity and the artifact.
  pub record IsAuthentic (digest : Bytes) (profile : WasiProfile) (artifact : Bytes)
      (entries : Bytes → Option File) : Type 0 where
    pub metadata : CacheMetadata
    pub encoded : Bytes
    pub metadata_file : File
    pub artifact_file : File
    pub metadata_at : entries (metadata_path digest profile) ≡ some metadata_file
    pub artifact_at : entries (artifact_path digest profile) ≡ some artifact_file
    pub contents : artifact_file.contents ≡ artifact
    pub parsed : x.metadata_from_slice metadata_file.contents ≡ json metadata
    pub same_identity : metadata.identity ≡ identity x disk digest profile
    pub within : metadata.artifact_len ≤ disk.config.max_entry_bytes
    pub exact : length artifact ≡ metadata.artifact_len
    pub key : x.hmac_accepts disk.config.authentication_key ≡ true
    pub identity_bytes : x.identity_to_vec (identity x disk digest profile) ≡ json encoded
    pub tag :
        x.hex_decode metadata.authentication_tag
        ≡ some
            (x.hmac_sha256 disk.config.authentication_key (cache_domain ++ (encoded ++ artifact)))
