-- ===== src/DiskCache/RoundTrip.antt =====
-- src/cache.rs: what `load` gives behind a publication, whole or interrupted.
use wasm_runtime.Base.{
  ◌∷◌, [], ◌≢◌, none, ◌≤◌, ◌≡◌, refl, ap, sym, ◌∙◌, true, Option, some, [], ◌++◌, Bytes, codes,
  arith, length, ◌⊎◌, inl, inr,
}
use wasm_runtime.DiskCache.{
  text, cache, err, load_metadata, json, CacheIdentity, CacheMetadata, Crates, DiskCache,
  artifact_path, metadata_path, identity, authentication_tag, finalize, load, publish,
  atomic_publish, cache_domain,
}
use wasm_runtime.DiskCache.Atomic.{whole, atomic_publish_calm}
use wasm_runtime.DiskCache.Authentic.{IsAuthentic}
use wasm_runtime.DiskCache.Loading.{calm, load_iff, load-entries}
use wasm_runtime.DiskCache.Names.{IsDashFree}
use wasm_runtime.DiskCache.Publishing.{encoded_metadata, publish-Leaves, publish_other}
use wasm_runtime.Failure.{ok}
use wasm_runtime.Files.{not_found, read, File, Files}
use wasm_runtime.Profiles.{WasiProfile}

-- Documented behaviour: HMAC takes a key of any length, `hex::decode` reads what `hex::encode`
-- wrote, and JSON of the derived serialisers is written and is read back.
pub record IsDocumented (x : Crates) : Type 0 where
  pub hmac_accepts_all : (key : Bytes) → x.hmac_accepts key ≡ true
  pub hex_decode-hex_encode : (bytes : Bytes) → x.hex_decode (x.hex_encode bytes) ≡ some bytes
  pub identity_bytes : CacheIdentity → Bytes
  pub identity_to_vec_lem : (id : CacheIdentity) → x.identity_to_vec id ≡ json (identity_bytes id)
  pub metadata_bytes : CacheMetadata → Bytes
  pub metadata_to_vec_lem : (m : CacheMetadata) → x.metadata_to_vec m ≡ json (metadata_bytes m)
  pub metadata_from_slice-metadata_bytes :
      (m : CacheMetadata) → x.metadata_from_slice (metadata_bytes m) ≡ json m

module _ (x : Crates) (documented : IsDocumented x) (disk : DiskCache) (d : Bytes) (p : WasiProfile)
    (artifact : Bytes) where
  abbrev fed : Bytes
  fed = cache_domain ++ (documented.identity_bytes (identity x disk d p) ++ artifact)

  abbrev published : CacheMetadata
  published = record {
    identity = identity x disk d p;
    artifact_len = length artifact;
    authentication_tag = x.hex_encode (finalize x disk fed);
  }

  encoded_published :
      encoded_metadata x disk d p artifact ≡ ok (documented.metadata_bytes published)
  unfolding authentication_tag
  encoded_published = ground (
    arith,
    documented.hmac_accepts_all disk.config.authentication_key,
    documented.identity_to_vec_lem (identity x disk d p),
    documented.metadata_to_vec_lem published,
  )

  published-IsAuthentic :
      (entries : Bytes → Option File) (metadata : Bytes)
      → encoded_metadata x disk d p artifact ≡ ok metadata
      → length artifact ≤ disk.config.max_entry_bytes
      → entries (artifact_path d p) ≡ some (whole artifact)
      → entries (metadata_path d p) ≡ some (whole metadata)
      → IsAuthentic x disk d p artifact entries
  published-IsAuthentic entries metadata e fits at_a at_m =
      let bytes : metadata ≡ documented.metadata_bytes published = cc (encoded_published) in
      record {
        metadata = published;
        encoded = documented.identity_bytes (identity x disk d p);
        metadata_file = whole metadata;
        artifact_file = whole artifact;
        metadata_at = at_m;
        artifact_at = at_a;
        contents = refl;
        parsed = rw bytes (documented.metadata_from_slice-metadata_bytes published);
        same_identity = refl;
        within = fits;
        exact = refl;
        key = documented.hmac_accepts_all disk.config.authentication_key;
        identity_bytes = documented.identity_to_vec_lem (identity x disk d p);
        tag = documented.hex_decode-hex_encode (finalize x disk fed);
      }

  -- A successful publication is what `load` gives then, whatever stood in the cache before.
  pub load-publish :
      (s : Files)
      → IsDashFree d
      → (publish x disk d p artifact s).0 ≡ ok tt
      → (load x disk d p (calm (publish x disk d p artifact s).1)).0 ≡ ok (some artifact)
  load-publish s f done = elim (publish-Leaves x disk d p artifact s f) [
    | inl (failed, old, kept) ↦ absurd (failed done)
    | inr (done', metadata, e, fits, at_a, at_m) ↦
        (load_iff x disk d p artifact (calm (publish x disk d p artifact s).1) refl).1 (
          published-IsAuthentic (publish x disk d p artifact s).1.entries metadata e fits at_a at_m)
  ]

  -- Where no operation fails, an artifact within the configured limit is published.
  publish_calm :
      (s : Files)
      → s.faults ≡ []
      → length artifact ≤ disk.config.max_entry_bytes
      → (publish x disk d p artifact s).0 ≡ ok tt
  unfolding publish authentication_tag
  publish_calm s c fits =
      let first = atomic_publish x (artifact_path d p) artifact s in
      let first_ok = atomic_publish_calm x (artifact_path d p) artifact s c in
      let second_ok =
        atomic_publish_calm x (metadata_path d p) (documented.metadata_bytes published) first.1
          first_ok.1 in
      ground (
        arith,
        documented.hmac_accepts_all disk.config.authentication_key,
        documented.identity_to_vec_lem (identity x disk d p),
        documented.metadata_to_vec_lem published,
        first_ok,
        second_ok,
      )

  -- Where no operation fails, an artifact within the configured limit whose digest has no dashes
  -- is published, and `load` then gives it, whatever stood in the cache before.
  pub load-publish-calm :
      (s : Files)
      → IsDashFree d
      → s.faults ≡ []
      → length artifact ≤ disk.config.max_entry_bytes
      → ((publish x disk d p artifact s).0 ≡ ok tt)
        × ((load x disk d p (calm (publish x disk d p artifact s).1)).0 ≡ ok (some artifact))
  load-publish-calm s f c fits = (publish_calm s c fits, load-publish s f (publish_calm s c fits))

  -- After a publication, also one that failed or was cut off at any operation and inside a write,
  -- `load` gives for its digest and profile no artifact but the one that it was publishing and the
  -- one whose file was there before. The digest has no dashes.
  pub load-publish_faults :
      (s : Files) (loaded : Bytes)
      → IsDashFree d
      → (load x disk d p (calm (publish x disk d p artifact s).1)).0 ≡ ok (some loaded)
      → (loaded ≡ artifact)
        ⊎ ((f : File) × (s.entries (artifact_path d p) ≡ some f) × (f.contents ≡ loaded))
  load-publish_faults s loaded f h =
      let after = (publish x disk d p artifact s).1 in
      let v = (load_iff x disk d p loaded (calm after) refl).0 h in
      let new : after.entries (artifact_path d p) ≡ some (whole artifact) → loaded ≡ artifact =
        λ at.
          (let same : v.artifact_file ≡ whole artifact = cc (v.artifact_at) in
            sym v.contents ∙ ap (λ (g : File). g.contents) same) in
      elim (publish-Leaves x disk d p artifact s f) [
        | inr (done, metadata, e, fits, at_a, at_m) ↦ inl (new at_a)
        | inl (failed, inr at_a, kept) ↦ inl (new at_a)
        | inl (failed, inl same, kept) ↦ inr (v.artifact_file, sym same ∙ v.artifact_at, v.contents)
      ]

  -- Whatever happens to a publication, `load` gives for every other digest or profile what it gave
  -- before, an artifact, a miss or an error. No operation fails in either load, and both digests have
  -- no dashes.
  pub load-publish_other :
      (s : Files) (d' : Bytes) (p' : WasiProfile)
      → IsDashFree d
      → IsDashFree d'
      → (d ≡ d' → p ≡ p' → ⊥)
      → (load x disk d' p' (calm (publish x disk d p artifact s).1)).0
        ≡ (load x disk d' p' (calm s)).0
  load-publish_other s d' p' f f' apart =
      load-entries x disk d' p' (calm (publish x disk d p artifact s).1) (calm s) refl refl
        (publish_other x disk d p artifact s d' p' (codes "aot") f f' (inl refl) apart)
        (publish_other x disk d p artifact s d' p' (codes "aot.json") f f' (inr refl) apart)

  -- A publication into an empty place that fails behind its first rename leaves the artifact
  -- without metadata, and every later `load` of it is an error, not a miss, where no operation
  -- fails any more. The digest has no dashes.
  pub load-publish_orphan :
      (s : Files) (f : File)
      → IsDashFree d
      → s.entries (metadata_path d p) ≡ none
      → (publish x disk d p artifact s).0 ≢ ok tt
      → (publish x disk d p artifact s).1.entries (artifact_path d p) ≡ some f
      → (load x disk d p (calm (publish x disk d p artifact s).1)).0
        ≡ err (cache (text "metadata read failed: " ∷ not_found))
  unfolding load load_metadata read
  load-publish_orphan s f dash empty failed there =
      elim (publish-Leaves x disk d p artifact s dash) [
        | inr (done, m, e, fits, at_a, at_m) ↦ absurd (failed done)
        | inl (failed', left, kept) ↦ ground (arith, kept, there, empty)
      ]
