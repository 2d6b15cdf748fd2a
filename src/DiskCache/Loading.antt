-- ===== src/DiskCache/Loading.antt =====
-- src/cache.rs: which artifacts `load` accepts, and what it gives behind a publication.
use mathlib.Core.Path.{subst}
use wasm_runtime.Base.{
  ◌≤◌, ◌≡◌, ◌↔◌, refl, true, not, ◌&&◌, Option, none, some, [], ◌++◌, Bytes, equal→eq, equal_refl,
  arith, length, inl, inr, Bool-cases, Option-cases,
}
use wasm_runtime.DiskCache.{
  json, Json-cases, CacheIdentity, CacheMetadata, Crates, DiskCache, cache_domain, artifact_path,
  metadata_path, identity, authentication_tag, finalize, load_metadata, load_artifact, load,
}
use wasm_runtime.Failure.Stateful.{continue-value}
use wasm_runtime.Failure.{Result, ok, Result-cases}
use wasm_runtime.Files.{File, Files, Io, continue, lift, exists, read, passed, continue-eq-ok}
use wasm_runtime.Profiles.{WasiProfile}
use wasm_runtime.DiskCache.Authentic.{identity_eq_iff, IsAuthentic}

-- No operation to come fails.
abbrev pub calm : Files → Files
calm s = record s { faults = [] }

module _ (x : Crates) (disk : DiskCache) where
  load_metadata-eq-ok :
      (digest : Bytes) (profile : WasiProfile) (s : Files) (metadata : CacheMetadata)
      → (load_metadata x disk digest profile s).0 ≡ ok metadata
      → (f : File) × (s.entries (metadata_path digest profile) ≡ some f)
        × (x.metadata_from_slice f.contents ≡ json metadata)
        × (metadata.identity ≡ identity x disk digest profile)
        × (metadata.artifact_len ≤ disk.config.max_entry_bytes)
  unfolding load_metadata read
  load_metadata-eq-ok digest profile s metadata h =
      elim (Option-cases (s.entries (metadata_path digest profile))) [
        | inl absent ↦ ground arith
        | inr (f, found) ↦ (
          f,
          found,
          ground arith,
          ground (arith, identity_eq_iff metadata.identity (identity x disk digest profile)),
          ground arith,
        )
      ]

  load_metadata-state :
      (digest : Bytes) (profile : WasiProfile) (s : Files)
      → (load_metadata x disk digest profile s).1 ≡ passed s
  unfolding load_metadata read
  load_metadata-state digest profile s = ground arith

  authentication_tag-eq-ok :
      (id : CacheIdentity) (artifact fed : Bytes)
      → authentication_tag x disk id artifact ≡ ok fed
      → (x.hmac_accepts disk.config.authentication_key ≡ true)
        × (encoded : Bytes) × (x.identity_to_vec id ≡ json encoded)
        × (fed ≡ cache_domain ++ (encoded ++ artifact))
  unfolding authentication_tag
  authentication_tag-eq-ok id artifact fed h =
      elim (Bool-cases (x.hmac_accepts disk.config.authentication_key)) [
        | inr refused ↦ ground arith
        | inl accepted ↦ elim (Json-cases (x.identity_to_vec id)) [
          | inl (encoded, e) ↦ (accepted, encoded, e, ground arith)
          | inr (m, e) ↦ ground arith
        ]
      ]

  load_artifact-eq-ok :
      (digest : Bytes) (profile : WasiProfile) (metadata : CacheMetadata) (s : Files)
      (artifact : Bytes)
      → (load_artifact x disk digest profile metadata s).0 ≡ ok artifact
      → (f : File) × (s.entries (artifact_path digest profile) ≡ some f)
        × (f.contents ≡ artifact)
        × (length artifact ≡ metadata.artifact_len)
        × (fed : Bytes) × (authentication_tag x disk (identity x disk digest profile) artifact
            ≡ ok fed)
        × (x.hex_decode metadata.authentication_tag ≡ some (finalize x disk fed))
  unfolding load_artifact read
  load_artifact-eq-ok digest profile metadata s artifact h =
      elim (Option-cases (s.entries (artifact_path digest profile))) [
        | inl absent ↦ ground arith
        | inr (f, found) ↦
            let same : f.contents ≡ artifact = ground arith in
            elim (Result-cases
              (authentication_tag x disk (identity x disk digest profile) f.contents)) [
                | inl (fed, e) ↦ (
                  f,
                  found,
                  same,
                  ground arith,
                  fed,
                  rw (← same) e,
                  elim (Option-cases (x.hex_decode metadata.authentication_tag)) [
                    | inl bad ↦ ground arith
                    | inr (supplied, e') ↦ ground (arith, equal→eq (finalize x disk fed) supplied)
                  ],
                )
                | inr bad ↦ ground arith
              ]
      ]

  -- `load` where a file is there.
  abbrev load_present : Bytes → WasiProfile → Io (Option Bytes)
  load_present digest profile s = continue (load_metadata x disk digest profile s) λ metadata t.
      continue (load_artifact x disk digest profile metadata t)
        λ artifact. lift (ok (some artifact))

  load-present :
      (digest : Bytes) (profile : WasiProfile) (s : Files) (artifact : Bytes)
      → (load x disk digest profile s).0 ≡ ok (some artifact)
      → (load_present digest profile s).0 ≡ ok (some artifact)
  unfolding load
  load-present digest profile s artifact h =
      elim (Bool-cases (
        not (exists (artifact_path digest profile) s)
        && not (exists (metadata_path digest profile) s))) [
          | inl absent ↦ absurd (absurd_none (rw absent at h))
          | inr there ↦ rw there at h
        ]
    where
      absurd_none : ◌≡◌ {A = Result (Option Bytes)} (ok none) (ok (some artifact)) → ⊥
      absurd_none e = cc

  load-IsAuthentic :
      (digest : Bytes) (profile : WasiProfile) (s : Files) (artifact : Bytes)
      → (load x disk digest profile s).0 ≡ ok (some artifact)
      → IsAuthentic x disk digest profile artifact s.entries
  load-IsAuthentic digest profile s artifact h =
      let (metadata, got, rest) =
        continue-eq-ok (load_metadata x disk digest profile s)
          (λ metadata t.
            continue (load_artifact x disk digest profile metadata t)
              λ artifact. lift (ok (some artifact)))
          (load-present digest profile s artifact h) in
      let (a, got', last) =
        continue-eq-ok
          (load_artifact x disk digest profile metadata (load_metadata x disk digest profile s).1)
          (λ artifact. lift (ok (some artifact))) rest in
      let same : a ≡ artifact = cc in
      let (f, at, parsed, id, within) = load_metadata-eq-ok digest profile s metadata got in
      let (g, at', contents, exact, fed, tagged, supplied) =
        load_artifact-eq-ok digest profile metadata (passed s) artifact (
          subst (λ t. (load_artifact x disk digest profile metadata t).0 ≡ ok artifact)
            (load_metadata-state digest profile s) (rw same at got')) in
      let (key, encoded, bytes, message) =
        authentication_tag-eq-ok (identity x disk digest profile) artifact fed tagged in
      record {
        metadata = metadata;
        encoded = encoded;
        metadata_file = f;
        artifact_file = g;
        metadata_at = at;
        artifact_at = at';
        contents = contents;
        parsed = parsed;
        same_identity = id;
        within = within;
        exact = exact;
        key = key;
        identity_bytes = bytes;
        tag = rw message at supplied;
      }

  load_metadata-IsAuthentic :
      (digest : Bytes) (profile : WasiProfile) (s : Files) (artifact : Bytes)
      (v : IsAuthentic x disk digest profile artifact s.entries)
      → s.faults ≡ []
      → load_metadata x disk digest profile s ≡ (ok v.metadata, passed s)
  unfolding load_metadata read
  load_metadata-IsAuthentic digest profile s artifact v c = ground (
    arith,
    v.metadata_at,
    v.parsed,
    (identity_eq_iff v.metadata.identity (identity x disk digest profile)).1 v.same_identity,
    v.within,
  )

  load_artifact-IsAuthentic :
      (digest : Bytes) (profile : WasiProfile) (s : Files) (artifact : Bytes)
      (v : IsAuthentic x disk digest profile artifact s.entries)
      → s.faults ≡ []
      → load_artifact x disk digest profile v.metadata s ≡ (ok artifact, passed s)
  unfolding load_artifact read authentication_tag
  load_artifact-IsAuthentic digest profile s artifact v c =
      let tag =
        x.hmac_sha256 disk.config.authentication_key (cache_domain ++ (v.encoded ++ artifact)) in
      ground
        (arith, v.artifact_at, v.contents, v.exact, v.key, v.identity_bytes, v.tag, equal_refl tag)

  load-eq-some :
      (digest : Bytes) (profile : WasiProfile) (s : Files) (artifact : Bytes)
      → IsAuthentic x disk digest profile artifact s.entries
      → s.faults ≡ []
      → (load x disk digest profile s).0 ≡ ok (some artifact)
  unfolding load
  load-eq-some digest profile s artifact v c =
      let metadata = load_metadata-IsAuthentic digest profile s artifact v c in
      let rest = load_artifact-IsAuthentic digest profile (passed s) artifact v (rw c refl) in
      ground (arith, v.metadata_at, metadata, rest)

  -- Where no operation fails, `load` returns an artifact exactly if the two files of the digest and
  -- profile hold it with the cache's own identity, its length, within the configured limit, and the
  -- tag that the key gives for the domain, the identity and these bytes.
  pub load_iff :
      (digest : Bytes) (profile : WasiProfile) (artifact : Bytes) (s : Files)
      → s.faults ≡ []
      → ((load x disk digest profile s).0 ≡ ok (some artifact))
        ↔ IsAuthentic x disk digest profile artifact s.entries
  load_iff digest profile artifact s c =
      (load-IsAuthentic digest profile s artifact, λ v. load-eq-some digest profile s artifact v c)

  load_artifact-entries :
      (digest : Bytes) (profile : WasiProfile) (metadata : CacheMetadata) (s t : Files)
      → s.faults ≡ []
      → t.faults ≡ []
      → s.entries (artifact_path digest profile) ≡ t.entries (artifact_path digest profile)
      → (load_artifact x disk digest profile metadata s).0
        ≡ (load_artifact x disk digest profile metadata t).0
  unfolding load_artifact read
  load_artifact-entries digest profile metadata s t calm_s calm_t same = ground (arith, same)

  load_metadata-entries :
      (digest : Bytes) (profile : WasiProfile) (s t : Files)
      → s.faults ≡ []
      → t.faults ≡ []
      → s.entries (metadata_path digest profile) ≡ t.entries (metadata_path digest profile)
      → (load_metadata x disk digest profile s).0 ≡ (load_metadata x disk digest profile t).0
  unfolding load_metadata read
  load_metadata-entries digest profile s t calm_s calm_t same = ground (arith, same)

  -- Where no operation fails, only the two files of the digest and profile matter.
  pub load-entries :
      (digest : Bytes) (profile : WasiProfile) (s t : Files)
      → s.faults ≡ []
      → t.faults ≡ []
      → s.entries (artifact_path digest profile) ≡ t.entries (artifact_path digest profile)
      → s.entries (metadata_path digest profile) ≡ t.entries (metadata_path digest profile)
      → (load x disk digest profile s).0 ≡ (load x disk digest profile t).0
  unfolding load
  load-entries digest profile s t calm_s calm_t same_artifact same_metadata =
      let present : (load_present digest profile s).0 ≡ (load_present digest profile t).0 =
        continue-value _ _ _ _
          (load_metadata-entries digest profile s t calm_s calm_t same_metadata)
          λ metadata.
            continue-value _ _ _ _
              (load_artifact-entries digest profile metadata _ _
                (rw (load_metadata-state digest profile s, calm_s) refl)
                (rw (load_metadata-state digest profile t, calm_t) refl)
                (rw (load_metadata-state digest profile s, load_metadata-state digest profile t)
                  same_artifact))
              λ artifact. refl in
      ground (arith, present, same_artifact, same_metadata)
