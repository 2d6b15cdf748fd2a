-- ===== src/DiskCache/Publishing.antt =====
-- src/cache.rs: what `publish` leaves on disk, whatever fails.
use mathlib.Core.Path.{subst}
use wasm_runtime.Base.{
  ◌≤◌, ◌≡◌, ◌≢◌, refl, sym, ◌∙◌, Option, some, [], ◌∷◌, Bytes, codes, arith, ltb, length, ◌⊎◌, inl,
  inr, Bool-cases,
}
use wasm_runtime.DiskCache.{
  Json, Json-cases, json_or, authentication_tag, identity, finalize, Crates, DiskCache, file_name,
  artifact_path, metadata_path, atomic_publish, publish,
}
use wasm_runtime.DiskCache.Names.{IsDashFree}
use wasm_runtime.Failure.{Result, ok, ◌>>=◌, Result-cases, text}
use wasm_runtime.Files.{File, Files, Io, continue}
use wasm_runtime.Profiles.{WasiProfile}
use wasm_runtime.DiskCache.Atomic.{
  IsFinal, whole, continue_ok, continue_stop, is_done, names_apart, atomic_publish_other,
  atomic_publish_path, temporary-artifact_path, temporary-metadata_path,
}

module _ (x : Crates) where
  module _ (disk : DiskCache) (d : Bytes) (p : WasiProfile) (artifact : Bytes) where
    abbrev metadata_json : Bytes → Json Bytes
    metadata_json fed = x.metadata_to_vec (record {
      identity = identity x disk d p;
      artifact_len = length artifact;
      authentication_tag = x.hex_encode (finalize x disk fed);
    })

    -- The bytes of the metadata that `publish` writes.
    abbrev pub encoded_metadata : Result Bytes
    encoded_metadata = authentication_tag x disk (identity x disk d p) artifact >>= λ fed.
        json_or (metadata_json fed) (text "metadata encoding failed: " ∷ [])

    abbrev both_files : Bytes → Io (Unit {0})
    both_files metadata s =
        continue (atomic_publish x (artifact_path d p) artifact s)
          (λ done. atomic_publish x (metadata_path d p) metadata)

    -- Either nothing was written, or both files were tried in turn.
    publish-cases :
        (s : Files)
        → (((publish x disk d p artifact s).1 ≡ s) × ((publish x disk d p artifact s).0 ≢ ok tt))
          ⊎ ((metadata : Bytes) × (encoded_metadata ≡ ok metadata)
              × (length artifact ≤ disk.config.max_entry_bytes)
              × (publish x disk d p artifact s ≡ both_files metadata s))
    unfolding publish
    publish-cases s = elim (Bool-cases (ltb disk.config.max_entry_bytes (length artifact))) [
      | inl large ↦ inl (ground arith, ground arith)
      | inr fits ↦ elim (Result-cases (authentication_tag x disk (identity x disk d p) artifact)) [
        | inl (fed, e) ↦ elim (Json-cases (metadata_json fed)) [
          | inl (bytes, j) ↦ inr (bytes, rw (e, j) refl, ground arith, rw (fits, e, j) refl)
          | inr (m, j) ↦ inl (rw (fits, e, j) refl, rw (fits, e, j) (λ h. cc))
        ]
        | inr (inl (f, e)) ↦ inl (rw (fits, e) refl, rw (fits, e) (λ h. cc))
        | inr (inr (inl e)) ↦ inl (rw (fits, e) refl, rw (fits, e) (λ h. cc))
        | inr (inr (inr e)) ↦ inl (rw (fits, e) refl, rw (fits, e) (λ h. cc))
      ]
    ]

    -- What a publication leaves of its two files.
    abbrev pub Leaves : Result (Unit {0}) → (Bytes → Option File) → (Bytes → Option File) → Type 0
    Leaves r before after =
        ((r ≢ ok tt)
          × ((after (artifact_path d p) ≡ before (artifact_path d p))
              ⊎ (after (artifact_path d p) ≡ some (whole artifact)))
          × (after (metadata_path d p) ≡ before (metadata_path d p)))
        ⊎ ((r ≡ ok tt)
            × (metadata : Bytes) × (encoded_metadata ≡ ok metadata)
            × (length artifact ≤ disk.config.max_entry_bytes)
            × (after (artifact_path d p) ≡ some (whole artifact))
            × (after (metadata_path d p) ≡ some (whole metadata)))

    both_files-Leaves :
        (metadata : Bytes) (s : Files)
        → IsDashFree d
        → encoded_metadata ≡ ok metadata
        → length artifact ≤ disk.config.max_entry_bytes
        → Leaves (both_files metadata s).0 s.entries (both_files metadata s).1.entries
    both_files-Leaves metadata s f e fits =
        let first = atomic_publish x (artifact_path d p) artifact s in
        let apart =
          names_apart d d p p (codes "aot") (codes "aot.json") f f (λ i j k. ground arith) in
        let apart' =
          names_apart d d p p (codes "aot.json") (codes "aot") f f (λ i j k. ground arith) in
        let kept : first.1.entries (metadata_path d p) ≡ s.entries (metadata_path d p) =
          atomic_publish_other x (artifact_path d p) artifact (metadata_path d p) s
            (temporary-artifact_path x d d p p (codes "aot.json") s.temp_sequence f f (inr refl))
            apart in
        elim (atomic_publish_path x (artifact_path d p) artifact s
          (temporary-artifact_path x d d p p (codes "aot") s.temp_sequence f f (inl refl))) [
            | inr (failed, same) ↦
                subst Left
                  (sym (continue_stop first (atomic_publish x (metadata_path d p) metadata) failed))
                  (inl (failed, inl same, kept))
            | inl (done, new) ↦
                let left =
                  atomic_publish_other x (metadata_path d p) metadata (artifact_path d p) first.1
                    (temporary-metadata_path x d d p p (codes "aot") first.1.temp_sequence f f
                      (inl refl))
                    apart' in
                subst Left
                  (sym (continue_ok first (atomic_publish x (metadata_path d p) metadata) done))
                  (elim (atomic_publish_path x (metadata_path d p) metadata first.1 (
                    temporary-metadata_path x d d p p (codes "aot.json") first.1.temp_sequence f f
                      (inr refl))) [
                        | inl (done', new') ↦ inr (done', metadata, e, fits, left ∙ new, new')
                        | inr (failed', same') ↦ inl (failed', inr (left ∙ new), same' ∙ kept)
                      ])
          ]
      where
        Left : Result (Unit {0}) × Files → Type 0
        Left r = Leaves r.0 s.entries r.1.entries

    -- After a publication, whatever failed and however much of a write was done, the artifact of a
    -- digest without dashes is the old file or the complete new one with mode 0600; its metadata is
    -- replaced, as a whole and with that mode, exactly if `publish` succeeds; and then the artifact
    -- is the new one and within the configured limit.
    pub publish-Leaves :
        (s : Files)
        → IsDashFree d
        → Leaves
            (publish x disk d p artifact s).0
            s.entries
            (publish x disk d p artifact s).1.entries
    publish-Leaves s f = elim (publish-cases s) [
      | inl (same, failed) ↦ inl (failed, inl (rw same refl), rw same refl)
      | inr (metadata, e, fits, run) ↦ rw run (both_files-Leaves metadata s f e fits)
    ]

    pub publish_other :
        (s : Files) (d' : Bytes) (p' : WasiProfile) (e : Bytes)
        → IsDashFree d
        → IsDashFree d'
        → IsFinal e
        → (d ≡ d' → p ≡ p' → ⊥)
        → (publish x disk d p artifact s).1.entries (file_name d' p' e)
          ≡ s.entries (file_name d' p' e)
    publish_other s d' p' e f f' fin apart = elim (publish-cases s) [
      | inl (same, failed) ↦ rw same refl
      | inr (metadata, encoded, fits, run) ↦
          let first = atomic_publish x (artifact_path d p) artifact s in
          let apart_a = names_apart d d' p p' (codes "aot") e f f' (λ i j k. apart i j) in
          let apart_m = names_apart d d' p p' (codes "aot.json") e f f' (λ i j k. apart i j) in
          let kept : first.1.entries (file_name d' p' e) ≡ s.entries (file_name d' p' e) =
            atomic_publish_other x (artifact_path d p) artifact (file_name d' p' e) s
              (temporary-artifact_path x d d' p p' e s.temp_sequence f f' fin) apart_a in
          let second = atomic_publish x (metadata_path d p) metadata in
          rw run (elim (is_done first.0) [
            | inr failed ↦ rw (continue_stop first second failed) kept
            | inl done ↦ rw (continue_ok first second done) (
                atomic_publish_other x (metadata_path d p) metadata (file_name d' p' e) first.1
                  (temporary-metadata_path x d d' p p' e first.1.temp_sequence f f' fin) apart_m
                ∙ kept)
          ])
    ]
