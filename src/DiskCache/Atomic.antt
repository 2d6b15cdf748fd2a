-- ===== src/DiskCache/Atomic.antt =====
-- src/cache.rs: one atomic publication of a file.
use wasm_runtime.Base.{
  [], ℕ, ◌≡◌, ◌≢◌, refl, sym, ◌∙◌, true, false, some, ◌++◌, Bytes, codes, equal, arith, equal_refl,
  ◌⊎◌, inl, inr,
}
use wasm_runtime.Base.Maps.{equal-false}
use wasm_runtime.DiskCache.{
  Crates, file_name, artifact_path, metadata_path, with_extension, decimal, atomic_publish,
}
use wasm_runtime.DiskCache.Names.{
  IsDashFree, file_name-injective, with_extension-artifact_path, with_extension-metadata_path,
}
use wasm_runtime.Failure.{Result, ok, err, panic, stuck}
use wasm_runtime.Files.{File, Files, Io, continue, write, set_private_file, rename, fetch_add}
use wasm_runtime.Profiles.{WasiProfile}

-- The extensions of cached files.
abbrev pub IsFinal : Bytes → Type 0
IsFinal e = (e ≡ codes "aot") ⊎ (e ≡ codes "aot.json")

-- The complete new content of a file.
abbrev pub whole : Bytes → File
whole bytes = record { contents = bytes; private = true }

pub continue_ok :
    {A : Type 0} (first : Result (Unit {0}) × Files) (next : Io A)
    → first.0 ≡ ok tt
    → continue first (λ done. next) ≡ next first.1
continue_ok first next h = ground arith

pub continue_stop :
    (first : Result (Unit {0}) × Files) (next : Io (Unit {0}))
    → first.0 ≢ ok tt
    → continue first (λ done. next) ≡ first
continue_stop (ok tt, s) next h = absurd (h refl)
continue_stop (err e, s) next h = refl
continue_stop (panic, s) next h = refl
continue_stop (stuck, s) next h = refl

pub is_done : (r : Result (Unit {0})) → (r ≡ ok tt) ⊎ (r ≢ ok tt)
is_done (ok tt) = inl refl
is_done (err e) = inr (λ h. cc)
is_done panic = inr (λ h. cc)
is_done stuck = inr (λ h. cc)

pub names_apart :
    (d d' : Bytes) (p p' : WasiProfile) (e e' : Bytes)
    → IsDashFree d
    → IsDashFree d'
    → (d ≡ d' → p ≡ p' → e ≡ e' → ⊥)
    → equal (file_name d p e) (file_name d' p' e') ≡ false
names_apart d d' p p' e e' f f' apart =
    equal-false _ _
      λ h. let same = file_name-injective d d' p p' e e' f f' h in apart same.0 same.1 same.2

module _ (x : Crates) where
  abbrev pub extension_at : ℕ → Bytes
  extension_at sequence = codes "tmp-" ++ (decimal x.process_id ++ (codes "-" ++ decimal sequence))

  abbrev pub temporary : Bytes → ℕ → Bytes
  temporary path sequence = with_extension (extension_at sequence) path

  pub atomic_publish_other :
      (path bytes name : Bytes) (s : Files)
      → equal (temporary path s.temp_sequence) name ≡ false
      → equal path name ≡ false
      → (atomic_publish x path bytes s).1.entries name ≡ s.entries name
  unfolding atomic_publish fetch_add write set_private_file rename
  atomic_publish_other path bytes name s t p = ground arith

  -- The rename comes last: the file is replaced exactly if the operation succeeds.
  pub atomic_publish_path :
      (path bytes : Bytes) (s : Files)
      → equal (temporary path s.temp_sequence) path ≡ false
      → (((atomic_publish x path bytes s).0 ≡ ok tt)
          × ((atomic_publish x path bytes s).1.entries path ≡ some (whole bytes)))
        ⊎ (((atomic_publish x path bytes s).0 ≢ ok tt)
            × ((atomic_publish x path bytes s).1.entries path ≡ s.entries path))
  unfolding atomic_publish fetch_add write set_private_file rename
  atomic_publish_path path bytes s t =
      ground (arith, equal_refl path, equal_refl (temporary path s.temp_sequence))

  -- The names of temporary files are no names of cached files.
  module _ (d d' : Bytes) (p p' : WasiProfile) (e : Bytes) where
    pub temporary-artifact_path :
        (n : ℕ)
        → IsDashFree d
        → IsDashFree d'
        → IsFinal e
        → equal (temporary (artifact_path d p) n) (file_name d' p' e) ≡ false
    temporary-artifact_path n f f' fin = equal-false _ _ λ h.
        let same =
          (file_name-injective d d' p p' (extension_at n) e f f'
            (sym (with_extension-artifact_path (extension_at n) d p) ∙ h)).2 in
        ground arith

    pub temporary-metadata_path :
        (n : ℕ)
        → IsDashFree d
        → IsDashFree d'
        → IsFinal e
        → equal (temporary (metadata_path d p) n) (file_name d' p' e) ≡ false
    temporary-metadata_path n f f' fin = equal-false _ _ λ h.
        let same =
          (file_name-injective d d' p p' (codes "aot." ++ extension_at n) e f f'
            (sym (with_extension-metadata_path (extension_at n) d p) ∙ h)).2 in
        ground arith

  -- Where no operation fails, the file is published.
  pub atomic_publish_calm :
      (path bytes : Bytes) (s : Files)
      → s.faults ≡ []
      → ((atomic_publish x path bytes s).0 ≡ ok tt)
        × ((atomic_publish x path bytes s).1.faults ≡ [])
  unfolding atomic_publish fetch_add write set_private_file rename
  atomic_publish_calm path bytes s c = ground (arith, equal_refl (temporary path s.temp_sequence))
