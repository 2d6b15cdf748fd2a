-- ===== src/DiskCache/Names.antt =====
-- src/cache.rs: the file names of `paths`, and the temporary names beside them.
use wasm_runtime.Base.{
  ◌≡◌, refl, true, not, none, some, [], ◌∷◌, ◌++◌, append_assoc, Bytes, codes, all, ◌==◌, arith,
}
use wasm_runtime.DiskCache.{
  profile_name, file_name, artifact_path, metadata_path, before_last_dot, stem_or, with_extension,
}
use wasm_runtime.Profiles.{WasiProfile, cli0_3, cli0_2, http0_3, http0_2}

-- A text in which `-` does not stand, such as a digest in hexadecimal.
abbrev pub IsDashFree : Bytes → Type 0
IsDashFree name = all (λ b. not (b == b'-')) name ≡ true

before_last_dot-append :
    (front back : Bytes)
    → before_last_dot back ≡ none
    → before_last_dot (front ++ (b'.' ∷ back)) ≡ some front
unfolding before_last_dot
before_last_dot-append [] back h = ground arith
before_last_dot-append (c ∷ front) back h = ground (arith, before_last_dot-append front back h)

cancel_left : (front a b : Bytes) → front ++ a ≡ front ++ b → a ≡ b
cancel_left [] a b h = h
cancel_left (c ∷ front) a b h = cancel_left front a b (cc)

split_dash :
    (d d' r r' : Bytes)
    → IsDashFree d
    → IsDashFree d'
    → d ++ (b'-' ∷ r) ≡ d' ++ (b'-' ∷ r')
    → (d ≡ d') × (r ≡ r')
split_dash [] [] r r' f f' h = (refl, cc)
split_dash [] (c ∷ d') r r' f f' h = ground arith
split_dash (c ∷ d) [] r r' f f' h = ground arith
split_dash (c ∷ d) (c' ∷ d') r r' f f' h = ground (arith, split_dash d d' r r')

profile_name-injective :
    (p p' : WasiProfile) (e e' : Bytes)
    → profile_name p ++ (b'.' ∷ e) ≡ profile_name p' ++ (b'.' ∷ e')
    → (p ≡ p') × (e ≡ e')
unfolding profile_name
profile_name-injective cli0_3 cli0_3 e e' h = (refl, cc)
profile_name-injective cli0_2 cli0_2 e e' h = (refl, cc)
profile_name-injective http0_3 http0_3 e e' h = (refl, cc)
profile_name-injective http0_2 http0_2 e e' h = (refl, cc)
profile_name-injective cli0_3 cli0_2 e e' h = ground arith
profile_name-injective cli0_3 http0_3 e e' h = ground arith
profile_name-injective cli0_3 http0_2 e e' h = ground arith
profile_name-injective cli0_2 cli0_3 e e' h = ground arith
profile_name-injective cli0_2 http0_3 e e' h = ground arith
profile_name-injective cli0_2 http0_2 e e' h = ground arith
profile_name-injective http0_3 cli0_3 e e' h = ground arith
profile_name-injective http0_3 cli0_2 e e' h = ground arith
profile_name-injective http0_3 http0_2 e e' h = ground arith
profile_name-injective http0_2 cli0_3 e e' h = ground arith
profile_name-injective http0_2 cli0_2 e e' h = ground arith
profile_name-injective http0_2 http0_3 e e' h = ground arith

-- A file name spells its digest, profile and extension.
pub file_name-injective :
    (d d' : Bytes) (p p' : WasiProfile) (e e' : Bytes)
    → IsDashFree d
    → IsDashFree d'
    → file_name d p e ≡ file_name d' p' e'
    → (d ≡ d') × (p ≡ p') × (e ≡ e')
unfolding file_name
file_name-injective d d' p p' e e' f f' h =
    let outer =
      split_dash d d' (profile_name p ++ (b'.' ∷ e)) (profile_name p' ++ (b'.' ∷ e')) f f' h in
    let inner = profile_name-injective p p' e e' outer.1 in (outer.0, inner.0, inner.1)

stem_or-dash : (d rest name : Bytes) → stem_or name (some (d ++ (b'-' ∷ rest))) ≡ d ++ (b'-' ∷ rest)
stem_or-dash [] rest name = refl
stem_or-dash (c ∷ d) rest name = refl

with_extension_at :
    (extension d rest back : Bytes)
    → before_last_dot back ≡ none
    → with_extension extension ((d ++ (b'-' ∷ rest)) ++ (b'.' ∷ back))
      ≡ (d ++ (b'-' ∷ rest)) ++ (b'.' ∷ extension)
unfolding with_extension
with_extension_at extension d rest back h =
    rw (before_last_dot-append (d ++ (b'-' ∷ rest)) back h)
      (rw (stem_or-dash d rest ((d ++ (b'-' ∷ rest)) ++ (b'.' ∷ back))) refl)

spelled :
    (d : Bytes) (p : WasiProfile) (e : Bytes)
    → file_name d p e ≡ (d ++ (b'-' ∷ profile_name p)) ++ (b'.' ∷ e)
unfolding file_name
spelled d p e = simp append_assoc

-- The temporary files stand beside the file that they become.
pub with_extension-artifact_path :
    (extension d : Bytes) (p : WasiProfile)
    → with_extension extension (artifact_path d p) ≡ file_name d p extension
unfolding before_last_dot
with_extension-artifact_path extension d p =
    rw (spelled d p (codes "aot"), spelled d p extension)
      (with_extension_at extension d (profile_name p) (codes "aot") refl)

spelled_twice :
    (d : Bytes) (p : WasiProfile) (e : Bytes)
    → file_name d p (codes "aot." ++ e)
      ≡ (d ++ (b'-' ∷ (profile_name p ++ codes ".aot"))) ++ (b'.' ∷ e)
unfolding file_name
spelled_twice d p e = simp append_assoc

pub with_extension-metadata_path :
    (extension d : Bytes) (p : WasiProfile)
    → with_extension extension (metadata_path d p) ≡ file_name d p (codes "aot." ++ extension)
unfolding before_last_dot
with_extension-metadata_path extension d p =
    rw (spelled_twice d p (codes "json"), spelled_twice d p extension)
      (with_extension_at extension d (profile_name p ++ codes ".aot") (codes "json") refl)
