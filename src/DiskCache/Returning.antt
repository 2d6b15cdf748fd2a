-- ===== src/DiskCache/Returning.antt =====
-- src/cache.rs: `load` returns.
use mathlib.Core.Path.{sym, subst}
use wasm_runtime.Base.{
  [], ◌∷◌, ◌++◌, Option-cases, not, ◌&&◌, Option, none, some, Bytes, ◌≡◌, inl, inr, arith,
  Bool-cases, length, ltb, equal, ◌==◌,
}
use wasm_runtime.DiskCache.{
  cache_domain, text, cache, Json-cases, exists, CacheIdentity, Json, json, malformed, json_or,
  CacheMetadata, Crates, DiskCache, identity, identity_eq, authentication_tag, finalize,
  load_metadata, load_artifact, load, artifact_path, metadata_path,
}
use wasm_runtime.Failure.{
  Message, Error, Result, ok, err, panic, stuck, ok_or, Returns, reject-Returns,
}
use wasm_runtime.Failure.Stateful.{Post, Post-continue}
use wasm_runtime.Files.{not_found, passed, reason, fault_of, Files, continue, read}
use wasm_runtime.Profiles.{WasiProfile}

-- A run that neither panics nor goes on forever.
abbrev pub RunReturns : {S A : Type 0} → Result A × S → Type 0
RunReturns = Post (λ a s. Unit {0}) (λ s. Unit {0})

continue-RunReturns :
    {S A B : Type 0} (first : Result A × S) (next : A → S → Result B × S)
    → RunReturns first
    → ((a : A) (s : S) → RunReturns (next a s))
    → RunReturns (continue first next)
continue-RunReturns first next h k =
    Post-continue (λ a s. Unit {0}) _ _ first next h (λ a s u. k a s)

lift-RunReturns : {S A : Type 0} (r : Result A) (s : S) → Returns r → RunReturns (r, s)
lift-RunReturns (ok a) s h = tt
lift-RunReturns (err e) s h = tt
lift-RunReturns panic s h = h
lift-RunReturns stuck s h = h

pub Returns-RunReturns : {S A : Type 0} (r : Result A × S) → RunReturns r → Returns r.0
Returns-RunReturns (ok a, s) h = tt
Returns-RunReturns (err e, s) h = tt
Returns-RunReturns (panic, s) h = h
Returns-RunReturns (stuck, s) h = h

read-RunReturns :
    (to_error : Message → Error) (name : Bytes) (s : Files) → RunReturns (read to_error name s)
unfolding read
read-RunReturns to_error name s = elim (Option-cases (fault_of s)) [
  | inr (f, e) ↦
      let run : read to_error name s ≡ (err (to_error (reason f)), passed s) = ground arith in
      subst RunReturns (sym run) tt
  | inl calm ↦ elim (Option-cases (s.entries name)) [
    | inl absent ↦
        let run : read to_error name s ≡ (err (to_error not_found), passed s) = ground arith in
        subst RunReturns (sym run) tt
    | inr (f, found) ↦
        let run : read to_error name s ≡ (ok f.contents, passed s) = ground arith in
        subst RunReturns (sym run) tt
  ]
]

json_or-Returns : {A : Type 0} (j : Json A) (m : Message) → Returns (json_or j m)
json_or-Returns (json a) m = tt
json_or-Returns (malformed e) m = tt

ok_or-Returns : {A : Type 0} (o : Option A) (e : Error) → Returns (ok_or o e)
ok_or-Returns (some a) e = tt
ok_or-Returns none e = tt

module _ (x : Crates) (disk : DiskCache) where
  authentication_tag-Returns :
      (id : CacheIdentity) (artifact : Bytes) → Returns (authentication_tag x disk id artifact)
  unfolding authentication_tag
  authentication_tag-Returns id artifact =
      elim (Bool-cases (x.hmac_accepts disk.config.authentication_key)) [
        | inr refused ↦
            let run : authentication_tag x disk id artifact
                ≡ err (cache (text "authentication key is invalid" ∷ [])) =
              ground arith in
            subst Returns (sym run) tt
        | inl accepted ↦ elim (Json-cases (x.identity_to_vec id)) [
          | inl (encoded, e) ↦
              let run : authentication_tag x disk id artifact
                  ≡ ok (cache_domain ++ (encoded ++ artifact)) =
                ground arith in
              subst Returns (sym run) tt
          | inr (m, e) ↦
              let run : authentication_tag x disk id artifact
                  ≡ err (cache (text "identity encoding failed: " ∷ m)) =
                ground arith in
              subst Returns (sym run) tt
        ]
      ]

  load_metadata-RunReturns :
      (digest : Bytes) (profile : WasiProfile) (s : Files)
      → RunReturns (load_metadata x disk digest profile s)
  unfolding load_metadata
  load_metadata-RunReturns digest profile s =
      continue-RunReturns _ _ (read-RunReturns _ (metadata_path digest profile) s) λ bytes s1.
        continue-RunReturns _ _
          (lift-RunReturns _ s1 (json_or-Returns (x.metadata_from_slice bytes) _))
          λ metadata s2.
            continue-RunReturns _ _
              (lift-RunReturns _ s2 (
                reject-Returns
                  (not (identity_eq metadata.identity (identity x disk digest profile))) _))
              λ u s3.
                continue-RunReturns _ _
                  (lift-RunReturns _ s3
                    (reject-Returns (ltb disk.config.max_entry_bytes metadata.artifact_len) _))
                  λ u s4. tt

  load_artifact-RunReturns :
      (digest : Bytes) (profile : WasiProfile) (metadata : CacheMetadata) (s : Files)
      → RunReturns (load_artifact x disk digest profile metadata s)
  unfolding load_artifact
  load_artifact-RunReturns digest profile metadata s =
      continue-RunReturns _ _ (read-RunReturns _ (artifact_path digest profile) s) λ artifact s1.
        continue-RunReturns _ _
          (lift-RunReturns _ s1 (reject-Returns (not (length artifact == metadata.artifact_len)) _))
          λ u s2.
            continue-RunReturns _ _
              (lift-RunReturns _ s2
                (authentication_tag-Returns (identity x disk digest profile) artifact))
              λ fed s3.
                continue-RunReturns _ _
                  (lift-RunReturns _ s3
                    (ok_or-Returns (x.hex_decode metadata.authentication_tag) _))
                  λ supplied s4.
                    continue-RunReturns _ _
                      (lift-RunReturns _ s4
                        (reject-Returns (not (equal (finalize x disk fed) supplied)) _))
                      λ u s5. tt

  -- `load` returns an artifact, none or an error, whatever fails.
  pub load-Returns :
      (digest : Bytes) (profile : WasiProfile) (s : Files)
      → Returns (load x disk digest profile s).0
  unfolding load
  load-Returns digest profile s =
      elim (Bool-cases (
        not (exists (artifact_path digest profile) s)
        && not (exists (metadata_path digest profile) s))) [
          | inl absent ↦ rw absent tt
          | inr there ↦ rw there (
              Returns-RunReturns _ (
                continue-RunReturns _ _ (load_metadata-RunReturns digest profile s) λ metadata s1.
                  continue-RunReturns _ _ (load_artifact-RunReturns digest profile metadata s1)
                    λ artifact s2. tt))
        ]
