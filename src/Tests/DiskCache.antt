-- ===== src/Tests/DiskCache.antt =====
-- src/cache.rs at concrete inputs.
use wasm_runtime.Base.{
  equal, ◌≡◌, ◌↔◌, ◌⊎◌, refl, ap, true, none, some, List, [], ◌∷◌, Bytes, codes, arith,
}
use wasm_runtime.Checkpoint.Metadata.{concat}
use wasm_runtime.DiskCache.{
  artifact_path, load_artifact, identity, identity_eq, load_metadata, digits, profile_name,
  file_name, before_last_dot, with_extension, atomic_publish, authentication_tag, json,
  CacheIdentity, CacheMetadata, Crates, DiskCache, artifact_path, load, publish,
}
use wasm_runtime.DiskCache.Authentic.{IsAuthentic}
use wasm_runtime.DiskCache.Loading.{calm, load_iff}
use wasm_runtime.DiskCache.Publishing.{Leaves, publish-Leaves}
use wasm_runtime.DiskCache.RoundTrip.{
  load-publish_orphan, IsDocumented, load-publish-calm, load-publish_faults, load-publish_other,
}
use wasm_runtime.Failure.{err, io, cache, ok, text}
use wasm_runtime.Files.{
  not_found, refused, File, Files, interrupted, fetch_add, write, set_private_file, rename, read,
}
use wasm_runtime.Profiles.{cli0_3, http0_2, cache_id}
use wasm_runtime.Tests.Crates.{toy, put_all, split, split-put_all, field_at, head_or_zero}

abbrev identity_fields : CacheIdentity → List Bytes
identity_fields id =
    (id.format ∷ [])
    ∷ id.component_digest
    ∷ id.profile
    ∷ id.wasmtime_version
    ∷ id.target
    ∷ id.compiler_profile
    ∷ []

abbrev metadata_fields : CacheMetadata → List Bytes
metadata_fields m = (m.artifact_len ∷ []) ∷ (m.authentication_tag ∷ identity_fields m.identity)

abbrev of_fields : List Bytes → CacheMetadata
of_fields fs = record {
  artifact_len = head_or_zero (field_at 0 fs);
  authentication_tag = field_at 1 fs;
  identity = record {
    format = head_or_zero (field_at 2 fs);
    component_digest = field_at 3 fs;
    profile = field_at 4 fs;
    wasmtime_version = field_at 5 fs;
    target = field_at 6 fs;
    compiler_profile = field_at 7 fs;
  };
}

abbrev pub crates : Crates
crates = record {
  hmac_accepts = λ key. true;
  hmac_sha256 = toy.hmac_sha256;
  sha256 = toy.sha256;
  hex_encode = λ bytes. bytes;
  hex_decode = some;
  identity_to_vec = λ id. json (concat (put_all (identity_fields id)));
  metadata_to_vec = λ m. json (concat (put_all (metadata_fields m)));
  metadata_from_slice = λ bytes. json (of_fields (split 8 bytes));
  process_id = 417;
}

crates-IsDocumented : IsDocumented crates
crates-IsDocumented = record {
  hmac_accepts_all = λ key. refl;
  hex_decode-hex_encode = λ bytes. refl;
  identity_bytes = λ id. concat (put_all (identity_fields id));
  identity_to_vec_lem = λ id. refl;
  metadata_bytes = λ m. concat (put_all (metadata_fields m));
  metadata_to_vec_lem = λ m. refl;
  metadata_from_slice-metadata_bytes =
      λ m. ap (λ fs. json (of_fields fs)) (split-put_all (metadata_fields m));
}

abbrev pub disk : DiskCache
disk = record {
  config = record { root = codes "/cache"; authentication_key = 1 ∷ 2 ∷ []; max_entry_bytes = 64 };
  target = codes "x86_64-linux";
}

abbrev pub digest : Bytes
digest = codes "0a1b"

-- A state of the disk with nothing on it.
abbrev pub blank : Files
blank = record { entries = λ name. none; faults = []; temp_sequence = 0 }

load-publish-calm_example :
    ((publish crates disk digest cli0_3 (7 ∷ 8 ∷ []) blank).0 ≡ ok tt)
    × ((load crates disk digest cli0_3
          (calm (publish crates disk digest cli0_3 (7 ∷ 8 ∷ []) blank).1)).0
        ≡ ok (some (7 ∷ 8 ∷ [])))
load-publish-calm_example =
    load-publish-calm crates crates-IsDocumented disk digest cli0_3 (7 ∷ 8 ∷ []) blank refl refl
      (omega arith)

-- The next write is cut off behind one byte.
abbrev failing : Files
failing = record (publish crates disk digest cli0_3 (7 ∷ 8 ∷ []) blank).1 {
  faults = some (interrupted (text "no space left" ∷ []) 1) ∷ [];
}

old_kept :
    (load crates disk digest cli0_3 (calm (publish crates disk digest cli0_3 (9 ∷ []) failing).1)).0
    ≡ ok (some (7 ∷ 8 ∷ []))
unfolding load publish authentication_tag atomic_publish fetch_add write equal with_extension
    before_last_dot file_name profile_name set_private_file digits rename load_metadata read
    identity_eq identity load_artifact cache_id
old_kept = refl

load-publish_faults_example :
    (◌≡◌ {A = Bytes} (7 ∷ 8 ∷ []) (9 ∷ []))
    ⊎ ((f : File) × (failing.entries (artifact_path digest cli0_3) ≡ some f)
        × (f.contents ≡ 7 ∷ 8 ∷ []))
load-publish_faults_example =
    load-publish_faults crates crates-IsDocumented disk digest cli0_3 (9 ∷ []) failing (7 ∷ 8 ∷ [])
      refl old_kept

publish-Leaves_example :
    Leaves crates disk digest cli0_3
      (9 ∷ [])
      (publish crates disk digest cli0_3 (9 ∷ []) failing).0
      failing.entries
      (publish crates disk digest cli0_3 (9 ∷ []) failing).1.entries
publish-Leaves_example = publish-Leaves crates disk digest cli0_3 (9 ∷ []) failing refl

load-publish_other_example :
    (load crates disk digest http0_2
      (calm (publish crates disk digest cli0_3 (9 ∷ []) failing).1)).0
    ≡ (load crates disk digest http0_2 (calm failing)).0
load-publish_other_example =
    load-publish_other crates crates-IsDocumented disk digest cli0_3 (9 ∷ []) failing digest http0_2
      refl refl (λ same apart. cc)

load_iff_example :
    ((load crates disk digest cli0_3 (calm failing)).0 ≡ ok (some (7 ∷ 8 ∷ [])))
    ↔ IsAuthentic crates disk digest cli0_3 (7 ∷ 8 ∷ []) (calm failing).entries
load_iff_example = load_iff crates disk digest cli0_3 (7 ∷ 8 ∷ []) (calm failing) refl

-- The fourth operation, the write of the metadata, is refused.
abbrev pub full : Files
full = record blank {
  faults = none ∷ (none ∷ (none ∷ (some (refused (text "no space left" ∷ [])) ∷ [])));
}

full_failed :
    (publish crates disk digest cli0_3 (7 ∷ []) full).0 ≡ err (io (text "no space left" ∷ []))
unfolding publish authentication_tag atomic_publish fetch_add write equal with_extension
    before_last_dot file_name profile_name set_private_file digits rename identity cache_id
full_failed = refl

full_left :
    (publish crates disk digest cli0_3 (7 ∷ []) full).1.entries (artifact_path digest cli0_3)
    ≡ some (record { contents = 7 ∷ []; private = true })
unfolding publish authentication_tag atomic_publish fetch_add write equal with_extension
    before_last_dot file_name profile_name set_private_file digits rename identity cache_id
full_left = refl

load-publish_orphan_example :
    (load crates disk digest cli0_3 (calm (publish crates disk digest cli0_3 (7 ∷ []) full).1)).0
    ≡ err (cache (text "metadata read failed: " ∷ not_found))
load-publish_orphan_example =
    load-publish_orphan crates crates-IsDocumented disk digest cli0_3 (7 ∷ []) full
      (record { contents = 7 ∷ []; private = true }) refl refl (λ h. cc (full_failed)) full_left
