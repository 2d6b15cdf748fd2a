-- ===== src/Checkpoint/Metadata/Identity.antt =====
-- src/checkpoint.rs: the validation of metadata, and the metadata of this build.
use mathlib.Core.Path.{subst}
use wasm_runtime.Base.{◌≡◌, refl, ap, ◌∙◌, true, [], arith, Bytes, equal→eq, equal_refl}
use wasm_runtime.Failure.{ok, >>-eq-ok}
use wasm_runtime.Checkpoint.Binding.{
  WasixCheckpointBinding, validate, validate_sha256, validate_sha256_iff, binding_eq→eq,
  binding_eq_refl, IsSha256, IsCanonical, validate_iff,
}
use wasm_runtime.Checkpoint.Metadata.{
  External, IsDocumented, CheckpointMetadata, current, same_identity, validate_metadata,
  digest_text,
}

module _ (x : External) where
  pub IsSha256-digest_text : IsDocumented x → (bytes : Bytes) → IsSha256 (digest_text x bytes)
  IsSha256-digest_text d bytes = record {
    size = omega (arith, d.length-hex_encode (x.sha256 bytes), d.length-sha256 bytes);
    hex = d.hex_encode_lower (x.sha256 bytes);
  }

  pub journal_sha256-current :
      (binding : WasixCheckpointBinding) (worker journal : Bytes)
      → (current x binding worker journal).journal_sha256 ≡ digest_text x journal
  unfolding current
  journal_sha256-current binding worker journal = refl

  same_identity-current :
      (binding : WasixCheckpointBinding) (worker journal : Bytes)
      → same_identity x (current x binding worker journal) (current x binding worker []) ≡ true
  unfolding same_identity current
  same_identity-current binding worker journal = simp (binding_eq_refl, equal_refl)

  current_fields :
      (binding : WasixCheckpointBinding) (worker journal : Bytes)
      → ((current x binding worker journal).binding ≡ binding)
        × ((current x binding worker journal).worker_build_sha256 ≡ worker)
  unfolding current
  current_fields binding worker journal = (refl, refl)

  pub validate_metadata-current :
      IsDocumented x
      → (binding : WasixCheckpointBinding) (worker journal : Bytes) → validate binding ≡ ok tt
      → IsSha256 worker
      → validate_metadata x (current x binding worker journal) binding ≡ ok tt
  unfolding validate_metadata
  validate_metadata-current d binding worker journal valid w =
      let (same_binding, same_worker) = current_fields binding worker journal in
      simp (
        same_binding,
        valid,
        journal_sha256-current binding worker journal,
        (validate_sha256_iff "checkpoint journal digest" (digest_text x journal)).1
            (IsSha256-digest_text d journal),
        same_worker,
        (validate_sha256_iff "checkpoint worker build digest" worker).1 w,
        same_identity-current binding worker journal,
      )

  -- The metadata that this build writes for a binding, up to its two digests.
  pub record IsCurrent (m : CheckpointMetadata) (expected : WasixCheckpointBinding) : Type 0 where
    pub canonical : IsCanonical expected
    pub journal_digest : IsSha256 m.journal_sha256
    pub worker_digest : IsSha256 m.worker_build_sha256
    pub same : m ≡ record (current x expected m.worker_build_sha256 []) {
      journal_sha256 = m.journal_sha256;
      worker_build_sha256 = m.worker_build_sha256;
    }

  same_identity→eq :
      (m e : CheckpointMetadata)
      → same_identity x m e ≡ true
      → m ≡ record e {
        journal_sha256 = m.journal_sha256;
        worker_build_sha256 = m.worker_build_sha256;
      }
  unfolding same_identity
  same_identity→eq m e h = ground (
    arith,
    binding_eq→eq m.binding e.binding,
    equal→eq m.runtime_version e.runtime_version,
    equal→eq m.cohort_id e.cohort_id,
    equal→eq m.engine_profile e.engine_profile,
    equal→eq m.platform e.platform,
    equal→eq m.journal_format e.journal_format,
    equal→eq m.execution_abi e.execution_abi,
    equal→eq m.isolation_policy e.isolation_policy,
    equal→eq m.snapshot_trigger e.snapshot_trigger,
  )

  pub validate_metadata_sound :
      (m : CheckpointMetadata) (expected : WasixCheckpointBinding)
      → validate_metadata x m expected ≡ ok tt
      → IsCurrent m expected
  unfolding validate_metadata
  validate_metadata_sound m expected e =
      let (e1, h1) = >>-eq-ok (validate m.binding) _ e in
      let (e2, h2) = >>-eq-ok (validate_sha256 _ m.journal_sha256) _ h1 in
      let (e3, h3) = >>-eq-ok (validate_sha256 _ m.worker_build_sha256) _ h2 in
      let same = same_identity→eq m (current x expected m.worker_build_sha256 []) (ground arith) in
      let owner : m.binding ≡ expected =
        ap (λ (t : CheckpointMetadata). t.binding) same
        ∙ (current_fields expected m.worker_build_sha256 []).0 in
      record {
        canonical = (validate_iff expected).0 (subst (λ b. validate b ≡ ok tt) owner e1);
        journal_digest = (validate_sha256_iff _ m.journal_sha256).0 e2;
        worker_digest = (validate_sha256_iff _ m.worker_build_sha256).0 e3;
        same = same;
      }
