-- ===== src/Worker/Sealed.antt =====
-- src/wasix_worker.rs: the workers that the parent accepts.
use wasm_runtime.Base.{
  ℕ, ◌≤◌, ◌<◌, ◌≡◌, ◌↔◌, refl, true, false, not, List, arith, Bytes, length, ◌==◌, equal, equal→eq,
  equal_refl, ap, sym, ◌∙◌,
}
use wasm_runtime.Failure.{ok, >>-eq-ok, reject-eq-ok}
use wasm_runtime.Checkpoint.Metadata.{wasix_cohort_id}
use wasm_runtime.Worker.{
  Four, Two, WasixWorkerIsolation, WasixWorkerMetadata, all_zero, validate_credentials,
  validate_limits, validate_isolation, validate_worker,
}

-- Four identities of an unprivileged user or group, the last (of files) the second (effective).
pub record IsUnprivileged (ids : Four) : Type 0 where
  pub nonzero_0 : 0 < ids.at_0
  pub nonzero_1 : 0 < ids.at_1
  pub nonzero_2 : 0 < ids.at_2
  pub nonzero_3 : 0 < ids.at_3
  pub files_effective : ids.at_3 ≡ ids.at_1

-- Equal soft and hard limits, positive and at most a maximum.
pub record IsLimited (limits : Two) (maximum : ℕ) : Type 0 where
  pub hard : limits.at_0 ≡ limits.at_1
  pub positive : 0 < limits.at_0
  pub bounded : limits.at_0 ≤ maximum

pub record HasCredentials (i : WasixWorkerIsolation) (allowed : List ℕ) : Type 0 where
  pub profile : i.profile_version ≡ 2
  pub users : IsUnprivileged i.user_ids
  pub groups : IsUnprivileged i.group_ids
  pub no_root_group : i.has_root_supplementary_group ≡ false
  pub allowlist : i.supplementary_group_ids ≡ allowed
  pub few_groups : length i.supplementary_group_ids ≤ 64

pub record HasLimits (i : WasixWorkerIsolation) : Type 0 where
  pub privileges : i.no_new_privileges ≡ true
  pub untraced : i.dumpable ≡ false
  pub capabilities : all_zero i.capability_masks ≡ true
  pub core_soft : i.core_file_limits.at_0 ≡ 0
  pub core_hard : i.core_file_limits.at_1 ≡ 0
  pub files : IsLimited i.file_size_limits 536870912
  pub memory : IsLimited i.address_space_limits 2147483648
  pub descriptors : IsLimited i.open_file_limits 64

credentials_iff :
    (i : WasixWorkerIsolation) (allowed : List ℕ)
    → (validate_credentials i allowed ≡ ok tt) ↔ HasCredentials i allowed
unfolding validate_credentials
credentials_iff i allowed = (
  λ e. ground (arith, equal→eq i.supplementary_group_ids allowed),
  λ c.
      let same : equal i.supplementary_group_ids allowed ≡ true =
        ap (equal i.supplementary_group_ids) (sym c.allowlist)
        ∙ equal_refl i.supplementary_group_ids in
      ground arith,
)

limits_iff : (i : WasixWorkerIsolation) → (validate_limits i ≡ ok tt) ↔ HasLimits i
unfolding validate_limits
limits_iff i = (λ e. ground arith, λ l. ground arith)

-- A worker of this protocol, runtime version, dependency cohort and executable, in the spawned
-- process, without privileges and within its limits.
pub record IsSealedWorker (version : Bytes) (m : WasixWorkerMetadata) (process_id : ℕ)
    (build : Bytes) (allowed : List ℕ) : Type 0 where
  pub protocol : m.protocol_version ≡ 8
  pub runtime : m.runtime_version ≡ version
  pub cohort : m.cohort_id ≡ wasix_cohort_id
  pub executable : m.worker_build_sha256 ≡ build
  pub process : m.process_id ≡ process_id
  pub credentials : HasCredentials m.isolation allowed
  pub limits : HasLimits m.isolation

module _ (version : Bytes) (m : WasixWorkerMetadata) (process_id : ℕ) (build : Bytes)
    (allowed : List ℕ) where
  worker_sealed :
      validate_worker version m process_id build allowed ≡ ok tt
      → IsSealedWorker version m process_id build allowed
  unfolding validate_worker validate_isolation
  worker_sealed e =
      let (e1, h1) = reject-eq-ok (not (m.protocol_version == 8)) _ _ e in
      let (e2, h2) = reject-eq-ok (not (equal m.runtime_version version)) _ _ h1 in
      let (e3, h3) = reject-eq-ok (not (equal m.cohort_id wasix_cohort_id)) _ _ h2 in
      let (e4, h4) = reject-eq-ok (not (equal m.worker_build_sha256 build)) _ _ h3 in
      let (e5, h5) = reject-eq-ok (not (m.process_id == process_id)) _ _ h4 in
      let (e6, h6) = >>-eq-ok (validate_credentials m.isolation allowed) _ h5 in
      record {
        protocol = ground arith;
        runtime = equal→eq m.runtime_version version (ground arith);
        cohort = equal→eq m.cohort_id wasix_cohort_id (ground arith);
        executable = equal→eq m.worker_build_sha256 build (ground arith);
        process = ground arith;
        credentials = (credentials_iff m.isolation allowed).0 e6;
        limits = (limits_iff m.isolation).0 h6;
      }

  sealed_worker :
      IsSealedWorker version m process_id build allowed
      → validate_worker version m process_id build allowed ≡ ok tt
  unfolding validate_worker validate_isolation
  sealed_worker s =
      let protocol : (m.protocol_version == 8) ≡ true = ground arith in
      let process : (m.process_id == process_id) ≡ true = ground arith in
      let runtime = ap (λ v. equal v version) s.runtime ∙ equal_refl version in
      let cohort = ap (λ v. equal v wasix_cohort_id) s.cohort ∙ equal_refl wasix_cohort_id in
      let executable = ap (λ v. equal v build) s.executable ∙ equal_refl build in
      rw
        (
          protocol,
          runtime,
          cohort,
          executable,
          process,
          (credentials_iff m.isolation allowed).1 s.credentials,
          (limits_iff m.isolation).1 s.limits,
        )
        refl

  -- The parent accepts exactly the workers that report its protocol, runtime version and dependency
  -- cohort, the pinned executable and the spawned process, and an isolation of profile 2: no root
  -- identity or group, files owned by the effective identity, the deployment's groups and at most 64,
  -- no new privileges, no tracing, no capabilities, no core files, and equal soft and hard limits that
  -- are positive and at most 512 MiB per file, 2 GiB of memory and 64 descriptors.
  pub validate_worker_iff :
      (validate_worker version m process_id build allowed ≡ ok tt)
      ↔ IsSealedWorker version m process_id build allowed
  validate_worker_iff = (worker_sealed, sealed_worker)
