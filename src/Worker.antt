-- ===== src/Worker.antt =====
-- src/wasix_worker.rs: what the parent requires of the worker that it has spawned, before it hands
-- over any input.
pub mod Sealed
pub mod Messages
pub mod Matching
pub mod Frames
pub mod Capture
pub mod Requesting
use wasm_runtime.Base.{
  ℕ, ◌*◌, Bool, not, ◌&&◌, ◌||◌, List, [], ◌∷◌, ◌++◌, String, Bytes, length, ltb, ◌==◌, equal,
}
use wasm_runtime.Failure.{
  text, number, bytes, quoted, execution, unsupported_component, Result, ◌>>=◌, ◌>>◌, reject,
  Message,
}
use wasm_runtime.Checkpoint.Metadata.{wasix_worker_protocol_version, wasix_cohort_id}

-- An array of four numbers, and one of two.
pub record Four : Type 0 where
  pub at_0 : ℕ
  pub at_1 : ℕ
  pub at_2 : ℕ
  pub at_3 : ℕ

pub record Two : Type 0 where
  pub at_0 : ℕ
  pub at_1 : ℕ

pub record WasixWorkerIsolation : Type 0 where
  pub profile_version : ℕ
  pub user_ids : Four
  pub group_ids : Four
  pub supplementary_group_ids : List ℕ
  pub has_root_supplementary_group : Bool
  pub no_new_privileges : Bool
  pub dumpable : Bool
  pub capability_masks : Four
  pub core_file_limits : Two
  pub file_size_limits : Two
  pub address_space_limits : Two
  pub open_file_limits : Two
  pub closed_inherited_descriptor_count : ℕ

pub record WasixWorkerMetadata : Type 0 where
  pub protocol_version : ℕ
  pub runtime_version : Bytes
  pub cohort_id : Bytes
  pub worker_build_sha256 : Bytes
  pub process_id : ℕ
  pub isolation : WasixWorkerIsolation

abbrev pub wasix_worker_isolation_profile_version : ℕ
wasix_worker_isolation_profile_version = 2

abbrev pub wasix_worker_max_open_files : ℕ
wasix_worker_max_open_files = 64

abbrev pub wasix_worker_max_file_bytes : ℕ
wasix_worker_max_file_bytes = 512 * 1024 * 1024

abbrev pub wasix_worker_max_address_space_bytes : ℕ
wasix_worker_max_address_space_bytes = 2 * 1024 * 1024 * 1024

abbrev pub wasix_worker_max_supplementary_groups : ℕ
wasix_worker_max_supplementary_groups = 64

abbrev pub has_zero : Four → Bool
has_zero ids = ids.at_0 == 0 || ids.at_1 == 0 || ids.at_2 == 0 || ids.at_3 == 0

abbrev pub all_zero : Four → Bool
all_zero masks = masks.at_0 == 0 && masks.at_1 == 0 && masks.at_2 == 0 && masks.at_3 == 0

-- The `{:?}` text of numbers.
abbrev numbers : List ℕ → Message
numbers [] = []
numbers (n ∷ ns) = number n ∷ numbers ns

-- The first half of `WasixWorkerIsolation::validate`: profile, credentials and groups.
unfoldable pub validate_credentials : WasixWorkerIsolation → List ℕ → Result (Unit {0})
validate_credentials i allowed_groups = do
  reject (not (i.profile_version == wasix_worker_isolation_profile_version)) (
      unsupported_component (
        text "WASIX worker isolation profile "
        ∷ number i.profile_version
        ∷ text " is incompatible with required profile 2"
        ∷ []))
  reject (has_zero i.user_ids || has_zero i.group_ids)
      (execution (text "WASIX worker retained a root user or group credential" ∷ []))
  reject (not (i.user_ids.at_3 == i.user_ids.at_1) || not (i.group_ids.at_3 == i.group_ids.at_1)) (
      execution
        (text "WASIX worker filesystem credentials differ from its effective identity" ∷ []))
  reject i.has_root_supplementary_group
      (execution (text "WASIX worker retained supplementary group zero" ∷ []))
  reject
      (ltb wasix_worker_max_supplementary_groups (length i.supplementary_group_ids)
        || not (equal i.supplementary_group_ids allowed_groups))
      (execution (
        text "WASIX worker supplementary groups "
        ∷ (numbers i.supplementary_group_ids
            ++ (text " do not match the deployment allowlist" ∷ []))))

abbrev pub out_of_profile : Two → ℕ → Bool
out_of_profile limits maximum =
    not (limits.at_0 == limits.at_1) || limits.at_0 == 0 || ltb maximum limits.at_0

abbrev exceeded : String → Two → Message
exceeded what limits =
    text what ∷ number limits.at_0 ∷ number limits.at_1 ∷ text " exceed the isolation profile" ∷ []

-- The second half: privileges, capabilities and limits.
unfoldable pub validate_limits : WasixWorkerIsolation → Result (Unit {0})
validate_limits i = do
  reject (not i.no_new_privileges || i.dumpable)
      (execution (text "WASIX worker did not seal privilege escalation and tracing" ∷ []))
  reject (not (all_zero i.capability_masks))
      (execution (text "WASIX worker retained Linux capabilities" ∷ []))
  reject (not (i.core_file_limits.at_0 == 0 && i.core_file_limits.at_1 == 0))
      (execution (text "WASIX worker did not disable core files" ∷ []))
  reject (out_of_profile i.file_size_limits wasix_worker_max_file_bytes)
      (execution (exceeded "WASIX worker file-size limits " i.file_size_limits))
  reject (out_of_profile i.address_space_limits wasix_worker_max_address_space_bytes)
      (execution (exceeded "WASIX worker address-space limits " i.address_space_limits))
  reject (out_of_profile i.open_file_limits wasix_worker_max_open_files)
      (execution (exceeded "WASIX worker open-file limits " i.open_file_limits))

unfoldable pub validate_isolation : WasixWorkerIsolation → List ℕ → Result (Unit {0})
validate_isolation i allowed_groups = do validate_credentials i allowed_groups; validate_limits i

-- `WasixWorkerMetadata::validate`; the first argument is `env!("CARGO_PKG_VERSION")`.
unfoldable pub validate_worker :
    Bytes → WasixWorkerMetadata → ℕ → Bytes → List ℕ → Result (Unit {0})
validate_worker version m expected_process_id expected_worker_build_sha256 allowed_groups = do
  reject (not (m.protocol_version == wasix_worker_protocol_version)) (
      unsupported_component (
        text "WASIX worker protocol "
        ∷ number m.protocol_version
        ∷ text " is incompatible with required protocol 8"
        ∷ []))
  reject (not (equal m.runtime_version version)) (
      unsupported_component (
        text "WASIX worker runtime "
        ∷ bytes m.runtime_version
        ∷ text " is incompatible with required runtime "
        ∷ bytes version
        ∷ []))
  reject (not (equal m.cohort_id wasix_cohort_id)) (
      unsupported_component (
        text "WASIX worker cohort "
        ∷ quoted m.cohort_id
        ∷ text " is incompatible with required cohort "
        ∷ quoted wasix_cohort_id
        ∷ []))
  reject (not (equal m.worker_build_sha256 expected_worker_build_sha256)) (
      unsupported_component (
        text "WASIX worker build "
        ∷ bytes m.worker_build_sha256
        ∷ text " does not match pinned executable "
        ∷ bytes expected_worker_build_sha256
        ∷ []))
  reject (not (m.process_id == expected_process_id)) (
      execution (
        text "WASIX worker reported process "
        ∷ number m.process_id
        ∷ text ", but spawned process was "
        ∷ number expected_process_id
        ∷ []))
  validate_isolation m.isolation allowed_groups
