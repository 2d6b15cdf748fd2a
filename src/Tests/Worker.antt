-- ===== src/Tests/Worker.antt =====
-- The theorems on src/wasix_worker.rs at one worker and its messages.
use wasm_runtime.Base.{◌≡◌, ◌↔◌, false, true, [], ◌∷◌, codes}
use wasm_runtime.Failure.{ok}
use wasm_runtime.Checkpoint.Metadata.{wasix_cohort_id}
use wasm_runtime.Worker.{WasixWorkerMetadata, validate_worker}
use wasm_runtime.Worker.Sealed.{IsSealedWorker, validate_worker_iff}
use wasm_runtime.Tests.Crates.{repeated}

abbrev worker : WasixWorkerMetadata
worker = record {
  protocol_version = 8;
  runtime_version = codes "0.1.0";
  cohort_id = wasix_cohort_id;
  worker_build_sha256 = repeated 64 97;
  process_id = 42;
  isolation = record {
    profile_version = 2;
    user_ids = record { at_0 = 65534; at_1 = 65534; at_2 = 65534; at_3 = 65534 };
    group_ids = record { at_0 = 65534; at_1 = 65534; at_2 = 65534; at_3 = 65534 };
    supplementary_group_ids = 7 ∷ [];
    has_root_supplementary_group = false;
    no_new_privileges = true;
    dumpable = false;
    capability_masks = record { at_0 = 0; at_1 = 0; at_2 = 0; at_3 = 0 };
    core_file_limits = record { at_0 = 0; at_1 = 0 };
    file_size_limits = record { at_0 = 536870912; at_1 = 536870912 };
    address_space_limits = record { at_0 = 2147483648; at_1 = 2147483648 };
    open_file_limits = record { at_0 = 64; at_1 = 64 };
    closed_inherited_descriptor_count = 0;
  };
}

validate_worker_iff_example :
    (validate_worker (codes "0.1.0") worker 42 (repeated 64 97) (7 ∷ []) ≡ ok tt)
    ↔ IsSealedWorker (codes "0.1.0") worker 42 (repeated 64 97) (7 ∷ [])
validate_worker_iff_example =
    validate_worker_iff (codes "0.1.0") worker 42 (repeated 64 97) (7 ∷ [])
