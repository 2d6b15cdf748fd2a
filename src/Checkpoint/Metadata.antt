-- ===== src/Checkpoint/Metadata.antt =====
-- src/checkpoint.rs: the metadata of an artifact, and what the codec takes from code and from a
-- build that are not in the repository: the hash functions, the JSON coder, the allocator and the
-- build's constants.
pub mod Identity
use wasm_runtime.Base.{
  ℕ, ◌*◌, ◌≡◌, Bool, true, not, ◌&&◌, Option, List, [], ◌∷◌, ◌++◌, Bytes, codes, length, all, ◌==◌,
  if◌then◌else◌, equal,
}
use wasm_runtime.Failure.{Message, text, checkpoint, Result, ◌>>◌, reject}
use wasm_runtime.Checkpoint.Binding.{
  WasixCheckpointBinding, validate, validate_sha256, binding_eq, is_lower_hex,
}

abbrev pub checkpoint_engine_profile : Bytes
checkpoint_engine_profile = codes "runtrue-wasix-engine-v1"

abbrev pub checkpoint_journal_format : Bytes
checkpoint_journal_format = codes "wasmer-log-file-v1"

abbrev pub checkpoint_execution_abi : Bytes
checkpoint_execution_abi = codes "wasix_32v1+asyncify"

abbrev pub checkpoint_isolation_policy : Bytes
checkpoint_isolation_policy = codes "runtrue-wasix-isolation-v1"

abbrev pub checkpoint_snapshot_trigger : Bytes
checkpoint_snapshot_trigger = codes "explicit"

abbrev pub wasix_worker_protocol_version : ℕ
wasix_worker_protocol_version = 8

abbrev pub wasix_cohort_id : Bytes
wasix_cohort_id = codes "wasmer-7.1.0+wasix-0.701.0+webc-11.0.0"

pub record CheckpointMetadata : Type 0 where
  pub binding : WasixCheckpointBinding
  pub runtime_version : Bytes
  pub worker_protocol_version : ℕ
  pub cohort_id : Bytes
  pub worker_build_sha256 : Bytes
  pub engine_profile : Bytes
  pub platform : Bytes
  pub journal_format : Bytes
  pub execution_abi : Bytes
  pub isolation_policy : Bytes
  pub snapshot_trigger : Bytes
  pub journal_sha256 : Bytes

-- The outcome of `serde_json::from_slice`.
pub data Parsed : Type 0 where
  parsed : CheckpointMetadata → Parsed
  malformed : Message → Parsed

pub record External : Type 0 where
  -- `env!("CARGO_PKG_VERSION")` and `env!("RUNTRUE_BUILD_TARGET")`.
  pub runtime_version : Bytes
  pub build_target : Bytes
  pub little_endian : Bool
  -- The crates sha2, hmac and hex: a digest, whether a key is accepted, the tag of a message under
  -- a key, and the text of a digest.
  pub sha256 : Bytes → Bytes
  pub hmac_accepts : Bytes → Bool
  pub hmac_sha256 : Bytes → Bytes → Bytes
  pub hex_encode : Bytes → Bytes
  -- serde_json: the buffers that `to_writer` hands to the writer, one after the other, and the
  -- parser.
  pub write_metadata : CheckpointMetadata → List Bytes
  pub parse_metadata : Bytes → Parsed
  -- `Vec::try_reserve_exact`: `none`, or the text of the allocation error.
  pub try_reserve_exact : ℕ → Option Message

abbrev pub concat : List Bytes → Bytes
concat [] = []
concat (b ∷ bs) = b ++ concat bs

-- The documented behaviour of the crates: tags and digests have 32 bytes, a key of any length is
-- accepted, `hex::encode` writes two lowercase digits for a byte, and a derived deserialiser reads
-- back what the derived serialiser wrote.
pub record IsDocumented (x : External) : Type 0 where
  pub hmac_accepts_all : (key : Bytes) → x.hmac_accepts key ≡ true
  pub length-hmac_sha256 : (key message : Bytes) → length (x.hmac_sha256 key message) ≡ 32
  pub length-sha256 : (message : Bytes) → length (x.sha256 message) ≡ 32
  pub length-hex_encode : (bytes : Bytes) → length (x.hex_encode bytes) ≡ 2 * length bytes
  pub hex_encode_lower : (bytes : Bytes) → all is_lower_hex (x.hex_encode bytes) ≡ true
  pub parse-write :
      (m : CheckpointMetadata) → x.parse_metadata (concat (x.write_metadata m)) ≡ parsed m

module _ (x : External) where
  -- `checkpoint_platform`, on a target with 64-bit pointers.
  unfoldable pub checkpoint_platform : Bytes
  checkpoint_platform =
      x.build_target
      ++ (codes ";endian="
          ++ ((if x.little_endian then codes "little" else codes "big") ++ codes ";pointer=64"))

  -- `hex::encode(Sha256::digest(bytes))`
  abbrev pub digest_text : Bytes → Bytes
  digest_text bytes = x.hex_encode (x.sha256 bytes)

  -- `CheckpointMetadata::current`
  unfoldable pub current : WasixCheckpointBinding → Bytes → Bytes → CheckpointMetadata
  current binding worker_build_sha256 journal = record {
    binding = binding;
    runtime_version = x.runtime_version;
    worker_protocol_version = wasix_worker_protocol_version;
    cohort_id = wasix_cohort_id;
    worker_build_sha256 = worker_build_sha256;
    engine_profile = checkpoint_engine_profile;
    platform = checkpoint_platform;
    journal_format = checkpoint_journal_format;
    execution_abi = checkpoint_execution_abi;
    isolation_policy = checkpoint_isolation_policy;
    snapshot_trigger = checkpoint_snapshot_trigger;
    journal_sha256 = digest_text journal;
  }

  -- The fields that `CheckpointMetadata::validate` compares.
  unfoldable pub same_identity : CheckpointMetadata → CheckpointMetadata → Bool
  same_identity m expected =
      binding_eq m.binding expected.binding
      && equal m.runtime_version expected.runtime_version
      && m.worker_protocol_version == expected.worker_protocol_version
      && equal m.cohort_id expected.cohort_id
      && equal m.engine_profile expected.engine_profile
      && equal m.platform expected.platform
      && equal m.journal_format expected.journal_format
      && equal m.execution_abi expected.execution_abi
      && equal m.isolation_policy expected.isolation_policy
      && equal m.snapshot_trigger expected.snapshot_trigger

  -- `CheckpointMetadata::validate`
  unfoldable pub validate_metadata : CheckpointMetadata → WasixCheckpointBinding → Result (Unit {0})
  validate_metadata m expected_binding = do
    validate m.binding
    validate_sha256 "checkpoint journal digest" m.journal_sha256
    validate_sha256 "checkpoint worker build digest" m.worker_build_sha256
    reject (not (same_identity m (current expected_binding m.worker_build_sha256 [])))
        (checkpoint (text "checkpoint identity is incompatible" ∷ []))
