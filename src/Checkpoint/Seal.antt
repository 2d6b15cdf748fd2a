-- ===== src/Checkpoint/Seal.antt =====
-- src/checkpoint.rs: sealing a captured journal, into a vector or through a writer.
pub mod Prepared
pub mod Succeeds
use wasm_runtime.Base.{
  ℕ, ◌^◌, Bool, true, not, ◌||◌, Option, none, some, List, [], ◌∷◌, ◌++◌, Bytes, length, ltb, leb,
  ◌==◌, if◌then◌else◌,
}
use wasm_runtime.Failure.{
  Message, text, checkpoint, Result, ok, err, ◌>>=◌, ◌>>◌, reject, ok_or, checked_add,
}
use wasm_runtime.Checkpoint.Binding.{WasixCheckpointBinding, validate, validate_sha256, binding_eq}
use wasm_runtime.Checkpoint.Metadata.{External, CheckpointMetadata, current}
use wasm_runtime.Checkpoint.Journal.{scan_journal}
use wasm_runtime.Checkpoint.Codec.{
  WasixCheckpointCodec, validate_limit, validate_journal_length, header_bytes, checkpoint_domain,
  checkpoint_header_bytes, checkpoint_tag_bytes, max_checkpoint_metadata_bytes,
}

pub record CapturedWasixJournal : Type 0 where
  pub bytes : Bytes
  pub binding : WasixCheckpointBinding
  pub worker_build_sha256 : Bytes
  pub explicit_snapshot : Bool

unfoldable pub from_attested_worker_capture :
    Bytes → WasixCheckpointBinding → Bytes → Result CapturedWasixJournal
from_attested_worker_capture bytes binding worker_build_sha256 = do
  validate binding
  validate_sha256 "captured worker build digest" worker_build_sha256
  scan_journal bytes
  ok (record {
    bytes = bytes;
    binding = binding;
    worker_build_sha256 = worker_build_sha256;
    explicit_snapshot = true;
  })

pub record FallibleBoundedVec : Type 0 where
  pub bytes : Bytes
  pub maximum_bytes : ℕ

pub record PreparedCheckpoint : Type 0 where
  pub header : Bytes
  pub metadata : Bytes
  pub journal : Bytes
  pub artifact_len : ℕ

-- A streaming HMAC: the key and what has been fed to it.
pub record Mac : Type 0 where
  pub key : Bytes
  pub fed : Bytes

unfoldable pub update : Mac → Bytes → Mac
update mac bytes = record mac { fed = mac.fed ++ bytes }

-- The `Write` that the caller hands over: its state after a buffer, and the text of its error.
pub record Writer (W : Type 0) : Type 0 where
  pub write_all : W → Bytes → W × Option Message

-- `Vec<u8>`
abbrev pub vec_writer : Writer Bytes
vec_writer = record { write_all = λ w bytes. (w ++ bytes, none) }

-- The test of `seal` and `seal_into` on the binding that the caller expects.
unfoldable pub check_binding : WasixCheckpointBinding → CapturedWasixJournal → Result (Unit {0})
check_binding binding journal = do
  validate binding
  reject (not (binding_eq binding journal.binding))
      (checkpoint (text "captured journal binding does not match the checkpoint binding" ∷ []))

module _ (x : External) where
  abbrev reserve_or : Message → ℕ → Result (Unit {0})
  reserve_or m n = elim (x.try_reserve_exact n) [
    | none ↦ ok tt
    | some e ↦ err (checkpoint (m ++ e))
  ]

  -- `FallibleBoundedVec::write`: the whole buffer or an I/O error, whose text comes back.
  unfoldable pub write_bounded : FallibleBoundedVec → Bytes → FallibleBoundedVec × Option Message
  write_bounded v bytes = elim (checked_add (length v.bytes) (length bytes)) [
    | none ↦ (v, some (text "metadata length overflows usize" ∷ []))
    | some new_len ↦
        if ltb v.maximum_bytes new_len
        then (v, some (text "metadata exceeds the checkpoint format limit" ∷ []))
        else elim (x.try_reserve_exact (length bytes)) [
          | none ↦ (record v { bytes = v.bytes ++ bytes }, none)
          | some e ↦ (v, some (text "metadata allocation failed: " ∷ e))
        ]
  ]

  -- `serde_json::to_writer`: the buffers in turn, each by `write_all`, which skips an empty one.
  unfoldable pub write_buffers :
      FallibleBoundedVec → List Bytes → FallibleBoundedVec × Option Message
  write_buffers v [] = (v, none)
  write_buffers v ([] ∷ rest) = write_buffers v rest
  write_buffers v ((b ∷ bs) ∷ rest) =
      let (v', failure) = write_bounded v (b ∷ bs) in
      elim failure [ none ↦ write_buffers v' rest | some e ↦ (v', some e) ]

  abbrev pub encode_metadata : CheckpointMetadata → Result Bytes
  encode_metadata metadata =
      let start : FallibleBoundedVec = record {
        bytes = [];
        maximum_bytes = max_checkpoint_metadata_bytes;
      } in
      let (v, failure) = write_buffers start (x.write_metadata metadata) in
      elim failure [
        | none ↦ ok v.bytes
        | some e ↦ err (checkpoint (text "checkpoint metadata encoding failed: " ∷ e))
      ]

  unfoldable pub authentication_state : WasixCheckpointCodec → Result Mac
  unfolding update
  authentication_state codec =
      reject (not (x.hmac_accepts codec.authentication_key))
        (checkpoint (text "checkpoint authentication key is invalid" ∷ []))
      >> ok (update (record { key = codec.authentication_key; fed = [] }) checkpoint_domain)

  -- The tag of a finished HMAC.
  abbrev pub finalize : Mac → Bytes
  finalize mac = x.hmac_sha256 mac.key mac.fed

  unfoldable pub prepare_seal :
      WasixCheckpointCodec
      → WasixCheckpointBinding
      → CapturedWasixJournal
      → Result PreparedCheckpoint
  prepare_seal codec binding journal = do
    validate_limit codec
    validate binding
    reject (not (binding_eq binding journal.binding) || not journal.explicit_snapshot)
        (checkpoint (text "captured journal does not match the checkpoint binding" ∷ []))
    validate_journal_length codec (length journal.bytes)
    scan_journal journal.bytes
    metadata ← encode_metadata (current x binding journal.worker_build_sha256 journal.bytes)
    reject (length metadata == 0 || ltb max_checkpoint_metadata_bytes (length metadata))
        (checkpoint (text "checkpoint metadata exceeds the format limit" ∷ []))
    a ←
        ok_or (checked_add checkpoint_header_bytes (length metadata))
          (checkpoint (text "checkpoint length overflows usize" ∷ []))
    b ←
        ok_or (checked_add a (length journal.bytes))
          (checkpoint (text "checkpoint length overflows usize" ∷ []))
    capacity ←
        ok_or (checked_add b checkpoint_tag_bytes)
          (checkpoint (text "checkpoint length overflows usize" ∷ []))
    reject (leb (2 ^ 32) (length metadata))
        (checkpoint (text "checkpoint metadata length overflows u32" ∷ []))
    reject (leb (2 ^ 64) (length journal.bytes))
        (checkpoint (text "checkpoint journal length overflows u64" ∷ []))
    ok (record {
      header = header_bytes (length metadata) (length journal.bytes);
      metadata = metadata;
      journal = journal.bytes;
      artifact_len = capacity;
    })
