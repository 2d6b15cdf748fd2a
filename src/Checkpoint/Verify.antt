-- ===== src/Checkpoint/Verify.antt =====
-- src/checkpoint.rs: authenticating an artifact: `verify`, `open` and the value that they return.
pub mod Assembled
pub mod Cut
pub mod Stages
pub mod Genuine
pub mod Views
pub mod Returning
use wasm_runtime.Base.{
  ℕ, ◌+◌, ◌-◌, not, Option, none, some, [], ◌∷◌, ◌++◌, Bytes, length, take, drop, ltb, leb, ◌==◌,
  if◌then◌else◌, equal,
}
use wasm_runtime.Failure.{text, checkpoint, Result, ok, err, ◌>>=◌, ◌>>◌, reject, ok_or}
use wasm_runtime.Slices.{slice}
use wasm_runtime.Checkpoint.Binding.{WasixCheckpointBinding, validate}
use wasm_runtime.Checkpoint.Metadata.{
  External, CheckpointMetadata, Parsed, parsed, malformed, validate_metadata, digest_text,
}
use wasm_runtime.Checkpoint.Journal.{scan_journal}
use wasm_runtime.Checkpoint.Codec.{
  CheckpointArtifactLayout, WasixCheckpointCodec, validate_limit, maximum_artifact_bytes,
  validate_header, checkpoint_header_bytes, checkpoint_tag_bytes,
}
use wasm_runtime.Checkpoint.Seal.{Mac, update, authentication_state, finalize}

-- A `Range<usize>`.
pub record Range : Type 0 where
  pub start : ℕ
  pub stop : ℕ

pub record VerifiedCheckpointParts : Type 0 where
  pub binding : WasixCheckpointBinding
  pub journal : Range
  pub artifact_sha256 : Bytes
  pub worker_build_sha256 : Bytes

pub record VerifiedWasixCheckpoint : Type 0 where
  pub binding : WasixCheckpointBinding
  pub bytes : Bytes
  pub journal : Range
  pub artifact_sha256 : Bytes
  pub worker_build_sha256 : Bytes

-- The borrowed slice stands here as its bytes.
pub record VerifiedWasixCheckpointView : Type 0 where
  pub binding : WasixCheckpointBinding
  pub journal : Bytes
  pub artifact_sha256 : Bytes
  pub worker_build_sha256 : Bytes

-- `VerifiedWasixCheckpoint::journal`
unfoldable pub journal_of : VerifiedWasixCheckpoint → Result Bytes
journal_of v = slice v.bytes v.journal.start v.journal.stop

-- `bytes.copy_within(start..stop, 0)`
unfoldable pub copy_to_front : Bytes → ℕ → ℕ → Result Bytes
copy_to_front bytes start stop = do
  moved ← slice bytes start stop
  ok (moved ++ drop (stop - start) bytes)

-- `VerifiedWasixCheckpoint::into_parts`
unfoldable pub into_parts : VerifiedWasixCheckpoint → Result (Bytes × Bytes)
into_parts v = do
  bytes ←
      if v.journal.start == 0
      then ok v.bytes
      else copy_to_front v.bytes v.journal.start v.journal.stop
  ok (take (v.journal.stop - v.journal.start) bytes, v.worker_build_sha256)

-- `artifact.get(..n)`
abbrev pub get_prefix : Bytes → ℕ → Option Bytes
get_prefix artifact n = if leb n (length artifact) then some (take n artifact) else none

abbrev pub parsed_or : Parsed → Result CheckpointMetadata
parsed_or (parsed m) = ok m
parsed_or (malformed e) = err (checkpoint (text "checkpoint metadata is malformed: " ∷ e))

module _ (x : External) (codec : WasixCheckpointCodec) where
  unfoldable pub authentication_tag : Bytes → Result Mac
  authentication_tag bytes = do mac ← authentication_state x codec; ok (update mac bytes)

  -- The end of `verify_parts`: the metadata and the journal of an authenticated artifact.
  unfoldable pub verify_contents :
      WasixCheckpointBinding → Bytes → CheckpointArtifactLayout → Result VerifiedCheckpointParts
  verify_contents expected_binding artifact layout = do
    encoded ← slice artifact checkpoint_header_bytes layout.metadata_end
    metadata ← parsed_or (x.parse_metadata encoded)
    validate_metadata x metadata expected_binding
    journal ← slice artifact layout.metadata_end layout.authenticated_len
    reject (not (equal metadata.journal_sha256 (digest_text x journal)))
        (checkpoint (text "checkpoint journal digest is invalid" ∷ []))
    scan_journal journal
    ok (record {
      binding = metadata.binding;
      journal = record { start = layout.metadata_end; stop = layout.authenticated_len };
      artifact_sha256 = digest_text x artifact;
      worker_build_sha256 = metadata.worker_build_sha256;
    })

  -- The middle of `verify_parts`: the exact length and the tag, before anything is parsed.
  unfoldable pub verify_tag : Bytes → CheckpointArtifactLayout → Result (Unit {0})
  verify_tag artifact layout = do
    reject (not (length artifact == layout.artifact_len))
        (checkpoint (text "checkpoint artifact length does not match its header" ∷ []))
    supplied_tag ← slice artifact layout.authenticated_len (length artifact)
    authenticated ← slice artifact 0 layout.authenticated_len
    mac ← authentication_tag authenticated
    reject (not (equal (finalize x mac) supplied_tag))
        (checkpoint (text "checkpoint authentication failed" ∷ []))

  unfoldable pub verify_parts : WasixCheckpointBinding → Bytes → Result VerifiedCheckpointParts
  verify_parts expected_binding artifact = do
    validate_limit codec
    validate expected_binding
    maximum ← maximum_artifact_bytes codec
    reject (ltb maximum (length artifact))
        (checkpoint (text "checkpoint artifact exceeds the configured limit" ∷ []))
    reject (ltb (length artifact) (checkpoint_header_bytes + checkpoint_tag_bytes))
        (checkpoint (text "checkpoint artifact is truncated" ∷ []))
    header ←
        ok_or (get_prefix artifact checkpoint_header_bytes)
          (checkpoint (text "checkpoint artifact is truncated" ∷ []))
    layout ← validate_header codec header
    verify_tag artifact layout
    verify_contents expected_binding artifact layout

  unfoldable pub verify : WasixCheckpointBinding → Bytes → Result VerifiedWasixCheckpointView
  verify expected_binding artifact = do
    parts ← verify_parts expected_binding artifact
    journal ← slice artifact parts.journal.start parts.journal.stop
    ok (record {
      binding = parts.binding;
      journal = journal;
      artifact_sha256 = parts.artifact_sha256;
      worker_build_sha256 = parts.worker_build_sha256;
    })

  unfoldable pub open_artifact : WasixCheckpointBinding → Bytes → Result VerifiedWasixCheckpoint
  open_artifact expected_binding artifact = do
    parts ← verify_parts expected_binding artifact
    journal ← slice artifact parts.journal.start parts.journal.stop
    elim (x.try_reserve_exact (length journal)) [
      | none ↦ ok tt
      | some e ↦ err (checkpoint (text "checkpoint journal allocation failed during open: " ∷ e))
    ]
    ok (record {
      binding = parts.binding;
      bytes = journal;
      journal = record { start = 0; stop = length journal };
      artifact_sha256 = parts.artifact_sha256;
      worker_build_sha256 = parts.worker_build_sha256;
    })
