-- ===== src/Checkpoint/Reading.antt =====
-- src/checkpoint.rs: `open_reader`, over a reader that delivers its bytes in any pieces.
pub mod Delivered
pub mod Opened
use wasm_runtime.Base.{
  ℕ, suc, zero, ◌-◌, Bool, true, false, none, some, not, String, List, [], ◌∷◌, ◌++◌, Bytes, length,
  take, drop, leb, ◌==◌, if◌then◌else◌,
}
use wasm_runtime.Failure.{
  Message, Error, text, checkpoint, Result, ok, err, panic, ◌>>=◌, ◌>>◌, reject,
}
use wasm_runtime.Checkpoint.Binding.{WasixCheckpointBinding, validate}
use wasm_runtime.Checkpoint.Metadata.{External}
use wasm_runtime.Checkpoint.Codec.{
  WasixCheckpointCodec, validate_limit, maximum_artifact_bytes, validate_header,
  checkpoint_header_bytes,
}
use wasm_runtime.Checkpoint.Verify.{VerifiedWasixCheckpoint, verify_parts}

-- What the next `read` of a reader meets: bytes that are there (a buffer that is shorter leaves the
-- others for the next call, and no bytes at all are an end of file), an interruption, or an error,
-- which may itself be of the kind `UnexpectedEof`. Behind the last event every read meets the end.
pub data ReadEvent : Type 0 where
  bytes_ready : Bytes → ReadEvent
  interrupted : ReadEvent
  failed : (unexpected_eof : Bool) (message : Message) → ReadEvent

-- The bytes that a short buffer left.
abbrev pub put_back : Bytes → List ReadEvent → List ReadEvent
put_back [] events = events
put_back (b ∷ bs) events = bytes_ready (b ∷ bs) ∷ events

abbrev truncated : Error
truncated = checkpoint (text "checkpoint artifact is truncated" ∷ [])

-- `read_checkpoint_exact` for a buffer of the given length, with the loop of `Read::read_exact`.
unfoldable pub read_checkpoint_exact : String → ℕ → List ReadEvent → Result (Bytes × List ReadEvent)
read_checkpoint_exact phase zero events = ok ([], events)
read_checkpoint_exact phase (suc n) [] = err truncated
read_checkpoint_exact phase (suc n) (interrupted ∷ events) =
    read_checkpoint_exact phase (suc n) events
read_checkpoint_exact phase (suc n) (failed unexpected_eof message ∷ events) =
    if unexpected_eof
    then err truncated
    else err
        (checkpoint (text "checkpoint artifact " ∷ text phase ∷ text " read failed: " ∷ message))
read_checkpoint_exact phase (suc n) (bytes_ready [] ∷ events) = err truncated
read_checkpoint_exact phase (suc n) (bytes_ready (b ∷ bs) ∷ events) =
    let rest = read_checkpoint_exact phase (n - length bs) events in
    if leb n (length bs)
    then ok (b ∷ take n bs, put_back (drop n bs) events)
    else rest >>= λ (more, left). ok (b ∷ (bs ++ more), left)

-- `read_checkpoint_trailing_byte`: the number of bytes read into a buffer of one.
unfoldable pub read_checkpoint_trailing_byte : List ReadEvent → Result ℕ
read_checkpoint_trailing_byte [] = ok 0
read_checkpoint_trailing_byte (bytes_ready [] ∷ events) = ok 0
read_checkpoint_trailing_byte (bytes_ready (b ∷ bs) ∷ events) = ok 1
read_checkpoint_trailing_byte (interrupted ∷ events) = read_checkpoint_trailing_byte events
read_checkpoint_trailing_byte (failed unexpected_eof message ∷ events) =
    err (checkpoint (text "checkpoint artifact trailing-byte check failed: " ∷ message))

-- The length of `artifact[CHECKPOINT_HEADER_BYTES..]`, which panics out of range.
unfoldable pub body_len : ℕ → Result ℕ
body_len n = if leb checkpoint_header_bytes n then ok (n - checkpoint_header_bytes) else panic

module _ (x : External) (codec : WasixCheckpointCodec) where
  unfoldable pub reserve_read : ℕ → Result (Unit {0})
  reserve_read n = elim (x.try_reserve_exact n) [
    | none ↦ ok tt
    | some e ↦ err (checkpoint (text "checkpoint artifact allocation failed while reading: " ∷ e))
  ]

  -- The end of `open_reader`: nothing may follow, and the whole artifact is verified.
  unfoldable pub finish_reading :
      WasixCheckpointBinding → ℕ → ℕ → Bytes → List ReadEvent → Result VerifiedWasixCheckpoint
  finish_reading expected_binding maximum artifact_len artifact events = do
    trailing_bytes ← read_checkpoint_trailing_byte events
    reject (not (trailing_bytes == 0)) (
        checkpoint (
          text (
            if artifact_len == maximum
            then "checkpoint artifact exceeds the configured limit while reading"
            else "checkpoint artifact length does not match its header")
          ∷ []))
    parts ← verify_parts x codec expected_binding artifact
    ok (record {
      binding = parts.binding;
      bytes = artifact;
      journal = parts.journal;
      artifact_sha256 = parts.artifact_sha256;
      worker_build_sha256 = parts.worker_build_sha256;
    })

  -- The middle of `open_reader`: one allocation of the declared length, filled behind the header.
  unfoldable pub read_body :
      WasixCheckpointBinding → ℕ → Bytes → List ReadEvent → ℕ → Result VerifiedWasixCheckpoint
  read_body expected_binding maximum header events artifact_len = do
    reserve_read artifact_len
    n ← body_len artifact_len
    (body, behind_body) ← read_checkpoint_exact "body" n events
    finish_reading expected_binding maximum artifact_len (header ++ body) behind_body

  unfoldable pub open_reader :
      WasixCheckpointBinding → List ReadEvent → Result VerifiedWasixCheckpoint
  open_reader expected_binding events = do
    validate_limit codec
    validate expected_binding
    maximum ← maximum_artifact_bytes codec
    (header, behind_header) ← read_checkpoint_exact "header" checkpoint_header_bytes events
    layout ← validate_header codec header
    read_body expected_binding maximum header behind_header layout.artifact_len
