-- ===== src/Worker/Capture.antt =====
-- src/wasix_worker.rs: what a source worker writes to its standard output behind its
-- acknowledgement, and the capture that the parent makes of it. The two timeouts around it are left
-- out.
pub mod Received
pub mod Accepted
use wasm_runtime.Base.{
  ℕ, zero, suc, ◌*◌, Bool, true, false, not, ◌&&◌, ◌||◌, Option, none, some, String, List, [], ◌∷◌,
  Bytes, length, take, drop, ltb, leb, ◌==◌, if◌then◌else◌,
}
use wasm_runtime.Checkpoint.Binding.{WasixCheckpointBinding}
use wasm_runtime.Checkpoint.Seal.{CapturedWasixJournal, from_attested_worker_capture}
use wasm_runtime.Failure.{Message, Result, ok, err, panic, stuck}
use wasm_runtime.Failure.Phases.{
  ℤ, pos, negsuc, WasixCheckpointCapturePhase, WasixCheckpointCaptureFailureReason, protocol,
  runtime, worker_process, execution, output, shutdown,
}
use wasm_runtime.Worker.Frames.{
  Pipe, read_frame, read_bounded_worker_frame, wasix_worker_max_checkpoint_bytes,
  wasix_worker_max_restore_output_bytes,
}
use wasm_runtime.Worker.Messages.{
  WasixCheckpointCaptureCompletion, is_zero, validate_capture_completion,
}

-- `std::process::ExitStatus` on Unix.
pub record ExitStatus : Type 0 where
  pub code : Option ℤ
  pub signal : Option ℤ

unfoldable pub success : ExitStatus → Bool
success status = elim status.code [ none ↦ false | some code ↦ is_zero code ]

pub record CaptureOperationFailure : Type 0 where
  pub phase : WasixCheckpointCapturePhase
  pub reason : WasixCheckpointCaptureFailureReason
  pub exit_status : Option ExitStatus

pub data Captured (A : Type 0) : Type 0 where
  refused : CaptureOperationFailure → Captured A
  captured : A → Captured A

infixl 5 ◌>>=◌ ◌>>◌
abbrev pub ◌>>=◌ : {A B : Type 0} → Captured A → (A → Captured B) → Captured B
refused f >>= next = refused f
captured a >>= next = next a

abbrev pub ◌>>◌ : {B : Type 0} → Captured (Unit {0}) → Captured B → Captured B
checked >> next = checked >>= λ passed. next

abbrev pub failure :
    WasixCheckpointCapturePhase → WasixCheckpointCaptureFailureReason → CaptureOperationFailure
failure phase reason = record { phase = phase; reason = reason; exit_status = none }

-- `result.map_err(|_| failure)`; the functions that are called do not panic.
abbrev pub or_fail : {A : Type 0} → Result A → CaptureOperationFailure → Captured A
or_fail (ok a) f = captured a
or_fail (err e) f = refused f
or_fail panic f = refused f
or_fail stuck f = refused f

abbrev pub some_or : {A : Type 0} → Option A → CaptureOperationFailure → Captured A
some_or (some a) f = captured a
some_or none f = refused f

abbrev reject_with : Bool → CaptureOperationFailure → Captured (Unit {0})
reject_with true f = refused f
reject_with false f = captured tt

-- The allocator, `serde_json::from_slice` at the completion, and `hex::encode(Sha256::digest(..))`.
pub record Crates : Type 0 where
  pub try_reserve_exact : ℕ → Option Message
  pub completion_from_slice : Bytes → Option WasixCheckpointCaptureCompletion
  pub digest_text : Bytes → Bytes

pub record CaptureOutput : Type 0 where
  pub completion : WasixCheckpointCaptureCompletion
  pub journal : Bytes
  pub stdout : Bytes
  pub stderr : Bytes

-- `WasixCheckpointCapture`, without the metadata and the digest of the module.
pub record WasixCheckpointCapture : Type 0 where
  pub binding : WasixCheckpointBinding
  pub stdout : Bytes
  pub stderr : Bytes
  pub journal_sha256 : Bytes
  pub journal : CapturedWasixJournal

-- The length that a `read` into one byte returns, or its error.
abbrev pub trailing : Pipe → Option ℕ
trailing pipe = elim pipe.bytes [
  | [] ↦ elim pipe.broken [ none ↦ some 0 | some m ↦ none ]
  | b ∷ bs ↦ some 1
]

-- `finish_checkpoint_capture_output`, with what waiting for the worker gives. The worker's process
-- tree is killed on the way.
unfoldable pub finish_checkpoint_capture_output : Option ExitStatus → Pipe → Captured (Unit {0})
finish_checkpoint_capture_output waited pipe = do
  count ← some_or (trailing pipe) (failure shutdown protocol)
  reject_with (not (count == 0)) (failure shutdown protocol)
  status ← some_or waited (failure shutdown worker_process)
  reject_with (not (success status))
      (record { phase = shutdown; reason = worker_process; exit_status = some status })

module _ (x : Crates) where
  abbrev read_bounded : ℕ → Bool → String → Pipe → Result (Bytes × Pipe)
  read_bounded = read_bounded_worker_frame x.try_reserve_exact

  unfoldable pub collect_checkpoint_capture_output :
      Option ExitStatus → Pipe → Captured CaptureOutput
  collect_checkpoint_capture_output waited pipe = do
    (frame, rest) ← or_fail (read_frame x.try_reserve_exact pipe) (failure execution runtime)
    completion ← some_or (x.completion_from_slice frame) (failure execution protocol)
    (journal, behind_journal) ←
        or_fail (read_bounded wasix_worker_max_checkpoint_bytes false "capture journal" rest)
          (failure output protocol)
    (stdout, behind_stdout) ←
        or_fail
          (read_bounded wasix_worker_max_restore_output_bytes true "capture stdout" behind_journal)
          (failure output protocol)
    (stderr, behind_stderr) ←
        or_fail
          (read_bounded wasix_worker_max_restore_output_bytes true "capture stderr" behind_stdout)
          (failure output protocol)
    or_fail (validate_capture_completion x.digest_text completion journal stdout stderr)
        (failure output protocol)
    finish_checkpoint_capture_output waited behind_stderr
    captured
        (record { completion = completion; journal = journal; stdout = stdout; stderr = stderr })

  -- The end of the capture, behind the acknowledgement of a worker of this build.
  unfoldable pub receive_capture :
      WasixCheckpointBinding → Bytes → Option ExitStatus → Pipe → Captured WasixCheckpointCapture
  receive_capture binding worker_build_sha256 waited pipe = do
    out ← collect_checkpoint_capture_output waited pipe
    journal ←
        or_fail (from_attested_worker_capture out.journal binding worker_build_sha256)
          (failure output protocol)
    captured (record {
      binding = binding;
      stdout = out.stdout;
      stderr = out.stderr;
      journal_sha256 = out.completion.journal_sha256;
      journal = journal;
    })
