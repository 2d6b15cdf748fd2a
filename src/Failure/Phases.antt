-- ===== src/Failure/Phases.antt =====
-- src/error.rs: the phases and reasons of failed checkpoint operations, and the diagnostics of a
-- worker process that they carry.
use wasm_runtime.Base.{ℕ, Bool, Option, Bytes}

pub data WasixCheckpointRestorePhase : Type 0 where
  ready input authorization execution output shutdown : WasixCheckpointRestorePhase

pub data WasixCheckpointCapturePhase : Type 0 where
  ready input authorization execution output shutdown : WasixCheckpointCapturePhase

pub data WasixCheckpointRestoreFailureReason : Type 0 where
  protocol runtime resource_limit worker_process : WasixCheckpointRestoreFailureReason

pub data WasixCheckpointCaptureFailureReason : Type 0 where
  protocol runtime resource_limit worker_process : WasixCheckpointCaptureFailureReason

-- An `i32`: `negsuc n` is -(n + 1).
pub data ℤ : Type 0 where
  pos : ℕ → ℤ
  negsuc : ℕ → ℤ

pub record WasixWorkerDiagnostics : Type 0 where
  pub bytes : Bytes
  pub truncated : Bool

pub record WasixCheckpointRestoreFailure : Type 0 where
  pub phase : WasixCheckpointRestorePhase
  pub reason : WasixCheckpointRestoreFailureReason
  pub diagnostics : WasixWorkerDiagnostics
  pub exit_code : Option ℤ
  pub exit_signal : Option ℤ

pub record WasixCheckpointCaptureFailure : Type 0 where
  pub phase : WasixCheckpointCapturePhase
  pub reason : WasixCheckpointCaptureFailureReason
  pub diagnostics : WasixWorkerDiagnostics
  pub exit_code : Option ℤ
  pub exit_signal : Option ℤ
