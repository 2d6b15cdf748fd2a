-- ===== src/Runtime/Input.antt =====
-- src/runtime.rs and src/types.rs: a program, and the input and the output of a run.
use wasm_runtime.Base.{ℕ, Bool, ◌||◌, List, [], ◌∷◌, Bytes, length, ltb, ◌==◌}
use wasm_runtime.Config.{RuntimeLimits}
use wasm_runtime.DiskCache.{Crates, component_digest}
use wasm_runtime.Failure.{text, limit, cancelled, unsupported_component, Result, ok, reject, ◌>>◌}
use wasm_runtime.Profiles.{WasiVersion, PackageTier}

pub record Program : Type 0 where
  pub digest : Bytes
  pub bytes : Bytes

-- `Runtime::load_bytes`, without the promotion that it schedules.
unfoldable pub load_bytes : Crates → Bytes → Result Program
load_bytes x bytes =
    reject (length bytes == 0) (unsupported_component (text "component bytes are empty" ∷ []))
    >> ok (record { digest = component_digest x bytes; bytes = bytes })

-- `cancelled` is the state of the cancellation token when the run begins.
pub record CommandInput : Type 0 where
  pub stdin : Bytes
  pub args : List Bytes
  pub env : List (Bytes × Bytes)
  pub timeout : ℕ
  pub is_cancelled : Bool

pub record InvocationResult : Type 0 where
  pub stdout : Bytes
  pub stderr : Bytes
  pub exit_code : ℕ

-- `CommandOutput` without its timings.
pub record CommandOutput : Type 0 where
  pub stdout : Bytes
  pub stderr : Bytes
  pub exit_code : ℕ
  pub wasi_version : WasiVersion
  pub prepared_from : PackageTier
  pub retained_as : PackageTier

-- The checks of `run_controlled` on the input.
unfoldable pub validate_input : RuntimeLimits → CommandInput → Result (Unit {0})
validate_input limits input =
    reject (ltb limits.max_input_bytes (length input.stdin)) (limit "input bytes")
    >> reject (input.timeout == 0 || ltb limits.max_timeout input.timeout) (limit "timeout")
    >> reject input.is_cancelled cancelled
