-- ===== src/Worker/Requesting.antt =====
-- src/wasix_worker.rs: what a capture checks and encodes before a worker is started for it. Pinning
-- the executable, which opens and hashes the file in between, is left out.
pub mod Requested
use wasm_runtime.Base.{
  ℕ, zero, suc, ◌*◌, Bool, true, false, not, ◌&&◌, ◌||◌, Option, none, some, List, [], ◌∷◌, Bytes,
  codes, length, any, ltb, ◌==◌, equal,
}
use wasm_runtime.Failure.{
  Message, text, configuration, unsupported_component, checkpoint, cancelled, Result, ok, err,
  reject, ◌>>=◌, ◌>>◌,
}
use wasm_runtime.Runtime.Input.{CommandInput}
use wasm_runtime.Worker.{wasix_worker_max_supplementary_groups}
use wasm_runtime.Worker.Messages.{WasixCheckpointCaptureRequest, validate_request}

abbrev pub max_handshake_timeout : ℕ
max_handshake_timeout = 30 * 1000000000

abbrev pub wasix_worker_max_module_bytes : ℕ
wasix_worker_max_module_bytes = 64 * 1024 * 1024

abbrev pub wasix_worker_max_capture_request_bytes : ℕ
wasix_worker_max_capture_request_bytes = 64 * 1024

pub record WasixWorkerConfig : Type 0 where
  pub executable : Bytes
  pub handshake_timeout : ℕ
  pub allowed_supplementary_groups : List ℕ

-- `Path::is_absolute` on Unix.
abbrev pub is_absolute : Bytes → Bool
is_absolute [] = false
is_absolute (b ∷ path) = b == b'/'

unfoldable pub validate_common : WasixWorkerConfig → Result (Unit {0})
validate_common config =
    reject (not (is_absolute config.executable))
      (configuration (text "WASIX worker executable must be an absolute path" ∷ []))
    >> reject (config.handshake_timeout == 0 || ltb max_handshake_timeout config.handshake_timeout)
        (configuration
          (text "WASIX worker handshake timeout must be between zero and 30 seconds" ∷ []))
    >> reject
        (ltb wasix_worker_max_supplementary_groups (length config.allowed_supplementary_groups)
          || any (λ g. g == 0) config.allowed_supplementary_groups)
        (configuration (text "WASIX worker supplementary group allowlist is invalid" ∷ []))

abbrev valid_or : Option Message → Result (Unit {0})
valid_or none = ok tt
valid_or (some m) = err (configuration m)

-- `WasixCheckpointCaptureRequest::new`
unfoldable pub new : CommandInput → Result (WasixCheckpointCaptureRequest × ℕ)
new input =
    reject (not (length input.stdin == 0))
      (configuration (text "WASIX checkpoint capture does not yet support standard input" ∷ []))
    >> reject (input.timeout == 0 || ltb max_handshake_timeout input.timeout) (
        configuration
          (text "WASIX checkpoint capture timeout must be between zero and 30 seconds" ∷ []))
    >> valid_or (validate_request (record { arguments = input.args; environment = input.env }))
    >> ok (record { arguments = input.args; environment = input.env }, input.timeout)

pub data Encoded : Type 0 where
  encoded : Bytes → Encoded
  refused : Message → Encoded

-- `serde_json::to_vec` is a parameter.
module _ (request_to_vec : WasixCheckpointCaptureRequest → Encoded) where
  abbrev pub encode : WasixCheckpointCaptureRequest → Result Bytes
  encode request = elim (request_to_vec request) [
    | encoded bytes ↦ ok bytes
    | refused m ↦ err (configuration (text "capture request encoding failed: " ∷ m))
  ]

  -- The beginning of `capture_wasix_checkpoint_linux`.
  unfoldable pub encode_request : Bytes → Bytes → WasixCheckpointCaptureRequest → Result Bytes
  encode_request command wasm_module request = do
    reject (not (equal command (codes "_start"))) (
        unsupported_component
          (text "WASIX checkpoint capture supports only the \"_start\" command" ∷ []))
    reject (length wasm_module == 0 || ltb wasix_worker_max_module_bytes (length wasm_module))
        (checkpoint (text "WASIX capture module exceeds the worker input limit" ∷ []))
    bytes ← encode request
    reject (length bytes == 0 || ltb wasix_worker_max_capture_request_bytes (length bytes))
        (configuration (text "WASIX checkpoint capture request exceeds the protocol limit" ∷ []))
    ok bytes

  -- `capture_wasix_checkpoint` up to there: the encoded request and the time for the execution.
  unfoldable pub prepare_request :
      WasixWorkerConfig → Bytes → Bytes → CommandInput → Result (Bytes × ℕ)
  prepare_request config command wasm_module input = do
    validate_common config
    (request, execution_timeout) ← new input
    reject input.is_cancelled cancelled
    bytes ← encode_request command wasm_module request
    ok (bytes, execution_timeout)
