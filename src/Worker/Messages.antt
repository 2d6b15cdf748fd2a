-- ===== src/Worker/Messages.antt =====
-- src/wasix_worker.rs: the messages that a worker answers with, and the request that it is sent.
use wasm_runtime.Base.{
  ℕ, ◌*◌, ◌^◌, Bool, true, false, not, ◌&&◌, ◌||◌, Option, none, some, List, [], ◌∷◌, String, Bytes,
  length, any, ltb, ◌==◌, equal,
}
use wasm_runtime.Failure.{Message, text, execution, Result, reject}
use wasm_runtime.Failure.Phases.{ℤ, pos, negsuc}

pub record WasixCheckpointTransportAck : Type 0 where
  pub journal_bytes : ℕ
  pub journal_sha256 : Bytes

pub record WasixCheckpointRestoreAck : Type 0 where
  pub module_bytes : ℕ
  pub module_sha256 : Bytes
  pub journal_bytes : ℕ
  pub journal_sha256 : Bytes

pub record WasixCheckpointRestoreCompletion : Type 0 where
  pub exit_code : ℤ
  pub stdout_bytes : ℕ
  pub stdout_sha256 : Bytes
  pub stderr_bytes : ℕ
  pub stderr_sha256 : Bytes

pub record WasixCheckpointCaptureCompletion : Type 0 where
  pub exit_code : ℤ
  pub journal_bytes : ℕ
  pub journal_sha256 : Bytes
  pub stdout_bytes : ℕ
  pub stdout_sha256 : Bytes
  pub stderr_bytes : ℕ
  pub stderr_sha256 : Bytes

-- The map of the environment is the list of its entries, in the order of the keys.
pub record WasixCheckpointCaptureRequest : Type 0 where
  pub arguments : List Bytes
  pub environment : List (Bytes × Bytes)

unfoldable pub validate_transport_ack : WasixCheckpointTransportAck → ℕ → Bytes → Result (Unit {0})
validate_transport_ack ack expected_bytes expected_sha256 =
    reject
      (not (ack.journal_bytes == expected_bytes) || not (equal ack.journal_sha256 expected_sha256))
      (execution
        (text "WASIX worker checkpoint acknowledgement did not match the sealed input" ∷ []))

unfoldable pub validate_restore_ack :
    WasixCheckpointRestoreAck → ℕ → Bytes → ℕ → Bytes → Result (Unit {0})
validate_restore_ack ack module_bytes module_sha256 journal_bytes journal_sha256 =
    reject
      (not (ack.module_bytes == module_bytes)
        || not (equal ack.module_sha256 module_sha256)
        || not (ack.journal_bytes == journal_bytes)
        || not (equal ack.journal_sha256 journal_sha256))
      (execution (text "WASIX worker restore acknowledgement did not match the sealed inputs" ∷ []))

abbrev pub is_zero : ℤ → Bool
is_zero (pos n) = n == 0
is_zero (negsuc n) = false

-- `hex::encode(Sha256::digest(bytes))` is a parameter.
module _ (digest_text : Bytes → Bytes) where
  -- `u64::try_from(len).ok() == Some(expected)`, and the digests.
  abbrev pub matches : Bytes → ℕ → Bytes → Bool
  matches bytes expected_bytes expected_sha256 =
      (ltb (length bytes) (2 ^ 64) && length bytes == expected_bytes)
      && equal (digest_text bytes) expected_sha256

  unfoldable pub validate_restore_completion :
      WasixCheckpointRestoreCompletion → Bytes → Bytes → Result (Unit {0})
  validate_restore_completion c stdout stderr =
      reject
        (not (is_zero c.exit_code)
          || not (matches stdout c.stdout_bytes c.stdout_sha256)
          || not (matches stderr c.stderr_bytes c.stderr_sha256))
        (execution (text "WASIX worker restore completion did not match its output" ∷ []))

  unfoldable pub validate_capture_completion :
      WasixCheckpointCaptureCompletion → Bytes → Bytes → Bytes → Result (Unit {0})
  validate_capture_completion c journal stdout stderr =
      reject
        (not (is_zero c.exit_code)
          || not (matches journal c.journal_bytes c.journal_sha256)
          || not (matches stdout c.stdout_bytes c.stdout_sha256)
          || not (matches stderr c.stderr_bytes c.stderr_sha256))
        (execution (text "WASIX worker capture completion did not match its output" ∷ []))

abbrev pub wasix_worker_max_capture_arguments : ℕ
wasix_worker_max_capture_arguments = 256

abbrev pub wasix_worker_max_capture_environment : ℕ
wasix_worker_max_capture_environment = 256

abbrev pub wasix_worker_max_capture_value_bytes : ℕ
wasix_worker_max_capture_value_bytes = 4 * 1024

-- The results with a bare text: `none` is success.
abbrev pub Checked : Type 0
Checked = Option Message

abbrev pub then_check : Checked → Checked → Checked
then_check none next = next
then_check (some e) next = some e

abbrev refuse : Bool → Message → Checked
refuse true m = some m
refuse false m = none

unfoldable pub validate_capture_value : String → Bytes → ℕ → Checked
validate_capture_value label value maximum =
    refuse (ltb maximum (length value) || any (λ b. b == 0) value)
      (text "WASIX checkpoint capture " ∷ text label ∷ text " is invalid" ∷ [])

unfoldable pub validate_arguments : List Bytes → Checked
validate_arguments [] = none
validate_arguments (argument ∷ arguments) =
    then_check (validate_capture_value "argument" argument wasix_worker_max_capture_value_bytes)
      (validate_arguments arguments)

abbrev pub validate_entry : Bytes → Bytes → Checked
validate_entry key value =
    then_check
      (refuse (length key == 0 || any (λ b. b == b'=') key)
        (text "WASIX checkpoint capture environment key is invalid" ∷ []))
      (then_check (validate_capture_value "environment key" key 256)
        (validate_capture_value "environment value" value wasix_worker_max_capture_value_bytes))

unfoldable pub validate_environment : List (Bytes × Bytes) → Checked
validate_environment [] = none
validate_environment ((key, value) ∷ entries) =
    then_check (validate_entry key value) (validate_environment entries)

unfoldable pub validate_request : WasixCheckpointCaptureRequest → Checked
validate_request request =
    then_check
      (refuse
        (ltb wasix_worker_max_capture_arguments (length request.arguments)
          || ltb wasix_worker_max_capture_environment (length request.environment))
        (text "WASIX checkpoint capture input contains too many entries" ∷ []))
      (then_check (validate_arguments request.arguments) (validate_environment request.environment))
