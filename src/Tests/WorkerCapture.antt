-- ===== src/Tests/WorkerCapture.antt =====
-- The theorems on captures of src/wasix_worker.rs at one small journal and one request.
use wasm_runtime.Base.{◌≡◌, ◌↔◌, refl, false, none, some, [], ◌∷◌, ◌++◌, Bytes, codes}
use wasm_runtime.Base.Words.{AllBytes, to_be_bytes}
use wasm_runtime.Failure.{ok}
use wasm_runtime.Failure.Phases.{pos}
use wasm_runtime.Runtime.Input.{CommandInput}
use wasm_runtime.Worker.Messages.{WasixCheckpointCaptureCompletion, WasixCheckpointCaptureRequest}
use wasm_runtime.Worker.Frames.{Pipe}
use wasm_runtime.Worker.Frames.Framed.{framed}
use wasm_runtime.Worker.Capture.{
  captured, Crates, ExitStatus, WasixCheckpointCapture, receive_capture,
}
use wasm_runtime.Worker.Capture.Accepted.{IsReceived, receive_capture_iff}
use wasm_runtime.Worker.Requesting.{WasixWorkerConfig, Encoded, encoded, prepare_request}
use wasm_runtime.Worker.Requesting.Requested.{IsRequested, prepare_request_iff}
use wasm_runtime.Tests.Crates.{all→AllBytes}
use wasm_runtime.Tests.Capture.{small_journal, binding, worker, captured as small_capture}

abbrev completion : WasixCheckpointCaptureCompletion
completion = record {
  exit_code = pos 0;
  journal_bytes = 36;
  journal_sha256 = small_journal;
  stdout_bytes = 1;
  stdout_sha256 = 3 ∷ [];
  stderr_bytes = 0;
  stderr_sha256 = [];
}

-- Enough memory, one completion, and digests that are the bytes themselves.
abbrev crates : Crates
crates = record {
  try_reserve_exact = λ n. none;
  completion_from_slice = λ frame. some completion;
  digest_text = λ bytes. bytes;
}

abbrev front : Bytes
front = framed (1 ∷ []) ++ framed small_journal

abbrev back : Bytes
back = framed (3 ∷ []) ++ framed []

abbrev pipe : Pipe
pipe = record {
  bytes = framed (1 ∷ []) ++ (framed small_journal ++ (framed (3 ∷ []) ++ framed []));
  broken = none;
}

abbrev exited : ExitStatus
exited = record { code = some (pos 0); signal = none }

abbrev capture : WasixCheckpointCapture
capture = record {
  binding = binding;
  stdout = 3 ∷ [];
  stderr = [];
  journal_sha256 = small_journal;
  journal = small_capture;
}

pipe_bytes : AllBytes pipe.bytes
unfolding to_be_bytes
pipe_bytes = all→AllBytes pipe.bytes refl

receive_capture_iff_example :
    (receive_capture crates binding worker (some exited) pipe ≡ captured capture)
    ↔ IsReceived crates binding worker (some exited) pipe capture
receive_capture_iff_example =
    receive_capture_iff crates binding worker (some exited) pipe capture (λ n small. refl)
      pipe_bytes

abbrev config : WasixWorkerConfig
config = record {
  executable = codes "/usr/bin/worker";
  handshake_timeout = 5000000000;
  allowed_supplementary_groups = 7 ∷ [];
}

abbrev input : CommandInput
input = record {
  stdin = [];
  args = codes "-c" ∷ codes "pass" ∷ [];
  env = (codes "HOME", codes "/work") ∷ [];
  timeout = 1000000000;
  is_cancelled = false;
}

abbrev request_to_vec : WasixCheckpointCaptureRequest → Encoded
request_to_vec request = encoded (codes "{}")

prepare_request_iff_example :
    (prepare_request request_to_vec config (codes "_start") (0 ∷ []) input
      ≡ ok (codes "{}", 1000000000))
    ↔ IsRequested request_to_vec config (codes "_start") (0 ∷ []) input (codes "{}") 1000000000
prepare_request_iff_example =
    prepare_request_iff request_to_vec config (codes "_start") (0 ∷ []) input (codes "{}")
      1000000000
