-- ===== src/Tests/Output.antt =====
-- The theorems on src/wasix_output.rs at a sink of four bytes.
use wasm_runtime.Base.{◌≡◌, ◌⊎◌, refl, false, none, List, [], ◌∷◌, arith}
use wasm_runtime.Output.{
  OutputState, accepted, poll_write, poll_write_vectored, poll_write_ready, new, finish,
}
use wasm_runtime.Output.Vectored.{poll_write_vectored-poll_write}
use wasm_runtime.Output.Captured.{
  Call, write, write_vectored, flush, shutdown, run, captured, finish-captured,
}
use wasm_runtime.Output.Atomic.{IsKept, IsRefused, poll_write_atomic, poll_write_ready-poll_write}

abbrev sink : OutputState
sink = record { bytes = 1 ∷ []; limit = 4; overflowed = false; closed = false }

abbrev start : OutputState
start = record { bytes = []; limit = 4; overflowed = false; closed = false }

abbrev calls : List Call
calls =
    write (1 ∷ 2 ∷ [])
    ∷ flush
    ∷ write_vectored ((3 ∷ []) ∷ (4 ∷ []) ∷ [])
    ∷ shutdown
    ∷ write (5 ∷ [])
    ∷ []

finish-captured_example : finish (λ n. none) (run calls start) ≡ accepted (1 ∷ 2 ∷ 3 ∷ 4 ∷ [])
unfolding captured new
finish-captured_example =
    finish-captured (λ n. none) (λ n. refl) 4 calls start (omega arith)
      (omega arith, (omega arith, (omega arith, (omega arith, (omega arith, tt))))) refl

poll_write_vectored-poll_write_example :
    poll_write_vectored ((2 ∷ []) ∷ (3 ∷ 4 ∷ []) ∷ []) sink ≡ poll_write (2 ∷ 3 ∷ 4 ∷ []) sink
poll_write_vectored-poll_write_example =
    poll_write_vectored-poll_write ((2 ∷ []) ∷ (3 ∷ 4 ∷ []) ∷ []) sink (omega arith)

poll_write_atomic_example :
    IsKept (2 ∷ []) sink (poll_write (2 ∷ []) sink).0 (poll_write (2 ∷ []) sink).1
    ⊎ IsRefused sink (poll_write (2 ∷ []) sink).0 (poll_write (2 ∷ []) sink).1
poll_write_atomic_example = poll_write_atomic (2 ∷ []) sink

poll_write_ready-poll_write_example :
    poll_write (2 ∷ 3 ∷ []) sink
    ≡ (record { bytes = 1 ∷ 2 ∷ 3 ∷ []; limit = 4; overflowed = false; closed = false }, accepted 2)
unfolding poll_write_ready
poll_write_ready-poll_write_example =
    poll_write_ready-poll_write (2 ∷ 3 ∷ []) sink sink 3
      (record { within = omega arith; limit_counted = omega arith }) refl (omega arith)
