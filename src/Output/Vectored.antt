-- ===== src/Output/Vectored.antt =====
-- src/wasix_output.rs: a vectored write beside one write of the concatenated buffers.
use wasm_runtime.Base.{
  ℕ, ◌+◌, ◌<◌, ◌≡◌, sym, ap, ◌∙◌, some, List, [], ◌∷◌, ◌++◌, append-nil, append_assoc, arith, Bytes,
  length, length-append,
}
use wasm_runtime.Failure.{checked_add, usize_end}
use wasm_runtime.Output.{OutputState, poll_write, poll_write_vectored, vectored_len, extend_all}

abbrev pub flatten : List Bytes → Bytes
flatten [] = []
flatten (buffer ∷ buffers) = buffer ++ flatten buffers

pub vectored_len-flatten :
    (buffers : List Bytes) (total : ℕ)
    → total + length (flatten buffers) < usize_end
    → vectored_len total buffers ≡ some (total + length (flatten buffers))
unfolding vectored_len checked_add
vectored_len-flatten [] total h = ap some (omega arith)
vectored_len-flatten (buffer ∷ buffers) total h =
    let size = length-append buffer (flatten buffers) in
    let rest = vectored_len-flatten buffers (total + length buffer) (omega arith) in ground arith

pub extend_all-flatten :
    (buffers : List Bytes) (bytes : Bytes) → extend_all bytes buffers ≡ bytes ++ flatten buffers
unfolding extend_all
extend_all-flatten [] bytes = sym (append-nil bytes)
extend_all-flatten (buffer ∷ buffers) bytes =
    extend_all-flatten buffers (bytes ++ buffer) ∙ append_assoc bytes buffer (flatten buffers)

from_zero : (n : ℕ) → 0 + n ≡ n
from_zero n = omega arith

-- A vectored write leaves the state and answers as one write of the concatenated buffers does, for
-- buffers whose total length a `usize` counts.
pub poll_write_vectored-poll_write :
    (buffers : List Bytes) (state : OutputState)
    → length (flatten buffers) < usize_end
    → poll_write_vectored buffers state ≡ poll_write (flatten buffers) state
unfolding poll_write_vectored poll_write
poll_write_vectored-poll_write buffers state h =
    let size =
      vectored_len-flatten buffers 0 (omega arith)
      ∙ ap some (from_zero (length (flatten buffers))) in
    ground (arith, size, extend_all-flatten buffers state.bytes)
