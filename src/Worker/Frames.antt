-- ===== src/Worker/Frames.antt =====
-- src/wasix_worker.rs: the frames that a worker writes, a length in four bytes and as many bytes.
pub mod Framed
use wasm_runtime.Base.{
  false, ℕ, ◌*◌, Bool, not, ◌&&◌, ◌||◌, Option, none, some, String, [], ◌∷◌, Bytes, length, take,
  drop, ltb, leb, ◌==◌, if◌then◌else◌,
}
use wasm_runtime.Base.Words.{from_be_bytes}
use wasm_runtime.Failure.{Message, text, number, execution, Result, ok, err, reject, ◌>>=◌, ◌>>◌}

-- What arrives on a pipe before its end, and the error that stands there instead of an end of file.
pub record Pipe : Type 0 where
  pub bytes : Bytes
  pub broken : Option Message

abbrev pub max_handshake_bytes : ℕ
max_handshake_bytes = 16 * 1024

abbrev pub wasix_worker_max_checkpoint_bytes : ℕ
wasix_worker_max_checkpoint_bytes = 512 * 1024 * 1024

abbrev pub wasix_worker_max_restore_output_bytes : ℕ
wasix_worker_max_restore_output_bytes = 64 * 1024

abbrev end_message : Option Message → Message
end_message none = text "early eof" ∷ []
end_message (some m) = m

-- `AsyncReadExt::read_exact` for a buffer of the given length, with its `map_err`.
unfoldable pub read_exact : (Message → Message) → ℕ → Pipe → Result (Bytes × Pipe)
read_exact describe n pipe =
    if leb n (length pipe.bytes)
    then ok (take n pipe.bytes, record pipe { bytes = drop n pipe.bytes })
    else err (execution (describe (end_message pipe.broken)))

-- The allocator is a parameter.
module _ (try_reserve_exact : ℕ → Option Message) where
  unfoldable pub reserve : String → ℕ → Result (Unit {0})
  reserve label n = elim (try_reserve_exact n) [
    | none ↦ ok tt
    | some e ↦ err (execution (text "failed to allocate WASIX " ∷ (text label ∷ (text ": " ∷ e))))
  ]

  -- The errors in front of the allocation and behind it; a `u32` fits a `usize`.
  unfoldable pub read_bounded_worker_frame : ℕ → Bool → String → Pipe → Result (Bytes × Pipe)
  read_bounded_worker_frame maximum allow_empty label pipe = do
    (prefix, behind) ←
        read_exact (λ m. text "failed to read WASIX " ∷ (text label ∷ (text " length: " ∷ m))) 4
          pipe
    let size = from_be_bytes prefix
    reject ((not allow_empty && size == 0) || ltb maximum size) (
        execution (
          text "WASIX "
          ∷ (text label ∷ (text " length " ∷ (number size ∷ (text " is invalid" ∷ []))))))
    reserve label size
    read_exact (λ m. text "failed to read WASIX " ∷ (text label ∷ (text ": " ∷ m))) size behind

  -- `read_frame`, which has the same steps and messages as a bounded frame of this label.
  unfoldable pub read_frame : Pipe → Result (Bytes × Pipe)
  read_frame = read_bounded_worker_frame max_handshake_bytes false "worker frame"
