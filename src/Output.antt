-- ===== src/Output.antt =====
-- src/wasix_output.rs: the bounded, in-memory sink for the output of a worker's guest.
-- All clones of a sink share one state behind a mutex, so every operation is a step on that state,
-- whichever clone it is called on. Every poll is ready at once, and no lock is held across two calls.
pub mod Vectored
pub mod Captured
pub mod Atomic
use wasm_runtime.Base.{
  ℕ, ◌+◌, ◌-◌, ◌≤◌, ◌<◌, Bool, true, false, not, Option, none, some, List, [], ◌∷◌, ◌++◌, Bytes,
  length, ltb, ◌==◌, if◌then◌else◌,
}
use wasm_runtime.Failure.{Message, checked_add}

-- The `io::Error` values of this file; the message of `limit_exceeded` names the limit.
pub data OutputError : Type 0 where
  broken_pipe : OutputError
  limit_exceeded : ℕ → OutputError
  out_of_memory : Message → OutputError

pub data Polled (A : Type 0) : Type 0 where
  accepted : A → Polled A
  failed : OutputError → Polled A

pub record OutputState : Type 0 where
  pub bytes : Bytes
  pub limit : ℕ
  pub overflowed : Bool
  pub closed : Bool

-- An operation on the shared state.
abbrev pub Operation : Type 0 → Type 0
Operation A = OutputState → OutputState × Polled A

abbrev overflow : OutputState → OutputState × Polled ℕ
overflow state = (record state { overflowed = true }, failed (limit_exceeded state.limit))

unfoldable pub poll_write : Bytes → Operation ℕ
poll_write buffer state =
    if length buffer == 0
    then (state, accepted 0)
    else if state.closed
    then (state, failed broken_pipe)
    else if state.overflowed
    then (state, failed (limit_exceeded state.limit))
    else elim (checked_add (length state.bytes) (length buffer)) [
      | none ↦ overflow state
      | some new_len ↦
          if ltb state.limit new_len
          then overflow state
          else (record state { bytes = state.bytes ++ buffer }, accepted (length buffer))
    ]

-- The `try_fold` over the lengths of the buffers.
unfoldable pub vectored_len : ℕ → List Bytes → Option ℕ
vectored_len total [] = some total
vectored_len total (buffer ∷ buffers) = elim (checked_add total (length buffer)) [
  | none ↦ none
  | some sum ↦ vectored_len sum buffers
]

-- The loop that appends the buffers.
unfoldable pub extend_all : Bytes → List Bytes → Bytes
extend_all bytes [] = bytes
extend_all bytes (buffer ∷ buffers) = extend_all (bytes ++ buffer) buffers

unfoldable pub poll_write_vectored : List Bytes → Operation ℕ
poll_write_vectored buffers state = elim (vectored_len 0 buffers) [
  | none ↦ overflow state
  | some write_len ↦
      if write_len == 0
      then (state, accepted 0)
      else if state.closed
      then (state, failed broken_pipe)
      else if state.overflowed
      then (state, failed (limit_exceeded state.limit))
      else elim (checked_add (length state.bytes) write_len) [
        | none ↦ overflow state
        | some new_len ↦
            if ltb state.limit new_len
            then overflow state
            else (record state { bytes = extend_all state.bytes buffers }, accepted write_len)
      ]
]

unfoldable pub poll_shutdown : Operation (Unit {0})
poll_shutdown state = (record state { closed = true }, accepted tt)

abbrev pub poll_flush : Operation (Unit {0})
poll_flush state = (state, accepted tt)

-- `limit - bytes.len()` on `usize`, which must not wrap.
unfoldable pub poll_write_ready : Operation ℕ
poll_write_ready state =
    if state.closed
    then (state, failed broken_pipe)
    else if state.overflowed
    then (state, failed (limit_exceeded state.limit))
    else (state, accepted (state.limit - length state.bytes))

abbrev pub size : OutputState → ℕ
size state = length state.bytes

abbrev pub is_open : OutputState → Bool
is_open state = not state.closed

-- `Vec::try_reserve_exact`: `none`, or the text of the allocation error.
module _ (try_reserve_exact : ℕ → Option Message) where
  unfoldable pub new : ℕ → Polled OutputState
  new limit = elim (try_reserve_exact limit) [
    | none ↦ accepted (record { bytes = []; limit = limit; overflowed = false; closed = false })
    | some e ↦ failed (out_of_memory e)
  ]

  unfoldable pub finish : OutputState → Polled Bytes
  finish state =
      if state.overflowed
      then failed (limit_exceeded state.limit)
      else elim (try_reserve_exact (length state.bytes)) [
        | none ↦ accepted state.bytes
        | some e ↦ failed (out_of_memory e)
      ]
