-- ===== src/Output/Atomic.antt =====
-- src/wasix_output.rs: a single write, and the announced room.
use wasm_runtime.Base.{
  ℕ, ◌+◌, ◌≤◌, ◌≡◌, sym, ap, Bool-cases, ltb, leb, ◌&&◌, ◌⊎◌, inl, inr, refl, true, [], ◌∷◌, ◌++◌,
  append-nil, arith, Bytes, length,
}
use wasm_runtime.Failure.{checked_add, usize_end}
use wasm_runtime.Output.{
  OutputState, Polled, accepted, failed, broken_pipe, limit_exceeded, poll_write, poll_write_ready,
}
use wasm_runtime.Output.Captured.{IsBounded}

-- A refused write: the error, the captured bytes, the limit and the openness as they were, and an
-- overflow flag that is set or was not needed.
pub record IsRefused (before after : OutputState) (answer : Polled ℕ) : Type 0 where
  pub error : (answer ≡ failed broken_pipe) ⊎ (answer ≡ failed (limit_exceeded before.limit))
  pub bytes : after.bytes ≡ before.bytes
  pub limit : after.limit ≡ before.limit
  pub closed : after.closed ≡ before.closed
  pub sticky : before.overflowed ≡ true → after.overflowed ≡ true

-- A write that is kept: the whole buffer, and nothing else changes.
pub record IsKept (buffer : Bytes) (before after : OutputState) (answer : Polled ℕ) : Type 0 where
  pub length_answered : answer ≡ accepted (length buffer)
  pub appended : after ≡ record before { bytes = before.bytes ++ buffer }

-- A write is kept whole or refused: it either answers its full length and appends its buffer, or
-- answers an error and leaves the captured bytes, the limit and the openness of the sink as they
-- were, and never clears the overflow flag.
pub poll_write_atomic :
    (buffer : Bytes) (state : OutputState)
    → IsKept buffer state (poll_write buffer state).0 (poll_write buffer state).1
      ⊎ IsRefused state (poll_write buffer state).0 (poll_write buffer state).1
unfolding poll_write checked_add
poll_write_atomic [] state = inl (record {
  length_answered = refl;
  appended = ap (λ t. record state { bytes = t }) (sym (append-nil state.bytes));
})
poll_write_atomic (b ∷ buffer) state = elim (Bool-cases state.closed) [
  | inl shut ↦ inr (record {
    error = inl (ground arith);
    bytes = ground arith;
    limit = ground arith;
    closed = ground arith;
    sticky = λ o. ground arith;
  })
  | inr unshut ↦ elim (Bool-cases state.overflowed) [
    | inl over ↦ inr (record {
      error = inr (ground arith);
      bytes = ground arith;
      limit = ground arith;
      closed = ground arith;
      sticky = λ o. ground arith;
    })
    | inr room ↦
        let n = length state.bytes + length (b ∷ buffer) in
        elim (Bool-cases (ltb n usize_end && leb n state.limit)) [
          | inl fits ↦ inl (record { length_answered = ground arith; appended = ground arith })
          | inr beyond ↦ inr (record {
            error = inr (ground arith);
            bytes = ground arith;
            limit = ground arith;
            closed = ground arith;
            sticky = λ o. ground arith;
          })
        ]
  ]
]

-- A write of at most the room that `poll_write_ready` announces is accepted.
pub poll_write_ready-poll_write :
    (buffer : Bytes) (state state' : OutputState) (room : ℕ)
    → IsBounded state
    → poll_write_ready state ≡ (state', accepted room)
    → length buffer ≤ room
    → poll_write buffer state
      ≡ (record state { bytes = state.bytes ++ buffer }, accepted (length buffer))
unfolding poll_write poll_write_ready checked_add
poll_write_ready-poll_write [] state state' room b e h =
    ap (λ t. (record state { bytes = t }, accepted 0)) (sym (append-nil state.bytes))
poll_write_ready-poll_write (c ∷ buffer) state state' room b e h = ground arith
