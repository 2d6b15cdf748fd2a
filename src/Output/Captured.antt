-- ===== src/Output/Captured.antt =====
-- src/wasix_output.rs: what a sink has captured after any sequence of operations on its clones.
use mathlib.Core.Path.{ap₂, subst}
use wasm_runtime.Base.{
  suc, ◌==◌, Bool-cases, inl, inr, ℕ, ◌+◌, ◌≤◌, ◌<◌, ◌≡◌, refl, sym, ap, ◌∙◌, Bool, true, false,
  Option, none, List, [], ◌∷◌, ◌++◌, append-nil, append_assoc, arith, All, Bytes, length,
  length-append, leb, if◌then◌else◌,
}
use wasm_runtime.Failure.{Message, checked_add, usize_end}
use wasm_runtime.Output.{
  OutputState, Polled, accepted, failed, limit_exceeded, poll_write, poll_write_vectored,
  poll_shutdown, poll_flush, new, finish,
}
use wasm_runtime.Output.Vectored.{flatten, poll_write_vectored-poll_write}

-- The calls on the clones of one sink, in the order in which they take its lock.
pub data Call : Type 0 where
  write : Bytes → Call
  write_vectored : List Bytes → Call
  flush : Call
  shutdown : Call

unfoldable pub step : Call → OutputState → OutputState
step (write buffer) state = (poll_write buffer state).0
step (write_vectored buffers) state = (poll_write_vectored buffers state).0
step flush state = (poll_flush state).0
step shutdown state = (poll_shutdown state).0

unfoldable pub run : List Call → OutputState → OutputState
run [] state = state
run (call ∷ calls) state = run calls (step call state)

abbrev pub payload : Call → Bytes
payload (write buffer) = buffer
payload (write_vectored buffers) = flatten buffers
payload flush = []
payload shutdown = []

-- What was written before the first shutdown.
unfoldable pub captured : List Call → Bytes
captured [] = []
captured (write buffer ∷ calls) = buffer ++ captured calls
captured (write_vectored buffers ∷ calls) = flatten buffers ++ captured calls
captured (flush ∷ calls) = captured calls
captured (shutdown ∷ calls) = []

-- The buffers of one call have a total length in `usize`.
abbrev pub IsCounted : Call → Type 0
IsCounted call = length (payload call) < usize_end

-- The invariant of the sink.
pub record IsBounded (state : OutputState) : Type 0 where
  pub within : length state.bytes ≤ state.limit
  pub limit_counted : state.limit < usize_end

pub poll_write-IsBounded :
    (buffer : Bytes) (state : OutputState) → IsBounded state → IsBounded (poll_write buffer state).0
unfolding poll_write checked_add
poll_write-IsBounded buffer state b = ground (arith, length-append state.bytes buffer)

step-IsBounded :
    (call : Call) (state : OutputState)
    → IsCounted call
    → IsBounded state
    → IsBounded (step call state)
unfolding step poll_shutdown
step-IsBounded (write buffer) state c b = poll_write-IsBounded buffer state b
step-IsBounded (write_vectored buffers) state c b =
    subst (λ (r : OutputState × Polled ℕ). IsBounded r.0)
      (sym (poll_write_vectored-poll_write buffers state c))
      (poll_write-IsBounded (flatten buffers) state b)
step-IsBounded flush state c b = b
step-IsBounded shutdown state c b = record { within = b.within; limit_counted = b.limit_counted }

-- What `finish` owes after the calls, from any state of the sink.
abbrev owed : OutputState → Bytes → Polled Bytes
owed state written =
    if state.overflowed
    then failed (limit_exceeded state.limit)
    else if state.closed
    then accepted state.bytes
    else if leb (length state.bytes + length written) state.limit
    then accepted (state.bytes ++ written)
    else failed (limit_exceeded state.limit)

abbrev pub state_of : Bytes → ℕ → Bool → Bool → OutputState
state_of bytes limit overflowed closed = record {
  bytes = bytes;
  limit = limit;
  overflowed = overflowed;
  closed = closed;
}

chosen :
    (xs ys : Bytes) (m n limit : ℕ)
    → xs ≡ ys
    → m ≡ n
    → (if leb m limit then accepted xs else failed (limit_exceeded limit))
      ≡ (if leb n limit then accepted ys else failed (limit_exceeded limit))
chosen xs ys m n limit e f =
    ap₂ (λ k zs. if leb k limit then accepted zs else failed (limit_exceeded limit)) f e

module _ (bytes buffer : Bytes) (b limit : ℕ) (h : limit < usize_end) where
  abbrev open_state : OutputState
  open_state = state_of bytes limit false false

  pub write_fits :
      leb (length bytes + length (b ∷ buffer)) limit ≡ true
      → (poll_write (b ∷ buffer) open_state).0 ≡ state_of (bytes ++ (b ∷ buffer)) limit false false
  unfolding poll_write checked_add
  write_fits fits = ground arith

  pub write_over :
      leb (length bytes + length (b ∷ buffer)) limit ≡ false
      → (poll_write (b ∷ buffer) open_state).0 ≡ state_of bytes limit true false
  unfolding poll_write checked_add
  write_over over = ground arith

  written :
      (rest : Bytes)
      → owed (poll_write (b ∷ buffer) open_state).0 rest ≡ owed open_state (b ∷ (buffer ++ rest))
  written rest =
      let size = length-append bytes (b ∷ buffer) in
      let size' = length-append (b ∷ buffer) rest in
      elim (Bool-cases (leb (length bytes + length (b ∷ buffer)) limit)) [
        | inl fits ↦
            ap (λ s. owed s rest) (write_fits fits)
            ∙ chosen ((bytes ++ (b ∷ buffer)) ++ rest) (bytes ++ (b ∷ (buffer ++ rest))) _ _ limit
                (append_assoc bytes (b ∷ buffer) rest) (omega arith)
        | inr over ↦
            let more : leb (length bytes + length (b ∷ (buffer ++ rest))) limit ≡ false =
              ground arith in
            ap (λ s. owed s rest) (write_over over) ∙ rw more refl
      ]

pub nonzero : (n : ℕ) → (suc n == 0) ≡ false
nonzero n = ground arith

owed-poll_write :
    (buffer rest : Bytes) (state : OutputState)
    → IsBounded state
    → owed (poll_write buffer state).0 rest ≡ owed state (buffer ++ rest)
unfolding poll_write
owed-poll_write buffer rest state b =
    split buffer state.bytes state.limit state.overflowed state.closed b.limit_counted
  where
    split :
        (buffer bytes : Bytes) (limit : ℕ) (overflowed closed : Bool)
        → limit < usize_end
        → owed (poll_write buffer (state_of bytes limit overflowed closed)).0 rest
          ≡ owed (state_of bytes limit overflowed closed) (buffer ++ rest)
    split [] bytes limit overflowed closed l = refl
    split (b ∷ buffer) bytes limit true true l = rw (nonzero (length buffer)) refl
    split (b ∷ buffer) bytes limit true false l = rw (nonzero (length buffer)) refl
    split (b ∷ buffer) bytes limit false true l = rw (nonzero (length buffer)) refl
    split (b ∷ buffer) bytes limit false false l = written bytes buffer b limit l rest

owed_nothing :
    (state : OutputState)
    → IsBounded state
    → owed (state_of state.bytes state.limit state.overflowed true) [] ≡ owed state []
owed_nothing state b = ground (arith, append-nil state.bytes)

accepted_injective : {a b : OutputState} → accepted a ≡ accepted b → a ≡ b
accepted_injective e = cc

module _ (try_reserve_exact : ℕ → Option Message)
    (memory : (n : ℕ) → try_reserve_exact n ≡ none) where
  started : (limit : ℕ) → accepted (state_of [] limit false false) ≡ new try_reserve_exact limit
  unfolding new
  started limit = ground (arith, memory limit)

  finish-run :
      (calls : List Call) (state : OutputState)
      → IsBounded state
      → All IsCounted calls
      → finish try_reserve_exact (run calls state) ≡ owed state (captured calls)
  unfolding finish run captured step poll_shutdown
  finish-run [] state b c = ground (arith, memory (length state.bytes), append-nil state.bytes)
  finish-run (write buffer ∷ calls) state b c =
      finish-run calls (poll_write buffer state).0 (poll_write-IsBounded buffer state b) c.1
      ∙ owed-poll_write buffer (captured calls) state b
  finish-run (write_vectored buffers ∷ calls) state b c =
      ap (λ (r : OutputState × Polled ℕ). finish try_reserve_exact (run calls r.0))
        (poll_write_vectored-poll_write buffers state c.0)
      ∙ finish-run calls (poll_write (flatten buffers) state).0
          (poll_write-IsBounded (flatten buffers) state b) c.1
      ∙ owed-poll_write (flatten buffers) (captured calls) state b
  finish-run (flush ∷ calls) state b c = finish-run calls state b c.1
  finish-run (shutdown ∷ calls) state b c =
      let shut = state_of state.bytes state.limit state.overflowed true in
      finish-run calls shut (record { within = b.within; limit_counted = b.limit_counted }) c.1
      ∙ owed_nothing state b

  -- After any calls on the clones of a new sink, `finish` returns exactly the bytes of all writes before
  -- the first shutdown when these fit the limit, and the limit error otherwise, whatever the guest did
  -- with the errors of its writes; when allocations succeed and lengths are counted by a `usize`.
  pub finish-captured :
      (limit : ℕ) (calls : List Call) (state : OutputState)
      → limit < usize_end
      → All IsCounted calls
      → new try_reserve_exact limit ≡ accepted state
      → finish try_reserve_exact (run calls state) ≡ (
          if leb (length (captured calls)) limit
          then accepted (captured calls)
          else failed (limit_exceeded limit))
  finish-captured limit calls state l c e =
      let start = state_of [] limit false false in
      subst
        (λ s. finish try_reserve_exact (run calls s) ≡ (
          if leb (length (captured calls)) limit
          then accepted (captured calls)
          else failed (limit_exceeded limit)))
        (accepted_injective (started limit ∙ e))
        (finish-run calls start (record { within = omega arith; limit_counted = l }) c
          ∙ chosen (captured calls) (captured calls) _ _ limit refl (omega arith))
