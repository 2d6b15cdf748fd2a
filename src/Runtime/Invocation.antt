-- ===== src/Runtime/Invocation.antt =====
-- src/runtime.rs: a live invocation, the epoch callback of `RuntimeInner::invoke`, and the handle
-- `RunningCommand`. The guest, the callback and the callers of the handle are events on one state.
pub mod Steps
pub mod Consistent
pub mod Follows
pub mod Task
pub mod Reachable
pub mod Evicting
pub mod Residing
pub mod Outcome
use wasm_runtime.Base.{
  ℕ, ◌+◌, ◌-◌, Bool, true, false, ◌||◌, ◌&&◌, not, Option, none, some, List, [], ◌∷◌, leb,
  if◌then◌else◌,
}
use wasm_runtime.Failure.{
  Message, text, Error, execution, idle_evicted, timeout, cancelled, invalid_state, Result, ok, err,
}
use wasm_runtime.Tokens
use wasm_runtime.Tokens.{
  PauseToken, mark_resident_test, mark_resident_store, evict, total_paused, Waiting, returns,
  evicts, sleeps_until, wait_round,
}

pub data InvocationState : Type 0 where
  running pause_requested paused_resident evicted finished : InvocationState

-- Where `invoke` is: whether the guest is still being instantiated.
pub data Stage : Type 0 where
  instantiating executing : Stage

-- What the task does: the guest runs; it is in the callback, in front of the test of `mark_resident`,
-- in front of its store, or in front of a first round of `wait`; it waits until an instant; or it has
-- returned.
pub data Progress : Type 0 where
  guest : Stage → Progress
  marking storing entering : Stage → Progress
  waiting : Stage → ℕ → Progress
  returned : Result ℕ → Progress

-- What `invoke` has computed before the first instruction of the guest.
pub record Started : Type 0 where
  pub invocation_started : ℕ
  pub pause_baseline : ℕ
  pub timeout : ℕ
  pub resident_ttl : ℕ

pub record Invocation : Type 0 where
  pub pause : PauseToken
  pub cancellation : Bool
  pub timed_out : Bool
  pub progress : Progress

unfoldable pub map_execution_error : Message → Invocation → Error
map_execution_error error i =
    if i.pause.evicted
    then idle_evicted
    else if i.timed_out
    then timeout
    else if i.cancellation
    then cancelled
    else execution error

-- The `map_err` of instantiation and of the run.
unfoldable pub stage_error : Stage → Message → Invocation → Error
stage_error instantiating error i = execution error
stage_error executing error i = map_execution_error error i

-- A Wasmtime error ends the call of the stage.
unfoldable pub fails : Stage → Message → Invocation → Invocation
fails stage error i = record i { progress = returned (err (stage_error stage error i)) }

abbrev pub interrupt : Message
interrupt = text "wasm trap: interrupt" ∷ []

-- `evict`, which cancels too; then `wait` returns to the guest.
unfoldable pub evict_waiting : Stage → Invocation → Invocation
evict_waiting stage i = record {
  pause = evict i.pause;
  cancellation = true;
  timed_out = i.timed_out;
  progress = guest stage;
}

abbrev pub after_round : Stage → Waiting → Invocation → Invocation
after_round stage returns i = record i { progress = guest stage }
after_round stage evicts i = evict_waiting stage i
after_round stage (sleeps_until deadline) i = record i { progress = waiting stage deadline }

unfoldable pub test_resident : Stage → Invocation → Invocation
test_resident stage i = record i {
  progress = if mark_resident_test i.pause then storing stage else entering stage;
}

unfoldable pub store_resident : Stage → Invocation → Invocation
store_resident stage i = record i { pause = mark_resident_store i.pause; progress = entering stage }

-- The third branch of the `select!`.
unfoldable pub on_slept : Stage → Invocation → Invocation
on_slept stage i =
    if i.pause.paused then evict_waiting stage i else record i { progress = guest stage }

module _ (started : Started) where
  -- A round of `wait`, which makes a new `notified` future.
  unfoldable pub wait : ℕ → Stage → Invocation → Invocation
  wait now stage i =
      let pause = record i.pause { notified = false } in
      after_round stage (wait_round now started.resident_ttl i.cancellation pause)
        (record i { pause = pause })

  -- `invocation_started.elapsed()` without the time suspended.
  abbrev pub active : ℕ → PauseToken → ℕ
  active now pause =
      (now - started.invocation_started) - (total_paused now pause - started.pause_baseline)

  -- The callback of `epoch_deadline_callback`, up to its call of `mark_resident`.
  unfoldable pub on_epoch : ℕ → Stage → Invocation → Invocation
  on_epoch now stage i =
      if i.pause.evicted || i.cancellation
      then fails stage interrupt i
      else if leb started.timeout (active now i.pause)
      then fails stage interrupt (record i { timed_out = true })
      else if i.pause.paused
      then record i { progress = marking stage }
      else i

abbrev pub is_finished : Progress → Bool
is_finished (returned outcome) = true
is_finished (guest stage) = false
is_finished (marking stage) = false
is_finished (storing stage) = false
is_finished (entering stage) = false
is_finished (waiting stage deadline) = false

-- `RunningCommand::state`, before `wait` takes the task.
unfoldable pub state : Invocation → InvocationState
state i =
    if i.pause.evicted
    then evicted
    else if is_finished i.progress
    then finished
    else if i.pause.resident
    then paused_resident
    else if i.pause.paused
    then pause_requested
    else running

abbrev pub already_finished : Error
already_finished = invalid_state "invocation already finished"

abbrev pub pause_in : ℕ → InvocationState → Invocation → Result (Unit {0}) × Invocation
pause_in now evicted i = (err idle_evicted, i)
pause_in now finished i = (err already_finished, i)
pause_in now running i = (ok tt, record i { pause = Tokens.pause now i.pause })
pause_in now pause_requested i = (ok tt, record i { pause = Tokens.pause now i.pause })
pause_in now paused_resident i = (ok tt, record i { pause = Tokens.pause now i.pause })

-- `RunningCommand::pause`
unfoldable pub pause : ℕ → Invocation → Result (Unit {0}) × Invocation
pause now i = pause_in now (state i) i

abbrev pub resume_token : ℕ → Invocation → Result (Unit {0}) × Invocation
resume_token now i =
    let (resumed, token) = Tokens.resume now i.pause in
    (if resumed then ok tt else err idle_evicted, record i { pause = token })

abbrev pub resume_in : ℕ → InvocationState → Invocation → Result (Unit {0}) × Invocation
resume_in now running i = (ok tt, i)
resume_in now pause_requested i = resume_token now i
resume_in now paused_resident i = resume_token now i
resume_in now evicted i = (err idle_evicted, i)
resume_in now finished i = (err already_finished, i)

-- `RunningCommand::resume`
unfoldable pub resume : ℕ → Invocation → Result (Unit {0}) × Invocation
resume now i = resume_in now (state i) i

-- `RunningCommand::cancel`
unfoldable pub cancel : Invocation → Invocation
cancel i = record i { cancellation = true }

-- `Drop for RunningCommand`, before `wait` takes the task.
unfoldable pub drop : ℕ → Invocation → Invocation
drop now i = record i { pause = (Tokens.resume now i.pause).1; cancellation = true }

-- The state when `start` spawns the task.
unfoldable pub start : Bool → Invocation
start is_cancelled = record {
  pause = Tokens.new;
  cancellation = is_cancelled;
  timed_out = false;
  progress = guest instantiating;
}

-- `u8::from(result.is_err())`
unfoldable pub exit_code : Bool → ℕ
exit_code is_err = if is_err then 1 else 0
