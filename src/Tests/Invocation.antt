-- ===== src/Tests/Invocation.antt =====
-- src/runtime.rs and src/types.rs: invocations and pause tokens at concrete inputs.
use wasm_runtime.Base.{
  ℕ, ◌+◌, ◌-◌, ◌≤◌, min, true, false, some, List, [], ◌∷◌, ◌≡◌, ◌↔◌, refl, arith,
}
use wasm_runtime.Failure.{err, timeout}
use wasm_runtime.Runtime.Invocation.{
  Started, marking, storing, entering, test_resident, store_resident, wait, Invocation,
  instantiating, executing, guest, waiting, returned, start, state, pause, resume, on_epoch,
  on_slept, wait, evicted,
}
use wasm_runtime.Runtime.Invocation.Consistent.{IsConsistent}
use wasm_runtime.Runtime.Invocation.Evicting.{on_slept-evicted, on_slept-renewed}
use wasm_runtime.Runtime.Invocation.Outcome.{on_epoch-timeout_iff}
use wasm_runtime.Runtime.Invocation.Reachable.{Run-IsConsistent}
use wasm_runtime.Runtime.Invocation.Steps.{
  Run, nothing, then_step, pauses, tests, stores, enters, epoch,
}
use wasm_runtime.Tokens
use wasm_runtime.Tokens.{PauseToken, new, total_paused, duration_max}
use wasm_runtime.Tokens.Totals.{
  Signal, pausing, resuming, residing, apply, apply_all, observe, observe_all, stopped, advance,
  total_paused-observe_all,
}

abbrev started : Started
started = record { invocation_started = 0; pause_baseline = 0; timeout = 100; resident_ttl = 10 }

abbrev signals : List Signal
signals = pausing 5 ∷ (residing ∷ (resuming 8 ∷ (pausing 20 ∷ [])))

total_paused_example : total_paused 27 (apply_all signals new) ≡ 10
unfolding total_paused apply_all apply Tokens.pause Tokens.resume Tokens.mark_resident_store
total_paused_example = refl

total_paused-observe_all_example :
    total_paused 27 (apply_all signals new)
    ≡ min duration_max (advance 27 (observe_all signals stopped))
total_paused-observe_all_example =
    total_paused-observe_all signals 27 (omega arith, (omega arith, (omega arith, omega arith)))

abbrev paused : Invocation
paused = (pause 5 (start false)).1

-- The guest was paused at 5, and the epoch at 7 finds it so; it is resident, and the task waits.
abbrev found_paused : Invocation
found_paused = on_epoch started 7 instantiating paused

abbrev tested : Invocation
tested = test_resident instantiating found_paused

abbrev asleep : Invocation
asleep = wait started 7 instantiating (store_resident instantiating tested)

paused_progress :
    (paused.progress ≡ guest instantiating)
    × (found_paused.progress ≡ marking instantiating)
    × (tested.progress ≡ storing instantiating)
    × ((store_resident instantiating tested).progress ≡ entering instantiating)
    × (tested.pause.evicted ≡ false)
unfolding pause state start on_epoch test_resident store_resident Tokens.mark_resident_test
    Tokens.pause Tokens.total_paused
paused_progress = (refl, refl, refl, refl, refl)

Run-asleep : Run started 0 (start false) 7 asleep
Run-asleep =
    let at_5 : Run started 0 (start false) 5 paused =
      then_step nothing (omega arith) (pauses (start false)) in
    let at_7 : Run started 0 (start false) 7 found_paused =
      then_step at_5 (omega arith) (epoch paused instantiating paused_progress.0) in
    let marked : Run started 0 (start false) 7 tested =
      then_step at_7 (omega arith) (tests found_paused instantiating paused_progress.1) in
    let resident : Run started 0 (start false) 7 (store_resident instantiating tested) =
      then_step marked (omega arith) (stores tested instantiating paused_progress.2) in
    then_step resident (omega arith)
      (enters (store_resident instantiating tested) instantiating paused_progress.3)

Run-IsConsistent_example : IsConsistent started 7 asleep
Run-IsConsistent_example = Run-IsConsistent started 0 false 7 asleep Run-asleep

asleep_progress :
    (asleep.progress ≡ waiting instantiating 15)
    × (asleep.pause.notified ≡ false)
    × (asleep.pause.evicted ≡ false)
unfolding pause state start on_epoch wait test_resident store_resident Tokens.wait_round
    Tokens.mark_resident_test Tokens.mark_resident_store Tokens.pause Tokens.total_paused
asleep_progress = (refl, refl, refl)

on_slept-evicted_example :
    (state (on_slept instantiating asleep) ≡ evicted)
    × ((since : ℕ) × (asleep.pause.timing.paused_at ≡ some since) × (since + 10 ≤ 15))
on_slept-evicted_example =
    on_slept-evicted started 0 false 7 15 asleep instantiating 15 Run-asleep asleep_progress.0
      asleep_progress.1 (omega arith)

on_slept-renewed_example :
    (j : Invocation) × Run started 15 asleep 15 j
    × (state j ≡ evicted)
    × (j.pause.timing.paused_at ≡ some 15)
on_slept-renewed_example =
    on_slept-renewed started 15 asleep instantiating 15 asleep_progress.0 asleep_progress.2
      (omega arith)

abbrev gone : Invocation
gone = record {
  pause = record {
    paused = true;
    resident = false;
    evicted = true;
    notified = true;
    timing = record { completed = 0; paused_at = some 5 };
  };
  cancellation = true;
  timed_out = false;
  progress = guest executing;
}

abbrev early_signals : List Signal
early_signals = pausing 5 ∷ (resuming 8 ∷ [])

abbrev resumed : Invocation
resumed = record {
  pause = apply_all early_signals new;
  cancellation = false;
  timed_out = false;
  progress = guest executing;
}

early_signals_time : advance 112 (observe_all early_signals stopped) ≤ duration_max
unfolding observe_all observe
early_signals_time = omega arith

-- At 112 the invocation has been paused for 3 nanoseconds.
on_epoch-timeout_iff_example :
    ((on_epoch started 112 executing resumed).progress ≡ returned (err timeout)) ↔ (
      (resumed.pause.evicted ≡ false)
      × (resumed.cancellation ≡ false)
      × (100 ≤ (112 - 0) - (advance 112 (observe_all early_signals stopped) - 0)))
on_epoch-timeout_iff_example =
    on_epoch-timeout_iff started early_signals 112 resumed refl refl refl
      (omega arith, (omega arith, omega arith)) early_signals_time
