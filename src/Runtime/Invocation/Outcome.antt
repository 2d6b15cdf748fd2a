-- ===== src/Runtime/Invocation/Outcome.antt =====
-- src/runtime.rs: what an invocation that was evicted or has used up its time returns.
use wasm_runtime.Base.{
  ap, ℕ, ◌-◌, ◌≤◌, Bool, true, false, List, ◌≡◌, ◌↔◌, ◌∙◌, ◌≢◌, ◌||◌, leb, if_holds, arith,
}
use wasm_runtime.Failure.{err, ok, idle_evicted, timeout}
use wasm_runtime.Runtime.Invocation.{
  Started, Invocation, Progress, executing, guest, marking, storing, entering, waiting, returned,
  active, state, on_epoch, interrupt, stage_error, map_execution_error, fails, pause, exit_code,
  evicted,
}
use wasm_runtime.Tokens
use wasm_runtime.Tokens.{new, total_paused, duration_max}
use wasm_runtime.Tokens.Totals.{
  Signal, apply_all, observe_all, stopped, advance, Ordered, total_paused-observe_all,
}

-- The guest still runs, eviction was reported, or the guest returned on its own.
pub data Fate (progress : Progress) : Type 0 where
  runs_on : progress ≡ guest executing → Fate progress
  reported : progress ≡ returned (err idle_evicted) → Fate progress
  returned_first : (is_err : Bool) → progress ≡ returned (ok (exit_code is_err)) → Fate progress

pub state-evicted : (i : Invocation) → i.pause.evicted ≡ true → state i ≡ evicted
unfolding state
state-evicted i gone = ground arith

module _ (started : Started) (now : ℕ) where
  abbrev IsDoomed : Invocation → Type 0
  IsDoomed i = (i.pause.evicted ≡ true) × Fate i.progress

  abbrev in_callback : Progress → Bool
  in_callback (guest stage) = false
  in_callback (returned outcome) = false
  in_callback (marking stage) = true
  in_callback (storing stage) = true
  in_callback (entering stage) = true
  in_callback (waiting stage deadline) = true

timeout-cases :
    (started : Started) (now : ℕ) (i : Invocation)
    → i.progress ≡ guest executing
    → i.timed_out ≡ false
    → (i.pause.evicted || i.cancellation) ≡ true
    → (fails executing interrupt i).progress ≢ returned (err timeout)
unfolding fails stage_error map_execution_error
timeout-cases started now i e fresh over h = ground arith

on_epoch-timeout :
    (started : Started) (now : ℕ) (i : Invocation)
    → i.progress ≡ guest executing
    → i.timed_out ≡ false
    → (on_epoch started now executing i).progress ≡ returned (err timeout)
    → (i.pause.evicted ≡ false)
      × (i.cancellation ≡ false)
      × (started.timeout ≤ active started now i.pause)
unfolding on_epoch
on_epoch-timeout started now i e fresh =
    if_holds Claim (i.pause.evicted || i.cancellation)
      (λ over h. absurd (timeout-cases started now i e fresh over h))
      (λ calm.
        if_holds Claim (leb started.timeout (active started now i.pause))
          (λ late h. (ground arith, ground arith, ground arith))
          (λ early.
            if_holds Claim i.pause.paused (λ on h. absurd cc) (λ off h. absurd (ground arith))))
  where
    Claim : Invocation → Type 0
    Claim j =
        j.progress ≡ returned (err timeout)
        → (i.pause.evicted ≡ false)
          × (i.cancellation ≡ false)
          × (started.timeout ≤ active started now i.pause)

timeout-on_epoch :
    (started : Started) (now : ℕ) (i : Invocation)
    → i.pause.evicted ≡ false
    → i.cancellation ≡ false
    → started.timeout ≤ active started now i.pause
    → (on_epoch started now executing i).progress ≡ returned (err timeout)
unfolding on_epoch fails stage_error map_execution_error
timeout-on_epoch started now i live calm le = ground arith

-- The epoch callback ends an executing guest with `Timeout` exactly if the invocation is neither
-- evicted nor cancelled, and the time since its start, without what a stopwatch has counted that ran
-- while it was paused, has reached the limit. The calls on the pause token came at instants that
-- never go back, and the pauses add up to no more than the largest `Duration`.
pub on_epoch-timeout_iff :
    (started : Started) (signals : List Signal) (now : ℕ) (i : Invocation)
    → i.progress ≡ guest executing
    → i.timed_out ≡ false
    → i.pause ≡ apply_all signals new
    → Ordered 0 signals now
    → let paused_for = advance now (observe_all signals stopped) in
      paused_for ≤ duration_max
      → ((on_epoch started now executing i).progress ≡ returned (err timeout)) ↔ (
          (i.pause.evicted ≡ false)
          × (i.cancellation ≡ false)
          × (started.timeout
              ≤ (now - started.invocation_started) - (paused_for - started.pause_baseline)))
on_epoch-timeout_iff started signals now i e fresh made o fits =
    let total : total_paused now i.pause ≡ advance now (observe_all signals stopped) =
      ap (total_paused now) made ∙ total_paused-observe_all signals now o ∙ omega arith in
    (
      λ h.
          (let (live, calm, le) = on_epoch-timeout started now i e fresh h in
            (live, calm, omega (arith, total, le))),
      λ (live, calm, le). timeout-on_epoch started now i live calm (omega (arith, total, le)),
    )
