-- ===== src/Runtime/Invocation/Reachable.antt =====
-- src/runtime.rs: every step of an invocation keeps what holds of it between two steps.
use wasm_runtime.Base.{ap, ◌∙◌, sym, ℕ, ◌≤◌, Bool, true, ◌≡◌, refl}
use wasm_runtime.Runtime.Invocation.{
  Started, Invocation, start, executing, InvocationState, pause, resume, cancel, drop, state,
  running, pause_requested, paused_resident, evicted, finished, pause_in, resume_in, is_finished,
}
use wasm_runtime.Runtime.Invocation.Steps.{
  Step, Run, epoch, instantiated, run_returns, traps, tests, stores, enters, notified, woken, slept,
  pauses, resumes, cancels, drops, nothing, then_step,
}
use wasm_runtime.Runtime.Invocation.Consistent.{
  IsTimed, IsConsistent, later-IsTimed, pause-IsTimed, resume-IsTimed, start-IsConsistent,
}
use wasm_runtime.Runtime.Invocation.Follows.{
  Follows, goes_on, pause-Follows, resume-Follows, pause-evicted, resume-evicted, WaitsFor-kept,
}
use wasm_runtime.Tokens
use wasm_runtime.Tokens.{PauseToken, Waiting, returns, evicts, sleeps_until, wait_round, remaining}
use wasm_runtime.Runtime.Invocation.Task.{
  fails-IsConsistent, wait-IsConsistent, unfinished-live, test_resident-IsConsistent,
  store_resident-IsConsistent, guest-IsConsistent, on_epoch-IsConsistent, on_slept-IsConsistent,
}

module _ (started : Started) (now : ℕ) where
  -- A call on the handle leaves everything but the pause token and the cancellation.
  token-IsConsistent :
      (token : PauseToken) (cancellation : Bool) (i : Invocation)
      → IsConsistent started now i
      → IsTimed now token
      → token.evicted ≡ i.pause.evicted
      → (i.cancellation ≡ true → cancellation ≡ true)
      → Follows token i.pause
      → IsConsistent started now (record i { pause = token; cancellation = cancellation })
  token-IsConsistent token cancellation i v t same kept n = record {
    timed = t;
    evicted_cancels = λ h. kept (v.evicted_cancels (sym same ∙ h));
    timed_out_returns = v.timed_out_returns;
    waits = WaitsFor-kept started.resident_ttl i.progress i.pause token same n v.waits;
  }

  paused-IsConsistent :
      (i : Invocation)
      → IsConsistent started now i
      → IsConsistent started now (record i { pause = Tokens.pause now i.pause })
  paused-IsConsistent i v =
      token-IsConsistent (Tokens.pause now i.pause) i.cancellation i v
        (pause-IsTimed now i.pause v.timed) (pause-evicted now i.pause) (λ c. c)
        (pause-Follows now i.pause v.timed)

  resumed-IsConsistent :
      {cancellation : Bool} (i : Invocation)
      → IsConsistent started now i
      → (i.cancellation ≡ true → cancellation ≡ true)
      → IsConsistent started now
          (record i { pause = (Tokens.resume now i.pause).1; cancellation = cancellation })
  resumed-IsConsistent i v kept =
      token-IsConsistent (Tokens.resume now i.pause).1 _ i v (resume-IsTimed now i.pause v.timed)
        (resume-evicted now i.pause) kept (resume-Follows now i.pause)

  pause_in-IsConsistent :
      (st : InvocationState) (i : Invocation)
      → IsConsistent started now i
      → IsConsistent started now (pause_in now st i).1
  pause_in-IsConsistent evicted i v = v
  pause_in-IsConsistent finished i v = v
  pause_in-IsConsistent running i v = paused-IsConsistent i v
  pause_in-IsConsistent pause_requested i v = paused-IsConsistent i v
  pause_in-IsConsistent paused_resident i v = paused-IsConsistent i v

  resume_in-IsConsistent :
      (st : InvocationState) (i : Invocation)
      → IsConsistent started now i
      → IsConsistent started now (resume_in now st i).1
  resume_in-IsConsistent evicted i v = v
  resume_in-IsConsistent finished i v = v
  resume_in-IsConsistent running i v = v
  resume_in-IsConsistent pause_requested i v = resumed-IsConsistent i v (λ c. c)
  resume_in-IsConsistent paused_resident i v = resumed-IsConsistent i v (λ c. c)

  Step-IsConsistent :
      (i j : Invocation)
      → Step started now i j
      → IsConsistent started now i
      → IsConsistent started now j
  unfolding pause resume cancel drop
  Step-IsConsistent i j (epoch k stage e) v = on_epoch-IsConsistent started now stage i v e
  Step-IsConsistent i j (instantiated k e) v =
      guest-IsConsistent started now executing i v
        (unfinished-live started now i v (ap is_finished e))
  Step-IsConsistent i j (run_returns k is_err e) v = record {
    timed = v.timed;
    evicted_cancels = v.evicted_cancels;
    timed_out_returns = λ h. refl;
    waits = tt;
  }
  Step-IsConsistent i j (traps k stage error e) v =
      fails-IsConsistent started now stage error i v.timed v.evicted_cancels
  Step-IsConsistent i j (tests k stage e) v =
      test_resident-IsConsistent started now stage i v
        (unfinished-live started now i v (ap is_finished e))
  Step-IsConsistent i j (stores k stage e) v =
      store_resident-IsConsistent started now stage i v
        (unfinished-live started now i v (ap is_finished e)) e
  Step-IsConsistent i j (enters k stage e) v =
      wait-IsConsistent started now stage i v.timed v.evicted_cancels
        (unfinished-live started now i v (ap is_finished e))
  Step-IsConsistent i j (notified k stage deadline e n) v =
      wait-IsConsistent started now stage i v.timed v.evicted_cancels
        (unfinished-live started now i v (ap is_finished e))
  Step-IsConsistent i j (woken k stage deadline e c) v =
      guest-IsConsistent started now stage i v (unfinished-live started now i v (ap is_finished e))
  Step-IsConsistent i j (slept k stage deadline e le) v =
      on_slept-IsConsistent started now stage deadline i v e
  Step-IsConsistent i j (pauses k) v = pause_in-IsConsistent (state i) i v
  Step-IsConsistent i j (resumes k) v = resume_in-IsConsistent (state i) i v
  Step-IsConsistent i j (cancels k) v =
      token-IsConsistent i.pause true i v v.timed refl (λ c. refl) (goes_on refl refl)
  Step-IsConsistent i j (drops k) v = resumed-IsConsistent i v (λ c. refl)

later-IsConsistent :
    (started : Started) (u now : ℕ) (i : Invocation)
    → u ≤ now
    → IsConsistent started u i
    → IsConsistent started now i
later-IsConsistent started u now i le v = record {
  timed = later-IsTimed u now i.pause le v.timed;
  evicted_cancels = v.evicted_cancels;
  timed_out_returns = v.timed_out_returns;
  waits = v.waits;
}

-- After any steps of the task and calls on the handle, at instants that never go back: a token is
-- paused exactly while it has the instant of its pause, which has passed; a resident invocation is
-- not evicted; an evicted invocation is cancelled and does not wait; a timed-out one has returned;
-- and a waiting task that has not been notified waits for its pause to be as old as the limit. The
-- test and the store of `mark_resident` are two steps; a call on the handle, the epoch callback up to
-- `mark_resident`, and a round of `wait` with its eviction are one step each.
pub Run-IsConsistent :
    (started : Started) (t : ℕ) (is_cancelled : Bool) (now : ℕ) (j : Invocation)
    → Run started t (start is_cancelled) now j
    → IsConsistent started now j
Run-IsConsistent started t is_cancelled now j nothing = start-IsConsistent started t is_cancelled
Run-IsConsistent started t is_cancelled now j (then_step {u = u} {j = i} run le step) =
    Step-IsConsistent started now i j step
      (later-IsConsistent started u now i le (Run-IsConsistent started t is_cancelled u i run))
