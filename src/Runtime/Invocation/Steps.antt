-- ===== src/Runtime/Invocation/Steps.antt =====
-- src/runtime.rs: the steps of an invocation and of the callers of its handle, each at an instant.
use wasm_runtime.Base.{ℕ, ◌≤◌, Bool, true, ◌≡◌}
use wasm_runtime.Failure.{Message, ok}
use wasm_runtime.Runtime.Invocation.{
  Started, Invocation, Stage, instantiating, executing, guest, waiting, returned, fails, wait,
  on_epoch, on_slept, marking, storing, entering, test_resident, store_resident, pause, resume,
  cancel, drop, exit_code,
}

module _ (started : Started) where
  pub data Step (now : ℕ) : Invocation → Invocation → Type 0 where
    epoch :
        (i : Invocation) (stage : Stage)
        → i.progress ≡ guest stage
        → Step now i (on_epoch started now stage i)
    instantiated :
        (i : Invocation)
        → i.progress ≡ guest instantiating
        → Step now i (record i { progress = guest executing })
    run_returns :
        (i : Invocation) (is_err : Bool)
        → i.progress ≡ guest executing
        → Step now i (record i { progress = returned (ok (exit_code is_err)) })
    traps :
        (i : Invocation) (stage : Stage) (error : Message)
        → i.progress ≡ guest stage
        → Step now i (fails stage error i)
    -- The rest of the callback, and the wait that it asks for.
    tests :
        (i : Invocation) (stage : Stage)
        → i.progress ≡ marking stage
        → Step now i (test_resident stage i)
    stores :
        (i : Invocation) (stage : Stage)
        → i.progress ≡ storing stage
        → Step now i (store_resident stage i)
    enters :
        (i : Invocation) (stage : Stage)
        → i.progress ≡ entering stage
        → Step now i (wait started now stage i)
    -- The branches of the `select!`.
    notified :
        (i : Invocation) (stage : Stage) (deadline : ℕ)
        → i.progress ≡ waiting stage deadline
        → i.pause.notified ≡ true
        → Step now i (wait started now stage i)
    woken :
        (i : Invocation) (stage : Stage) (deadline : ℕ)
        → i.progress ≡ waiting stage deadline
        → i.cancellation ≡ true
        → Step now i (record i { progress = guest stage })
    slept :
        (i : Invocation) (stage : Stage) (deadline : ℕ)
        → i.progress ≡ waiting stage deadline
        → deadline ≤ now
        → Step now i (on_slept stage i)
    -- The calls on the handle and on the caller's cancellation token.
    pauses : (i : Invocation) → Step now i (pause now i).1
    resumes : (i : Invocation) → Step now i (resume now i).1
    cancels : (i : Invocation) → Step now i (cancel i)
    drops : (i : Invocation) → Step now i (drop now i)

  -- Steps at instants that never go back.
  pub data Run (t : ℕ) (i : Invocation) : ℕ → Invocation → Type 0 where
    nothing : Run t i t i
    then_step :
        {u now : ℕ} {j k : Invocation} → Run t i u j → u ≤ now → Step now j k → Run t i now k
