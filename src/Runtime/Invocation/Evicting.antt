-- ===== src/Runtime/Invocation/Evicting.antt =====
-- src/runtime.rs: the eviction of a paused invocation, and what is left of it.
use mathlib.Core.Path.{subst}
use wasm_runtime.Base.{ℕ, ◌+◌, ◌≤◌, Bool, true, false, some, ◌≡◌, inl, inr, arith, Bool-cases}
use wasm_runtime.Runtime.Invocation.{
  Started, Invocation, Stage, waiting, start, state, on_slept, evict_waiting, pause, resume,
  evicted,
}
use wasm_runtime.Runtime.Invocation.Steps.{Run, slept, pauses, resumes, nothing, then_step}
use wasm_runtime.Runtime.Invocation.Consistent.{IsTimed, WaitsFor}
use wasm_runtime.Runtime.Invocation.Reachable.{Run-IsConsistent}
use wasm_runtime.Tokens
use wasm_runtime.Tokens.{PauseToken}

paused_at-paused :
    (now : ℕ) (token : PauseToken)
    → IsTimed now token
    → (since : ℕ) → token.timing.paused_at ≡ some since
    → token.paused ≡ true
paused_at-paused now token v since at = elim (Bool-cases token.paused) [
  | inl on ↦ on
  | inr off ↦ (let free = v.free off in absurd cc)
]

resume-off :
    (now : ℕ) (i : Invocation) (stage : Stage) (deadline : ℕ)
    → i.progress ≡ waiting stage deadline
    → i.pause.evicted ≡ false
    → ((resume now i).1.pause.paused ≡ false)
      × ((resume now i).1.pause.evicted ≡ false)
      × ((resume now i).1.progress ≡ waiting stage deadline)
unfolding resume state Tokens.resume
resume-off now i stage deadline e live = (ground arith, ground arith, ground arith)

pause-on :
    (now : ℕ) (i : Invocation) (stage : Stage) (deadline : ℕ)
    → i.progress ≡ waiting stage deadline
    → i.pause.evicted ≡ false
    → i.pause.paused ≡ false
    → ((pause now i).1.pause.paused ≡ true)
      × ((pause now i).1.pause.timing.paused_at ≡ some now)
      × ((pause now i).1.progress ≡ waiting stage deadline)
unfolding pause state Tokens.pause
pause-on now i stage deadline e live off = (ground arith, ground arith, ground arith)

module _ (started : Started) where
  -- When the sleep of a waiting task is over and nobody has notified it, it evicts the invocation,
  -- whose pause is then at least as old as `resident_ttl`.
  pub on_slept-evicted :
      (t : ℕ) (is_cancelled : Bool) (u now : ℕ) (i : Invocation) (stage : Stage) (deadline : ℕ)
      → Run started t (start is_cancelled) u i
      → i.progress ≡ waiting stage deadline
      → i.pause.notified ≡ false
      → deadline ≤ now
      → (state (on_slept stage i) ≡ evicted)
        × ((since : ℕ) × (i.pause.timing.paused_at ≡ some since)
            × (since + started.resident_ttl ≤ now))
  unfolding on_slept state evict_waiting Tokens.evict
  on_slept-evicted t is_cancelled u now i stage deadline run e quiet le =
      let v = Run-IsConsistent started t is_cancelled u i run in
      let w : WaitsFor started.resident_ttl (waiting stage deadline) i.pause =
        subst (λ p. WaitsFor started.resident_ttl p i.pause) e v.waits in
      let (since, at, before) = w.1 quiet in
      (
        let on = paused_at-paused u i.pause v.timed since at in ground arith,
        (since, at, omega arith),
      )

  -- A waiting task whose sleep is over, and whose invocation is resumed and paused again before the
  -- task is polled, may evict it although the new pause has only begun.
  pub on_slept-renewed :
      (now : ℕ) (i : Invocation) (stage : Stage) (deadline : ℕ)
      → i.progress ≡ waiting stage deadline
      → i.pause.evicted ≡ false
      → deadline ≤ now
      → (j : Invocation) × Run started now i now j
        × (state j ≡ evicted)
        × (j.pause.timing.paused_at ≡ some now)
  unfolding on_slept state evict_waiting Tokens.evict
  on_slept-renewed now i stage deadline e live le =
      let (off, live', e') = resume-off now i stage deadline e live in
      let (on, at, e'') = pause-on now (resume now i).1 stage deadline e' live' off in
      let again = (pause now (resume now i).1).1 in
      (
        on_slept stage again,
        then_step
            (then_step (then_step nothing (omega arith) (resumes i)) (omega arith)
              (pauses (resume now i).1))
            (omega arith) (slept again stage deadline e'' le),
        ground arith,
        ground arith,
      )
