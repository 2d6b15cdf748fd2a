-- ===== src/Runtime/Invocation/Residing.antt =====
-- src/runtime.rs and src/types.rs: a resumption between the test and the store of `mark_resident`.
use wasm_runtime.Base.{ℕ, false, ◌≡◌, refl, arith}
use wasm_runtime.Failure.{ok}
use wasm_runtime.Runtime.Invocation.{
  Started, Invocation, Stage, guest, storing, entering, store_resident, wait, state, resume,
  paused_resident,
}
use wasm_runtime.Runtime.Invocation.Steps.{Run, nothing, then_step, resumes, stores, enters}
use wasm_runtime.Tokens

resume-storing :
    (now : ℕ) (i : Invocation) (stage : Stage)
    → i.progress ≡ storing stage
    → i.pause.evicted ≡ false
    → ((resume now i).1.pause.paused ≡ false)
      × ((resume now i).1.pause.evicted ≡ false)
      × ((resume now i).1.progress ≡ storing stage)
unfolding resume state Tokens.resume
resume-storing now i stage e live = (ground arith, ground arith, ground arith)

module _ (started : Started) where
  -- An invocation that is resumed between the test and the store of `mark_resident` may run on with
  -- its guest while `state` says that it is paused and resident; and a further `resume` succeeds and
  -- leaves that as it is.
  store_resident-resumed :
      (now : ℕ) (i : Invocation) (stage : Stage)
      → i.progress ≡ storing stage
      → i.pause.evicted ≡ false
      → (j : Invocation) × Run started now i now j
        × (j.progress ≡ guest stage)
        × (j.pause.paused ≡ false)
        × (state j ≡ paused_resident)
        × (resume now j ≡ (ok tt, j))
  unfolding store_resident wait state resume Tokens.resume Tokens.mark_resident_store
      Tokens.wait_round
  store_resident-resumed now i stage e live =
      let (off, live', e') = resume-storing now i stage e live in
      let resumed = (resume now i).1 in
      let marked = store_resident stage resumed in
      let marked_entering : marked.progress ≡ entering stage = refl in
      (
        wait started now stage marked,
        then_step {u = now}
            (then_step {u = now} (then_step {u = now} nothing (omega arith) (resumes i))
              (omega arith) (stores resumed stage e'))
            (omega arith) (enters marked stage marked_entering),
        ground arith,
        ground arith,
        ground arith,
        ground arith,
      )
