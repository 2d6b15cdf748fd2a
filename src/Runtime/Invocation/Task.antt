-- ===== src/Runtime/Invocation/Task.antt =====
-- src/runtime.rs: the steps of the task of an invocation keep what holds between two steps.
use mathlib.Core.Path.{subst}
use wasm_runtime.Base.{
  ap, ◌&&◌, if_holds, not, Bool-cases, inr, ◌≢◌, inl, ◌⊎◌, ℕ, ◌+◌, ◌==◌, ◌||◌, leb, Bool, true,
  false, ◌≡◌, refl, arith,
}
use wasm_runtime.Failure.{Message}
use wasm_runtime.Runtime.Invocation.{
  Started, Invocation, Stage, guest, waiting, fails, wait, evict_waiting, on_epoch, on_slept,
  interrupt, active, storing, is_finished, test_resident, store_resident,
}
use wasm_runtime.Runtime.Invocation.Consistent.{IsTimed, IsConsistent, WaitsFor}
use wasm_runtime.Tokens
use wasm_runtime.Tokens.{PauseToken, Waiting, returns, evicts, sleeps_until, wait_round, remaining}

wait_round-cases :
    (now ttl : ℕ) (is_cancelled : Bool) (token : PauseToken)
    → (wait_round now ttl is_cancelled token ≡ returns)
      ⊎ (wait_round now ttl is_cancelled token ≡ evicts)
      ⊎ ((wait_round now ttl is_cancelled token
            ≡ sleeps_until (now + remaining now ttl token.timing.paused_at))
          × (token.paused ≡ true)
          × (is_cancelled ≡ false)
          × (remaining now ttl token.timing.paused_at ≢ 0))
unfolding wait_round
wait_round-cases now ttl is_cancelled token = elim (Bool-cases (not token.paused || is_cancelled)) [
  | inl over ↦ inl (ground arith)
  | inr paused ↦ elim (Bool-cases (remaining now ttl token.timing.paused_at == 0)) [
    | inl used_up ↦ inr (inl (ground arith))
    | inr left ↦ inr (inr (ground arith, ground arith, ground arith, ground arith))
  ]
]

module _ (started : Started) (now : ℕ) where
  pub fails-IsConsistent :
      (stage : Stage) (error : Message) (i : Invocation)
      → IsTimed now i.pause
      → (i.pause.evicted ≡ true → i.cancellation ≡ true)
      → IsConsistent started now (fails stage error i)
  unfolding fails
  fails-IsConsistent stage error i v c = record {
    timed = v;
    evicted_cancels = c;
    timed_out_returns = λ h. refl;
    waits = tt;
  }

  evict_waiting-IsConsistent :
      (stage : Stage) (i : Invocation)
      → IsTimed now i.pause
      → i.timed_out ≡ false
      → IsConsistent started now (evict_waiting stage i)
  unfolding evict_waiting Tokens.evict
  evict_waiting-IsConsistent stage i v live = record {
    timed = record { since = v.since; free = v.free; resident_live = λ h. absurd cc };
    evicted_cancels = λ h. refl;
    timed_out_returns = λ h. absurd cc;
    waits = tt;
  }

  pub wait-IsConsistent :
      (stage : Stage) (i : Invocation)
      → IsTimed now i.pause
      → (i.pause.evicted ≡ true → i.cancellation ≡ true)
      → i.timed_out ≡ false
      → IsConsistent started now (wait started now stage i)
  unfolding wait
  wait-IsConsistent stage i v c live =
      let fresh : PauseToken = record i.pause { notified = false } in
      let timed : IsTimed now fresh = record {
        since = v.since;
        free = v.free;
        resident_live = v.resident_live;
      } in
      elim (wait_round-cases now started.resident_ttl i.cancellation fresh) [
        | inl over ↦ rw over (record {
          timed = timed;
          evicted_cancels = c;
          timed_out_returns = λ h. absurd cc;
          waits = tt;
        })
        | inr (inl used_up) ↦
            rw used_up (evict_waiting-IsConsistent stage (record i { pause = fresh }) timed live)
        | inr (inr (sleeps, on, calm, left)) ↦ rw sleeps (record {
          timed = timed;
          evicted_cancels = c;
          timed_out_returns = λ h. absurd cc;
          waits = (
            ground (arith, c),
            λ quiet. (let (s, at, before) = v.since on in (s, at, ground arith)),
          );
        })
      ]

  pub unfinished-live :
      (i : Invocation)
      → IsConsistent started now i
      → is_finished i.progress ≡ false
      → i.timed_out ≡ false
  unfinished-live i v e = elim (Bool-cases i.timed_out) [
    | inl on ↦ (let done = v.timed_out_returns on in cc)
    | inr off ↦ off
  ]

  pub test_resident-IsConsistent :
      (stage : Stage) (i : Invocation)
      → IsConsistent started now i
      → i.timed_out ≡ false
      → IsConsistent started now (test_resident stage i)
  unfolding test_resident Tokens.mark_resident_test
  test_resident-IsConsistent stage i v live =
      elim (Bool-cases (i.pause.paused && not i.pause.evicted)) [
        | inl passes ↦ rw passes (record {
          timed = v.timed;
          evicted_cancels = v.evicted_cancels;
          timed_out_returns = λ h. absurd cc;
          waits = ground arith;
        })
        | inr stays ↦ rw stays (record {
          timed = v.timed;
          evicted_cancels = v.evicted_cancels;
          timed_out_returns = λ h. absurd cc;
          waits = tt;
        })
      ]

  pub store_resident-IsConsistent :
      (stage : Stage) (i : Invocation)
      → IsConsistent started now i
      → i.timed_out ≡ false
      → i.progress ≡ storing stage
      → IsConsistent started now (store_resident stage i)
  unfolding store_resident Tokens.mark_resident_store
  store_resident-IsConsistent stage i v live e = record {
    timed = record {
      since = v.timed.since;
      free = v.timed.free;
      resident_live = λ h. subst (λ p. WaitsFor started.resident_ttl p i.pause) e v.waits;
    };
    evicted_cancels = v.evicted_cancels;
    timed_out_returns = λ h. absurd cc;
    waits = tt;
  }

  pub guest-IsConsistent :
      (stage : Stage) (i : Invocation)
      → IsConsistent started now i
      → i.timed_out ≡ false
      → IsConsistent started now (record i { progress = guest stage })
  guest-IsConsistent stage i v live = record {
    timed = v.timed;
    evicted_cancels = v.evicted_cancels;
    timed_out_returns = λ h. absurd cc;
    waits = tt;
  }

  pub on_epoch-IsConsistent :
      (stage : Stage) (i : Invocation)
      → IsConsistent started now i
      → i.progress ≡ guest stage
      → IsConsistent started now (on_epoch started now stage i)
  unfolding on_epoch
  on_epoch-IsConsistent stage i v e =
      let live = unfinished-live i v (ap is_finished e) in
      if_holds (IsConsistent started now) (i.pause.evicted || i.cancellation)
        (λ over. fails-IsConsistent stage interrupt i v.timed v.evicted_cancels)
        (λ calm.
          if_holds (IsConsistent started now) (leb started.timeout (active started now i.pause))
            (λ late.
              fails-IsConsistent stage interrupt (record i { timed_out = true }) v.timed
                v.evicted_cancels)
            (λ early.
              if_holds (IsConsistent started now) i.pause.paused
                (λ on. record {
                  timed = v.timed;
                  evicted_cancels = v.evicted_cancels;
                  timed_out_returns = λ h. absurd cc;
                  waits = tt;
                })
                (λ off. v)))

  pub on_slept-IsConsistent :
      (stage : Stage) (deadline : ℕ) (i : Invocation)
      → IsConsistent started now i
      → i.progress ≡ waiting stage deadline
      → IsConsistent started now (on_slept stage i)
  unfolding on_slept
  on_slept-IsConsistent stage deadline i v e =
      let live = unfinished-live i v (ap is_finished e) in
      if_holds (IsConsistent started now) i.pause.paused
        (λ on. evict_waiting-IsConsistent stage i v.timed live)
        (λ off. guest-IsConsistent stage i v live)
