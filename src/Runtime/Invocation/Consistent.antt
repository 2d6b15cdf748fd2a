-- ===== src/Runtime/Invocation/Consistent.antt =====
-- src/runtime.rs: what holds of an invocation between two steps.
use wasm_runtime.Base.{
  inr, inl, Bool-cases, ℕ, ◌+◌, ◌≤◌, Bool, true, false, none, some, ◌≡◌, refl, arith,
}
use wasm_runtime.Runtime.Invocation.{
  Started, Invocation, Progress, guest, marking, storing, entering, waiting, returned, is_finished,
  start,
}
use wasm_runtime.Tokens
use wasm_runtime.Tokens.{PauseToken}

abbrev pub IsPausedSince : ℕ → PauseToken → Type 0
IsPausedSince now token = (since : ℕ) × (token.timing.paused_at ≡ some since) × (since ≤ now)

-- The flags and the instant of a pause token agree, at the instant `now`.
pub record IsTimed (now : ℕ) (token : PauseToken) : Type 0 where
  pub since : token.paused ≡ true → IsPausedSince now token
  pub free : token.paused ≡ false → token.timing.paused_at ≡ none
  pub resident_live : token.resident ≡ true → token.evicted ≡ false

-- A task that waits or is about to store `resident` is not evicted; and until it is notified, it waits
-- for the pause that it saw to be as old as `resident_ttl`.
abbrev pub WaitsFor : ℕ → Progress → PauseToken → Type 0
WaitsFor resident_ttl (guest stage) token = Unit {0}
WaitsFor resident_ttl (returned outcome) token = Unit {0}
WaitsFor resident_ttl (marking stage) token = Unit {0}
WaitsFor resident_ttl (storing stage) token = token.evicted ≡ false
WaitsFor resident_ttl (entering stage) token = Unit {0}
WaitsFor resident_ttl (waiting stage deadline) token =
    (token.evicted ≡ false)
    × (token.notified ≡ false
        → (since : ℕ) × (token.timing.paused_at ≡ some since) × (since + resident_ttl ≤ deadline))

pub record IsConsistent (started : Started) (now : ℕ) (i : Invocation) : Type 0 where
  pub timed : IsTimed now i.pause
  pub evicted_cancels : i.pause.evicted ≡ true → i.cancellation ≡ true
  pub timed_out_returns : i.timed_out ≡ true → is_finished i.progress ≡ true
  pub waits : WaitsFor started.resident_ttl i.progress i.pause

pub start-IsConsistent :
    (started : Started) (t : ℕ) (is_cancelled : Bool) → IsConsistent started t (start is_cancelled)
unfolding start
start-IsConsistent started t is_cancelled = record {
  timed = record { since = λ h. absurd cc; free = λ h. refl; resident_live = λ h. absurd cc };
  evicted_cancels = λ h. absurd cc;
  timed_out_returns = λ h. absurd cc;
  waits = tt;
}

pub later-IsTimed : (u now : ℕ) (token : PauseToken) → u ≤ now → IsTimed u token → IsTimed now token
later-IsTimed u now token le v = record {
  since = λ h. (let (s, at, before) = v.since h in (s, at, omega arith));
  free = v.free;
  resident_live = v.resident_live;
}

pub pause-IsTimed :
    (now : ℕ) (token : PauseToken) → IsTimed now token → IsTimed now (Tokens.pause now token)
unfolding Tokens.pause
pause-IsTimed now token v = record {
  since = λ h. elim (Bool-cases token.paused) [
    | inl on ↦ (let (s, at, before) = v.since on in (s, ground arith, before))
    | inr off ↦ (now, ground arith, omega arith)
  ];
  free = λ h. ground (arith, v.free);
  resident_live = λ h. ground (arith, v.resident_live);
}

pub resume-IsTimed :
    (now : ℕ) (token : PauseToken) → IsTimed now token → IsTimed now (Tokens.resume now token).1
unfolding Tokens.resume
resume-IsTimed now token v = record {
  since = λ h. elim (Bool-cases token.paused) [
    | inl on ↦ (let (s, at, before) = v.since on in (s, ground arith, before))
    | inr off ↦ ground arith
  ];
  free = λ h. ground (arith, v.free);
  resident_live = λ h. ground (arith, v.resident_live);
}
