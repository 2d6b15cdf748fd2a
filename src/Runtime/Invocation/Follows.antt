-- ===== src/Runtime/Invocation/Follows.antt =====
-- src/runtime.rs: what a waiting task learns of the calls on its pause token.
use wasm_runtime.Base.{ℕ, ◌≡◌, sym, ◌∙◌, true, ◌&&◌, not, none, inl, inr, arith, Bool-cases}
use wasm_runtime.Runtime.Invocation.{Progress, guest, marking, storing, entering, waiting, returned}
use wasm_runtime.Runtime.Invocation.Consistent.{IsTimed, WaitsFor}
use wasm_runtime.Tokens
use wasm_runtime.Tokens.{PauseToken}

-- A waiting task is told of a change, or its pause goes on, or there was none.
pub data Follows (token old : PauseToken) : Type 0 where
  told : token.notified ≡ true → Follows token old
  goes_on :
      token.notified ≡ old.notified
      → old.timing.paused_at ≡ token.timing.paused_at
      → Follows token old
  begins : token.notified ≡ old.notified → old.timing.paused_at ≡ none → Follows token old

pub pause-Follows :
    (now : ℕ) (token : PauseToken) → IsTimed now token → Follows (Tokens.pause now token) token
unfolding Tokens.pause
pause-Follows now token v = elim (Bool-cases token.paused) [
  | inl on ↦ goes_on (ground arith) (ground arith)
  | inr off ↦ begins (ground arith) (v.free off)
]

pub resume-Follows : (now : ℕ) (token : PauseToken) → Follows (Tokens.resume now token).1 token
unfolding Tokens.resume
resume-Follows now token = elim (Bool-cases (token.paused && not token.evicted)) [
  | inl on ↦ told (ground arith)
  | inr off ↦ goes_on (ground arith) (ground arith)
]

pub pause-evicted :
    (now : ℕ) (token : PauseToken) → (Tokens.pause now token).evicted ≡ token.evicted
unfolding Tokens.pause
pause-evicted now token = ground arith

pub resume-evicted :
    (now : ℕ) (token : PauseToken) → (Tokens.resume now token).1.evicted ≡ token.evicted
unfolding Tokens.resume
resume-evicted now token = ground arith

pub WaitsFor-kept :
    (resident_ttl : ℕ) (progress : Progress) (old token : PauseToken)
    → token.evicted ≡ old.evicted
    → Follows token old
    → WaitsFor resident_ttl progress old
    → WaitsFor resident_ttl progress token
WaitsFor-kept ttl (guest stage) old token same n w = tt
WaitsFor-kept ttl (returned outcome) old token same n w = tt
WaitsFor-kept ttl (marking stage) old token same n w = tt
WaitsFor-kept ttl (storing stage) old token same n live = same ∙ live
WaitsFor-kept ttl (entering stage) old token same n w = tt
WaitsFor-kept ttl (waiting stage deadline) old token same (told news) (live, quiet) =
    (same ∙ live, λ off. absurd cc)
WaitsFor-kept ttl (waiting stage deadline) old token same (goes_on silent at) (live, quiet) = (
  same ∙ live,
  λ off. (let (s, there, before) = quiet (sym silent ∙ off) in (s, sym at ∙ there, before)),
)
WaitsFor-kept ttl (waiting stage deadline) old token same (begins silent free) (live, quiet) =
    (same ∙ live, λ off. (let (s, there, before) = quiet (sym silent ∙ off) in absurd cc))
