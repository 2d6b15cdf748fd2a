-- ===== src/Tokens.antt =====
-- src/types.rs: the state of a pause token, whose clones share it, and its operations at an instant.
-- Instants are nanoseconds, which a clock never takes back.
pub mod Totals
use wasm_runtime.Base.{
  ℕ, ◌+◌, ◌-◌, ◌*◌, ◌^◌, min, Bool, true, false, ◌&&◌, ◌||◌, not, Option, none, some, ◌==◌,
  if◌then◌else◌,
}

pub record PauseTiming : Type 0 where
  pub completed : ℕ
  pub paused_at : Option ℕ

-- `notified`: `notify_waiters` was called since the waiting task made its `notified` future.
pub record PauseToken : Type 0 where
  pub paused : Bool
  pub resident : Bool
  pub evicted : Bool
  pub notified : Bool
  pub timing : PauseTiming

abbrev pub new : PauseToken
new = record {
  paused = false;
  resident = false;
  evicted = false;
  notified = false;
  timing = record { completed = 0; paused_at = none };
}

-- `Duration::MAX`
abbrev pub duration_max : ℕ
duration_max = (2 ^ 64 - 1) * 1000000000 + 999999999

-- `Duration::saturating_add`
abbrev pub duration_add : ℕ → ℕ → ℕ
duration_add a b = min duration_max (a + b)

-- `map_or(Duration::ZERO, |started| started.elapsed())`
abbrev pub elapsed_since : ℕ → Option ℕ → ℕ
elapsed_since now none = 0
elapsed_since now (some started) = now - started

unfoldable pub pause : ℕ → PauseToken → PauseToken
pause now token = if token.paused then token else record token {
  paused = true;
  resident = false;
  timing = record { completed = token.timing.completed; paused_at = some now };
}

abbrev pub take_started : ℕ → PauseTiming → PauseTiming
take_started now timing = elim timing.paused_at [
  | none ↦ timing
  | some started ↦ record {
    completed = duration_add timing.completed (now - started);
    paused_at = none;
  }
]

unfoldable pub resume : ℕ → PauseToken → Bool × PauseToken
resume now token =
    if token.evicted
    then (false, token)
    else if token.paused
    then (
      true,
      record token {
        paused = false;
        resident = false;
        notified = true;
        timing = take_started now token.timing;
      },
    )
    else (true, token)

-- `mark_resident` takes no lock: calls on the handle may come between its test and its stores.
unfoldable pub mark_resident_test : PauseToken → Bool
mark_resident_test token = token.paused && not token.evicted

unfoldable pub mark_resident_store : PauseToken → PauseToken
mark_resident_store token = record token { resident = true; notified = true }

unfoldable pub total_paused : ℕ → PauseToken → ℕ
total_paused now token =
    duration_add token.timing.completed (elapsed_since now token.timing.paused_at)

-- What `evict` does to the pause token; it also cancels.
unfoldable pub evict : PauseToken → PauseToken
evict token = record token { evicted = true; resident = false; notified = true }

-- A round of the loop of `wait`.
pub data Waiting : Type 0 where
  returns : Waiting
  evicts : Waiting
  sleeps_until : ℕ → Waiting

-- `resident_ttl` without the time since the pause.
abbrev pub remaining : ℕ → ℕ → Option ℕ → ℕ
remaining now resident_ttl none = resident_ttl
remaining now resident_ttl (some started) = resident_ttl - (now - started)

unfoldable pub wait_round : ℕ → ℕ → Bool → PauseToken → Waiting
wait_round now resident_ttl is_cancelled token =
    let left = remaining now resident_ttl token.timing.paused_at in
    if not token.paused || is_cancelled
    then returns
    else if left == 0
    then evicts
    else sleeps_until (now + left)
