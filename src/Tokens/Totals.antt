-- ===== src/Tokens/Totals.antt =====
-- src/types.rs: the time that a pause token has been paused.
use wasm_runtime.Base.{
  Bool-cases, ℕ, ◌+◌, ◌-◌, ◌≤◌, min, Bool, true, false, ◌&&◌, none, some, List, [], ◌∷◌, ◌≡◌, refl,
  ◌⊎◌, inl, inr, if◌then◌else◌, arith,
}
use wasm_runtime.Tokens.{
  PauseTiming, PauseToken, new, pause, resume, mark_resident_store, evict, total_paused,
  duration_max,
}

-- The calls on a token, in the order in which they take its lock.
pub data Signal : Type 0 where
  pausing resuming : ℕ → Signal
  residing evicting : Signal

unfoldable pub apply : Signal → PauseToken → PauseToken
apply (pausing now) token = pause now token
apply (resuming now) token = (resume now token).1
apply residing token = mark_resident_store token
apply evicting token = evict token

unfoldable pub apply_all : List Signal → PauseToken → PauseToken
apply_all [] token = token
apply_all (signal ∷ signals) token = apply_all signals (apply signal token)

-- A stopwatch that adds up the time between two calls if the invocation was paused in between.
pub record Stopwatch : Type 0 where
  pub running : Bool
  pub frozen : Bool
  pub last : ℕ
  pub total : ℕ

abbrev pub advance : ℕ → Stopwatch → ℕ
advance now w = if w.running then w.total + (now - w.last) else w.total

unfoldable pub observe : Signal → Stopwatch → Stopwatch
observe (pausing now) w = record w { running = true; last = now; total = advance now w }
observe (resuming now) w = record w {
  running = w.running && w.frozen;
  last = now;
  total = advance now w;
}
observe residing w = w
observe evicting w = record w { frozen = true }

unfoldable pub observe_all : List Signal → Stopwatch → Stopwatch
observe_all [] w = w
observe_all (signal ∷ signals) w = observe_all signals (observe signal w)

abbrev pub stopped : Stopwatch
stopped = record { running = false; frozen = false; last = 0; total = 0 }

-- The instants of the calls never go back, and `now` is not before them.
abbrev pub Ordered : ℕ → List Signal → ℕ → Type 0
Ordered last [] now = last ≤ now
Ordered last (pausing t ∷ signals) now = (last ≤ t) × Ordered t signals now
Ordered last (resuming t ∷ signals) now = (last ≤ t) × Ordered t signals now
Ordered last (residing ∷ signals) now = Ordered last signals now
Ordered last (evicting ∷ signals) now = Ordered last signals now

-- The start of the current pause, with the time of the earlier ones.
abbrev Timed : PauseTiming → Stopwatch → Type 0
Timed timing w =
    ((w.running ≡ false)
      × (timing.paused_at ≡ none)
      × (timing.completed ≡ min duration_max w.total))
    ⊎ ((started : ℕ) × (before : ℕ) × (w.running ≡ true)
        × (timing.paused_at ≡ some started)
        × (timing.completed ≡ min duration_max before)
        × (started ≤ w.last)
        × (w.total ≡ before + (w.last - started)))

record Agrees (token : PauseToken) (w : Stopwatch) : Type 0 where
  paused : token.paused ≡ w.running
  evicted : token.evicted ≡ w.frozen
  timed : Timed token.timing w

pausing-Agrees :
    (now : ℕ) (token : PauseToken) (w : Stopwatch)
    → w.last ≤ now
    → Agrees token w
    → Agrees (pause now token) (observe (pausing now) w)
unfolding pause observe
pausing-Agrees now token w le a = record {
  paused = ground (arith, a.paused);
  evicted = ground (arith, a.evicted);
  timed = elim a.timed [
    | inl (off, none_there, sum) ↦ inr (
      now,
      w.total,
      refl,
      ground (arith, a.paused),
      ground (arith, a.paused),
      omega arith,
      ground arith,
    )
    | inr (started, before, on, there, sum, before_last, whole) ↦ inr (
      started,
      before,
      refl,
      ground (arith, a.paused),
      ground (arith, a.paused),
      omega arith,
      ground arith,
    )
  ];
}

resuming-Agrees :
    (now : ℕ) (token : PauseToken) (w : Stopwatch)
    → w.last ≤ now
    → Agrees token w
    → Agrees (resume now token).1 (observe (resuming now) w)
unfolding resume observe
resuming-Agrees now token w le a = record {
  paused = ground (arith, a.paused, a.evicted);
  evicted = ground (arith, a.evicted);
  timed = elim a.timed [
    | inl (off, none_there, sum) ↦
        inl (ground arith, ground (arith, a.paused), ground (arith, a.paused))
    | inr (started, before, on, there, sum, before_last, whole) ↦ elim (Bool-cases token.evicted) [
      | inl gone ↦ inr (
        started,
        before,
        ground (arith, a.evicted),
        ground arith,
        ground arith,
        omega arith,
        ground arith,
      )
      | inr live ↦
          inl (ground (arith, a.evicted), ground (arith, a.paused), ground (arith, a.paused))
    ]
  ];
}

total_paused-Agrees :
    (now : ℕ) (token : PauseToken) (w : Stopwatch)
    → w.last ≤ now
    → Agrees token w
    → total_paused now token ≡ min duration_max (advance now w)
unfolding total_paused
total_paused-Agrees now token w le a = elim a.timed [
  | inl (off, none_there, sum) ↦ ground arith
  | inr (started, before, on, there, sum, before_last, whole) ↦ ground arith
]

residing-Agrees :
    (token : PauseToken) (w : Stopwatch) → Agrees token w → Agrees (mark_resident_store token) w
unfolding mark_resident_store
residing-Agrees token w a = record { paused = a.paused; evicted = a.evicted; timed = a.timed }

apply_all-Agrees :
    (signals : List Signal) (now : ℕ) (token : PauseToken) (w : Stopwatch)
    → Ordered w.last signals now
    → Agrees token w
    → total_paused now (apply_all signals token)
      ≡ min duration_max (advance now (observe_all signals w))
unfolding apply_all observe_all apply observe evict
apply_all-Agrees [] now token w le a = total_paused-Agrees now token w le a
apply_all-Agrees (pausing t ∷ signals) now token w (le, o) a =
    apply_all-Agrees signals now (pause t token) (observe (pausing t) w) o
      (pausing-Agrees t token w le a)
apply_all-Agrees (resuming t ∷ signals) now token w (le, o) a =
    apply_all-Agrees signals now (resume t token).1 (observe (resuming t) w) o
      (resuming-Agrees t token w le a)
apply_all-Agrees (residing ∷ signals) now token w o a =
    apply_all-Agrees signals now (mark_resident_store token) w o (residing-Agrees token w a)
apply_all-Agrees (evicting ∷ signals) now token w o a =
    apply_all-Agrees signals now (evict token) (observe evicting w) o
      (record { paused = a.paused; evicted = refl; timed = a.timed })

-- After any calls on a new pause token, whose instants never go back, `total_paused` is the time that
-- a stopwatch has counted which runs while the invocation is paused, up to the largest `Duration`.
-- A token that was evicted stays paused.
pub total_paused-observe_all :
    (signals : List Signal) (now : ℕ)
    → Ordered 0 signals now
    → total_paused now (apply_all signals new)
      ≡ min duration_max (advance now (observe_all signals stopped))
total_paused-observe_all signals now o =
    apply_all-Agrees signals now new stopped o
      (record { paused = refl; evicted = refl; timed = inl (refl, refl, omega arith) })
