-- ===== src/Checkpoint/Journal/Lifecycle.antt =====
-- src/checkpoint.rs: the life cycle of a journal, stated over its records: one module initialisation first, one
-- snapshot last, and a thread record between them.
use wasm_runtime.Base.{
  ℕ, ◌+◌, ◌<◌, ◌≡◌, refl, sym, ◌∙◌, ◌≢◌, true, false, some, List, [], ◌∷◌, arith, length, any, ◌==◌,
  if◌then◌else◌,
}
use wasm_runtime.Failure.{ok, ◌>>=◌, >>=-eq-ok}
use wasm_runtime.Checkpoint.Journal.{Scan, count_record, advance}
use wasm_runtime.Checkpoint.Journal.Framing.{Record, tally, is_nil}

-- No initialisation, and a snapshot exactly at the end.
abbrev pub EndsInSnapshot : List Record → Type 0
EndsInSnapshot [] = ⊥
EndsInSnapshot (r ∷ []) = r.kind ≡ 59
EndsInSnapshot (r ∷ t ∷ rs) = (r.kind ≢ 1) × (r.kind ≢ 59) × EndsInSnapshot (t ∷ rs)

abbrev pub HasThread : List Record → Type 0
HasThread rs = any (λ r. r.kind == 3) rs ≡ true

abbrev pub IsLifecycle : List Record → Type 0
IsLifecycle [] = ⊥
IsLifecycle (r ∷ rs) = (r.kind ≡ 1) × EndsInSnapshot rs × HasThread rs

-- The number of thread records.
pub threads : List Record → ℕ
threads [] = 0
threads (r ∷ rs) = (if r.kind == 3 then 1 else 0) + threads rs

pub threads-HasThread : (rs : List Record) → 0 < threads rs → HasThread rs
unfolding threads
threads-HasThread [] h = absurd (omega arith)
threads-HasThread (r ∷ rs) h = ground (arith, threads-HasThread rs)

pub HasThread-threads : (rs : List Record) → HasThread rs → 0 < threads rs
unfolding threads
HasThread-threads [] h = cc
HasThread-threads (r ∷ rs) h = ground (arith, HasThread-threads rs)

-- The counters after a record of the middle.
bump : ℕ → Scan → Scan
bump k s = if k == 3 then record s { set_thread_records = s.set_thread_records + 1 } else s

count_record-bump : (k : ℕ) (s : Scan) → k ≢ 1 → k ≢ 59 → count_record false k s ≡ ok (bump k s)
unfolding count_record bump
count_record-bump k s h1 h59 = ground arith

bump-count_record :
    (k : ℕ) (s c : Scan)
    → 0 < s.record_count
    → count_record false k s ≡ ok c
    → (k ≢ 1) × (k ≢ 59) × (c ≡ bump k s)
unfolding count_record bump
bump-count_record k s c n e = ground arith

threads-cons :
    (r : Record) (rs : List Record) → threads (r ∷ rs) ≡ (if r.kind == 3 then 1 else 0) + threads rs
unfolding threads
threads-cons r rs = refl

pub tally-cons :
    (r : Record) (rs : List Record) (s : Scan)
    → tally (r ∷ rs) s ≡ (
        count_record (is_nil rs) r.kind s >>= λ c.
        tally rs (advance (s.cursor + 8 + length r.body) r.kind c))
unfolding tally
tally-cons r rs s = refl

abbrev step_to : Record → Scan → Scan
step_to r s = advance (s.cursor + 8 + length r.body) r.kind (bump r.kind s)

bump_counts :
    (r : Record) (s : Scan) (n : ℕ)
    → ((step_to r s).set_thread_records + n
        ≡ s.set_thread_records + ((if r.kind == 3 then 1 else 0) + n))
      × ((step_to r s).snapshot_records ≡ s.snapshot_records)
      × ((step_to r s).init_module_records ≡ s.init_module_records)
      × ((step_to r s).record_count ≡ s.record_count + 1)
unfolding bump
bump_counts r s n = ground arith

-- What a tally that starts behind the first record ends with.
pub record Tallied (s s' : Scan) (rs : List Record) : Type 0 where
  pub init : s'.init_module_records ≡ s.init_module_records
  pub set_thread : s'.set_thread_records ≡ s.set_thread_records + threads rs
  pub snapshot : s'.snapshot_records ≡ s.snapshot_records + 1
  pub final : s'.final_record ≡ some 59

tally_last :
    (r : Record) (s : Scan)
    → r.kind ≡ 59
    → (s' : Scan) × (tally (r ∷ []) s ≡ ok s') × Tallied s s' (r ∷ [])
unfolding tally threads count_record
tally_last r s h = (
  advance (s.cursor + 8 + length r.body) r.kind
      (record s { snapshot_records = s.snapshot_records + 1 }),
  ground arith,
  ground arith,
)

Tallied-step :
    (r : Record) (rs : List Record) (s s' : Scan)
    → Tallied (step_to r s) s' rs
    → Tallied s s' (r ∷ rs)
unfolding threads
Tallied-step r rs s s' t = ground (arith, bump_counts r s (threads rs))

pub tally-EndsInSnapshot :
    (rs : List Record) (s : Scan)
    → EndsInSnapshot rs
    → (s' : Scan) × (tally rs s ≡ ok s') × Tallied s s' rs
tally-EndsInSnapshot [] s h = absurd h
tally-EndsInSnapshot (r ∷ []) s h = tally_last r s h
tally-EndsInSnapshot (r ∷ t ∷ rs) s h =
    let (s', e, tallied) = tally-EndsInSnapshot (t ∷ rs) (step_to r s) h.2 in
    (
      s',
      tally-cons r (t ∷ rs) s ∙ rw (count_record-bump r.kind s h.0 h.1) e,
      Tallied-step r (t ∷ rs) s s' tallied,
    )

-- With no snapshot so far and one at the end, the records end in it.
abbrev pub Ended : List Record → Scan → Scan → Type 0
Ended rs s s' =
    EndsInSnapshot rs
    × (s'.set_thread_records ≡ s.set_thread_records + threads rs)
    × (s'.init_module_records ≡ s.init_module_records)

Ended-last :
    (r : Record) (s s' : Scan)
    → 0 < s.record_count
    → s.snapshot_records ≡ 0
    → tally (r ∷ []) s ≡ ok s'
    → s'.snapshot_records ≡ 1
    → Ended (r ∷ []) s s'
unfolding tally threads count_record
Ended-last r s s' n z e one = ground arith

ended_none :
    (s s' : Scan) → s.snapshot_records ≡ 0 → tally [] s ≡ ok s' → s'.snapshot_records ≡ 1 → ⊥
unfolding tally
ended_none s s' z e one = ground arith

pub Ended-tally :
    (rs : List Record) (s s' : Scan)
    → 0 < s.record_count
    → s.snapshot_records ≡ 0
    → tally rs s ≡ ok s'
    → s'.snapshot_records ≡ 1
    → Ended rs s s'
Ended-tally [] s s' n z e one = absurd (ended_none s s' z e one)
Ended-tally (r ∷ []) s s' n z e one = Ended-last r s s' n z e one
Ended-tally (r ∷ t ∷ rs) s s' n z e one =
    let (c, counted, later) =
      >>=-eq-ok (count_record false r.kind s) _ (sym (tally-cons r (t ∷ rs) s) ∙ e) in
    let (h1, h59, same) = bump-count_record r.kind s c n counted in
    let facts = bump_counts r s (threads (t ∷ rs)) in
    let (ends, threaded, kept) =
      Ended-tally (t ∷ rs) (step_to r s) s' (omega (arith, facts)) (omega (arith, facts))
        (rw same at later) one in
    (
      (h1, h59, ends),
      omega (arith, threaded, facts, threads-cons r (t ∷ rs)),
      omega (arith, kept, facts),
    )
