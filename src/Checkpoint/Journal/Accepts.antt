-- ===== src/Checkpoint/Journal/Accepts.antt =====
-- src/checkpoint.rs: the journals of the specification, and `scan_journal` as a whole.
use native.Mathlib.Decide.{ℕ_discrete}
use wasm_runtime.Base.{
  ℕ, suc, ◌+◌, ◌≤◌, ◌<◌, ◌≡◌, refl, sym, ap, ◌∙◌, ◌≢◌, true, false, not, ◌||◌, List, [], ◌∷◌, ◌++◌,
  arith, Bytes, length, take, drop, take-append-drop, All, ltb, equal, equal→eq,
}
use wasm_runtime.Base.Words.{AllBytes}
use wasm_runtime.Failure.{
  ok, Returns, Returns-bind, Returns-reject, ◌>>=◌, >>=-eq-ok, reject-eq-ok, usize_end,
}
use wasm_runtime.Checkpoint.Journal.{
  Scan, scan_start, journal_magic, count_record, advance, scan_loop, check_lifecycle, scan_journal,
}
use wasm_runtime.Checkpoint.Journal.Framing.{Record, IsRecord, frames, tally}
use wasm_runtime.Checkpoint.Journal.Loop.{scan_loop-frames, scan_loop-records, scan_loop-Returns}
use wasm_runtime.Checkpoint.Journal.Lifecycle.{
  IsLifecycle, threads, threads-HasThread, HasThread-threads, tally-EndsInSnapshot, tally-cons,
  Ended-tally, Tallied,
}

-- The state behind a first record of type 1.
abbrev initialised : Record → Scan
initialised r =
    advance (8 + 8 + length r.body) r.kind (record scan_start { init_module_records = 1 })

tally_init :
    (r : Record) (rs : List Record)
    → r.kind ≡ 1
    → tally (r ∷ rs) scan_start ≡ tally rs (initialised r)
unfolding count_record
tally_init r rs h = tally-cons r rs scan_start ∙ rw (h, count_record)

check_passes :
    (s s' : Scan) (rs : List Record)
    → Tallied s s' rs
    → s.init_module_records ≡ 1
    → s.snapshot_records ≡ 0
    → 0 < threads rs
    → check_lifecycle s' ≡ ok tt
unfolding check_lifecycle
check_passes s s' rs t one none_yet n = ground arith

passes_check :
    (s : Scan)
    → check_lifecycle s ≡ ok tt
    → (s.init_module_records ≡ 1) × (s.set_thread_records ≢ 0) × (s.snapshot_records ≡ 1)
unfolding check_lifecycle
passes_check s h = ground arith

lifecycle_passes :
    (rs : List Record) → IsLifecycle rs → (tally rs scan_start >>= check_lifecycle) ≡ ok tt
lifecycle_passes [] h = absurd h
lifecycle_passes (r ∷ rs) h =
    let (s', e, t) = tally-EndsInSnapshot rs (initialised r) h.1 in
    rw (tally_init r rs h.0, e)
      (check_passes (initialised r) s' rs t refl refl (HasThread-threads rs h.2))

-- A journal whose first record is of another type is never initialised.
other_first :
    (k : ℕ) (c : Scan)
    → k ≢ 1
    → count_record false k scan_start ≡ ok c
    → (c.init_module_records ≡ 0) × (c.snapshot_records ≡ 0)
unfolding count_record
other_first k c h e = ground arith

other_alone :
    (r : Record) (s' : Scan)
    → r.kind ≢ 1
    → tally (r ∷ []) scan_start ≡ ok s'
    → s'.init_module_records ≡ 0
unfolding count_record tally
other_alone r s' h e = ground arith

never_initialised :
    (r : Record) (rs : List Record) (s' : Scan)
    → r.kind ≢ 1
    → tally (r ∷ rs) scan_start ≡ ok s'
    → s'.snapshot_records ≡ 1
    → s'.init_module_records ≡ 0
never_initialised r [] s' h e one = other_alone r s' h e
never_initialised r (t ∷ rs) s' h e one =
    let (c, counted, later) =
      >>=-eq-ok (count_record false r.kind scan_start) _
        (sym (tally-cons r (t ∷ rs) scan_start) ∙ e) in
    let (init, snapshot) = other_first r.kind c h counted in
    let (ends, threaded, kept) =
      Ended-tally (t ∷ rs) (advance (8 + 8 + length r.body) r.kind c) s' (omega arith) snapshot
        later one in
    kept ∙ init

passes-IsLifecycle :
    (rs : List Record) (s' : Scan)
    → tally rs scan_start ≡ ok s'
    → check_lifecycle s' ≡ ok tt
    → IsLifecycle rs
passes-IsLifecycle [] s' e h = unfold tally check_lifecycle in cc
passes-IsLifecycle (r ∷ rs) s' e h =
    let (init, threaded, one) = passes_check s' h in
    elim (ℕ_discrete r.kind 1) [
      | yes k ↦
          let (ends, n, kept) =
            Ended-tally rs (initialised r) s' (omega arith) refl (sym (tally_init r rs k) ∙ e)
              one in
          (k, ends, threads-HasThread rs (omega arith))
      | no k ↦ absurd (omega (arith, init, never_initialised r rs s' k e one))
    ]

head_length : length journal_magic ≡ 8
head_length = refl

-- What stands behind the magic marker.
split_magic :
    (journal : Bytes)
    → (ltb (length journal) 8 || not (equal (take 8 journal) journal_magic)) ≡ false
    → (8 ≤ length journal) × (journal ≡ journal_magic ++ drop 8 journal)
split_magic journal h =
    let both : (8 ≤ length journal) × (equal (take 8 journal) journal_magic ≡ true) =
      ground arith in
    (
      both.0,
      sym (take-append-drop 8 journal)
          ∙ ap (λ t. t ++ drop 8 journal) (equal→eq (take 8 journal) journal_magic both.1),
    )

-- The journals that the specification allows.
abbrev pub IsJournal : Bytes → Type 0
IsJournal journal =
    (rs : List Record) × All IsRecord rs × IsLifecycle rs × (journal ≡ journal_magic ++ frames rs)

pub scan_journal_sound :
    (journal : Bytes) → AllBytes journal → scan_journal journal ≡ ok tt → IsJournal journal
unfolding scan_journal
scan_journal_sound journal bytes e =
    let (head, body) =
      reject-eq-ok (ltb (length journal) 8 || not (equal (take 8 journal) journal_magic)) _ _ e in
    let (s', looped, checked) =
      >>=-eq-ok (scan_loop (suc (length journal)) journal scan_start) check_lifecycle body in
    let (rs, good, read, counted) =
      scan_loop-records (suc (length journal)) journal scan_start s' bytes looped in
    (
      rs,
      good,
      passes-IsLifecycle rs s' counted checked,
      (split_magic journal head).1 ∙ ap (λ t. journal_magic ++ t) read,
    )

-- The test on the magic marker, at a journal that begins with it.
magic_test :
    (rest : Bytes)
    → (ltb (length (journal_magic ++ rest)) 8
        || not (equal (take 8 (journal_magic ++ rest)) journal_magic))
      ≡ false
unfolding equal
magic_test rest = ground arith

scan_framed :
    (rs : List Record)
    → All IsRecord rs
    → length (journal_magic ++ frames rs) < usize_end
    → scan_journal (journal_magic ++ frames rs) ≡ (tally rs scan_start >>= check_lifecycle)
unfolding scan_journal
scan_framed rs good fits = rw (
  magic_test (frames rs),
  scan_loop-frames rs (suc (length (journal_magic ++ frames rs))) journal_magic scan_start good
      (omega arith) refl fits,
)

pub scan_journal_complete :
    (journal : Bytes)
    → length journal < usize_end
    → IsJournal journal
    → scan_journal journal ≡ ok tt
scan_journal_complete journal fits (rs, good, life, e) =
    ap scan_journal e ∙ scan_framed rs good (rw e at fits) ∙ lifecycle_passes rs life

check_lifecycle-Returns : (s : Scan) → Returns (check_lifecycle s)
unfolding check_lifecycle
check_lifecycle-Returns s = ground arith

pub scan_journal-Returns : (journal : Bytes) → Returns (scan_journal journal)
unfolding scan_journal
scan_journal-Returns journal =
    Returns-reject (ltb (length journal) 8 || not (equal (take 8 journal) journal_magic)) _ _ λ h.
      Returns-bind (scan_loop (suc (length journal)) journal scan_start) check_lifecycle
        (scan_loop-Returns (suc (length journal)) journal scan_start (split_magic journal h).0
          (omega arith))
        (λ s e. check_lifecycle-Returns s)
