-- ===== src/Checkpoint/Journal/Loop.antt =====
-- src/checkpoint.rs: the loop of `scan_journal`, over framed records and over any bytes.
use wasm_runtime.Base.{
  ℕ, zero, suc, ◌+◌, ◌≤◌, ◌<◌, ◌≡◌, refl, sym, ap, ◌∙◌, inl, inr, List, [], ◌∷◌, ◌++◌, append_assoc,
  arith, Bytes, length, length-append, length-drop, drop, All, ltb, ◌==◌, Bool-cases, le→ltb,
  lt→ltb, ltb→lt, ltb→le,
}
use wasm_runtime.Base.Words.{AllBytes}
use wasm_runtime.Failure.{ok, ◌>>=◌, >>=-eq-ok, bind_chain, Returns, Returns-bind, usize_end}
use wasm_runtime.Checkpoint.Journal.{Scan, count_record, advance, scan_record, scan_loop}
use wasm_runtime.Checkpoint.Journal.Framing.{
  Record, IsRecord, frame_header, length-frame_header, frames, is_nil, tally,
}
use wasm_runtime.Checkpoint.Journal.Rounds.{
  scan_record-frame, Accepted, scan_record-Accepted, scan_record_moves, scan_record-Returns,
}

-- Where the records end is where the journal ends.
length-frames : (rs : List Record) (n : ℕ) → (n == n + length (frames rs)) ≡ is_nil rs
unfolding frames
length-frames [] n = ground arith
length-frames (r ∷ rs) n =
    ground (arith, length-append (frame_header r) (r.body ++ frames rs), length-frame_header r)

module _ (before : Bytes) (r : Record) (rs : List Record) where
  whole-length :
      length (before ++ frames (r ∷ rs)) ≡ length before + 8 + length r.body + length (frames rs)
  unfolding frames
  whole-length = omega (
    arith,
    length-append before (frame_header r ++ (r.body ++ frames rs)),
    length-append (frame_header r) (r.body ++ frames rs),
    length-append r.body (frames rs),
    length-frame_header r,
  )

  abbrev passed : Bytes
  passed = before ++ (frame_header r ++ r.body)

  length-passed : length passed ≡ length before + 8 + length r.body
  length-passed = omega (
    arith,
    length-append before (frame_header r ++ r.body),
    length-append (frame_header r) r.body,
    length-frame_header r,
  )

  regroup : before ++ frames (r ∷ rs) ≡ passed ++ frames rs
  unfolding frames
  regroup =
      ap (λ t. before ++ t) (sym (append_assoc (frame_header r) r.body (frames rs)))
      ∙ sym (append_assoc before (frame_header r ++ r.body) (frames rs))

  round :
      (s : Scan)
      → IsRecord r
      → s.cursor ≡ length before
      → length (before ++ frames (r ∷ rs)) < usize_end
      → scan_record (before ++ frames (r ∷ rs)) s ≡ (
          count_record (is_nil rs) r.kind s >>= λ c.
          ok (advance (s.cursor + 8 + length r.body) r.kind c))
  unfolding frames
  round s h at fits =
      let last : (s.cursor + 8 + length r.body == length (before ++ frames (r ∷ rs))) ≡ is_nil rs =
        rw (at, whole-length) (length-frames rs (length before + 8 + length r.body)) in
      rw (← last) (scan_record-frame before (frames rs) r s h at fits)

scan_loop_more :
    (fuel : ℕ) (journal : Bytes) (s : Scan)
    → s.cursor < length journal
    → scan_loop (suc fuel) journal s ≡ (scan_record journal s >>= λ s'. scan_loop fuel journal s')
unfolding scan_loop
scan_loop_more fuel journal s h = rw (lt→ltb s.cursor (length journal) h, scan_loop)

scan_loop_done :
    (fuel : ℕ) (journal : Bytes) (s : Scan)
    → length journal ≤ s.cursor
    → scan_loop (suc fuel) journal s ≡ ok s
unfolding scan_loop
scan_loop_done fuel journal s h = rw (le→ltb s.cursor (length journal) h, scan_loop)

out_of_fuel : (journal : Bytes) (s : Scan) {s' : Scan} → scan_loop zero journal s ≡ ok s' → ⊥
unfolding scan_loop
out_of_fuel journal s e = cc

-- Over framed records the loop does what `tally` does, with fuel for one round a byte.
pub scan_loop-frames :
    (rs : List Record) (fuel : ℕ) (before : Bytes) (s : Scan)
    → All IsRecord rs
    → length (frames rs) < fuel
    → s.cursor ≡ length before
    → length (before ++ frames rs) < usize_end
    → scan_loop fuel (before ++ frames rs) s ≡ tally rs s
unfolding tally
scan_loop-frames rs zero before s h f at fits = absurd (omega arith)
scan_loop-frames [] (suc fuel) before s h f at fits =
    scan_loop_done fuel (before ++ frames []) s
      (unfold frames in omega (arith, length-append before []))
scan_loop-frames (r ∷ rs) (suc fuel) before s h f at fits =
    scan_loop_more fuel (before ++ frames (r ∷ rs)) s (omega (arith, whole-length before r rs))
    ∙ rw (round before r rs s h.0 at fits) (
        bind_chain (count_record (is_nil rs) r.kind s)
          (advance (s.cursor + 8 + length r.body) r.kind)
          (λ t. scan_loop fuel (before ++ frames (r ∷ rs)) t) _
          (λ c. rw (regroup before r rs) (
            scan_loop-frames rs fuel (passed before r rs)
              (advance (s.cursor + 8 + length r.body) r.kind c) h.1
              (omega (arith, whole-length [] r rs)) (omega (arith, length-passed before r rs))
              (rw (regroup before r rs) at fits))))

module _ (journal : Bytes) (s t s' : Scan) (r : Record) (rs : List Record)
    (ar : Accepted journal s t r) (read : drop t.cursor journal ≡ frames rs) where
  at_end : (s.cursor + 8 + length r.body == length journal) ≡ is_nil rs
  at_end =
      let total : length journal ≡ s.cursor + 8 + length r.body + length (frames rs) =
        omega (arith, ap length read, length-drop t.cursor journal, ar.cursor, ar.inside) in
      rw total (length-frames rs (s.cursor + 8 + length r.body))

  tally-cons : tally rs t ≡ ok s' → tally (r ∷ rs) s ≡ ok s'
  unfolding tally
  tally-cons e =
      sym (
        bind_chain (count_record (is_nil rs) r.kind s)
          (advance (s.cursor + 8 + length r.body) r.kind) (tally rs) _ (λ c. refl))
      ∙ ap (λ m. m >>= tally rs) (rw at_end at ar.counted)
      ∙ e

  frames-cons : drop s.cursor journal ≡ frames (r ∷ rs)
  unfolding frames
  frames-cons = ar.read ∙ ap (λ z. frame_header r ++ (r.body ++ z)) read

drop_end : (n : ℕ) (xs : Bytes) → length xs ≤ n → drop n xs ≡ []
drop_end zero [] h = refl
drop_end zero (x ∷ xs) h = absurd (omega arith)
drop_end (suc n) [] h = refl
drop_end (suc n) (x ∷ xs) h = drop_end n xs (omega arith)

no_records :
    (fuel : ℕ) (journal : Bytes) (s s' : Scan)
    → length journal ≤ s.cursor
    → scan_loop (suc fuel) journal s ≡ ok s'
    → (drop s.cursor journal ≡ frames []) × (tally [] s ≡ ok s')
unfolding tally frames
no_records fuel journal s s' h e =
    (drop_end s.cursor journal h, sym (scan_loop_done fuel journal s h) ∙ e)

-- What the loop accepts from a cursor on is framed records, and their tally is its result.
pub scan_loop-records :
    (fuel : ℕ) (journal : Bytes) (s s' : Scan)
    → AllBytes journal
    → scan_loop fuel journal s ≡ ok s'
    → (rs : List Record) × All IsRecord rs
      × (drop s.cursor journal ≡ frames rs)
      × (tally rs s ≡ ok s')
scan_loop-records zero journal s s' bytes e = absurd (out_of_fuel journal s e)
scan_loop-records (suc fuel) journal s s' bytes e =
    elim (Bool-cases (ltb s.cursor (length journal))) [
      | inl more ↦
          let (t, one, later) =
            >>=-eq-ok (scan_record journal s) (λ t. scan_loop fuel journal t)
              (sym (scan_loop_more fuel journal s (ltb→lt s.cursor (length journal) more)) ∙ e) in
          let (r, ar) = scan_record-Accepted journal s t bytes one in
          let (rs, good, read, counted) = scan_loop-records fuel journal t s' bytes later in
          (
            r ∷ rs,
            (ar.good, good),
            frames-cons journal s t s' r rs ar read,
            tally-cons journal s t s' r rs ar read counted,
          )
      | inr done ↦
          let (empty, counted) = no_records fuel journal s s' (ltb→le s.cursor _ done) e in
          ([], tt, empty, counted)
    ]

-- The loop ends: with a unit of fuel for each byte left it neither panics nor runs out.
pub scan_loop-Returns :
    (fuel : ℕ) (journal : Bytes) (s : Scan)
    → s.cursor ≤ length journal
    → length journal < s.cursor + fuel
    → Returns (scan_loop fuel journal s)
scan_loop-Returns zero journal s inside h = absurd (omega arith)
scan_loop-Returns (suc fuel) journal s inside h =
    elim (Bool-cases (ltb s.cursor (length journal))) [
      | inl more ↦ rw (scan_loop_more fuel journal s (ltb→lt s.cursor _ more)) (
          Returns-bind (scan_record journal s) _ (scan_record-Returns journal s) (λ t e.
            let (moved, within) = scan_record_moves journal s t e in
            scan_loop-Returns fuel journal t within (omega arith)))
      | inr done ↦ rw (scan_loop_done fuel journal s (ltb→le s.cursor _ done)) tt
    ]
