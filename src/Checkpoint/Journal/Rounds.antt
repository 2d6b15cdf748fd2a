-- ===== src/Checkpoint/Journal/Rounds.antt =====
-- src/checkpoint.rs: one round of the loop of `scan_journal`, over one framed record.
use wasm_runtime.Base.{
  ℕ, ◌+◌, ◌-◌, ◌^◌, ◌≤◌, ◌<◌, ◌≡◌, sym, ap, ◌∙◌, true, false, not, ◌&&◌, ◌∷◌, ◌++◌, arith, Bytes,
  length, length-append, length-take, length-drop, take, drop, All-take, All-drop, take_all, ◌==◌,
  some, le→ltb, take-append-drop, drop-drop,
}
use mathlib.Core.Path.{ap₂}
use wasm_runtime.Base.Words.{
  to_be_bytes, from_be_bytes, IsByte, AllBytes, to_be-from_be_at, from_be_bytes_zeros,
  from_be_bytes-lt_at,
}
use wasm_runtime.Failure.{Result, ok, ◌>>=◌, Returns, checked_add, usize_end}
use wasm_runtime.Slices.{slice, slice-append, slice-eq-ok, usize_try_from}
use wasm_runtime.Checkpoint.Journal.{
  Scan, is_known_journal_record_type, is_zero_sized_journal_record_type, count_record, advance,
  scan_record,
}
use wasm_runtime.Checkpoint.Journal.Framing.{
  Record, IsRecord, frame_header, length-frame_header, frame_header-kind, frame_header-length,
  known-ne-magic,
}

checked_add_fits : (a b : ℕ) → a + b < usize_end → checked_add a b ≡ some (a + b)
unfolding checked_add
checked_add_fits a b h = ground arith

usize_try_from_fits : (v : ℕ) → v < usize_end → usize_try_from v ≡ some v
unfolding usize_try_from
usize_try_from_fits v h = ground arith

empty_test :
    (r : Record)
    → IsRecord r
    → (length r.body == 0 && not (is_zero_sized_journal_record_type r.kind)) ≡ false
empty_test r h = ground (arith, h.empty_ok)

-- One round on a well-formed record.
module _ (before rest : Bytes) (r : Record) (s : Scan) (h : IsRecord r)
    (at : s.cursor ≡ length before) where
  abbrev whole : Bytes
  whole = before ++ (frame_header r ++ (r.body ++ rest))

  length-whole : length whole ≡ s.cursor + 8 + length r.body + length rest
  length-whole = omega (
    arith,
    length-append before (frame_header r ++ (r.body ++ rest)),
    length-append (frame_header r) (r.body ++ rest),
    length-append r.body rest,
    length-frame_header r,
  )

  header_slice : slice whole s.cursor (s.cursor + 8) ≡ ok (frame_header r)
  header_slice =
      slice-append before (frame_header r) (r.body ++ rest) s.cursor (s.cursor + 8) at
        (omega (arith, length-frame_header r))

  pub scan_record-frame :
      length whole < usize_end
      → scan_record whole s ≡ (
          count_record (s.cursor + 8 + length r.body == length whole) r.kind s >>= λ c.
          ok (advance (s.cursor + 8 + length r.body) r.kind c))
  unfolding scan_record
  scan_record-frame fits = rw (
    checked_add_fits s.cursor 8 (omega (arith, length-whole)),
    le→ltb (length whole) (s.cursor + 8) (omega (arith, length-whole)),
    header_slice,
    known-ne-magic r h,
    frame_header-kind r h,
    h.known,
    frame_header-length r h,
    usize_try_from_fits (length r.body) (omega (arith, h.fits)),
    empty_test r h,
    checked_add_fits (s.cursor + 8) (length r.body) (omega (arith, length-whole)),
    le→ltb (length whole) (s.cursor + 8 + length r.body) (omega (arith, length-whole)),
  )

-- The record that stands at a cursor.
abbrev header_at : Bytes → ℕ → Bytes
header_at journal c = take 8 (drop c journal)

abbrev length_at : Bytes → ℕ → ℕ
length_at journal c = from_be_bytes (0 ∷ 0 ∷ take 6 (drop 2 (header_at journal c)))

abbrev record_at : Bytes → ℕ → Record
record_at journal c = record {
  kind = from_be_bytes (take 2 (header_at journal c));
  body = take (length_at journal c) (drop (c + 8) journal);
}

record Passed (journal : Bytes) (s s' : Scan) : Type 0 where
  header_in : s.cursor + 8 ≤ length journal
  body_in : s.cursor + 8 + length_at journal s.cursor ≤ length journal
  known : is_known_journal_record_type (record_at journal s.cursor).kind ≡ true
  empty_ok :
      length_at journal s.cursor ≡ 0
      → is_zero_sized_journal_record_type (record_at journal s.cursor).kind ≡ true
  counted :
      (count_record
          (s.cursor + 8 + length_at journal s.cursor == length journal)
          (record_at journal s.cursor).kind
          s
        >>= λ c. ok (
            advance
              (s.cursor + 8 + length_at journal s.cursor)
              (record_at journal s.cursor).kind
              c))
      ≡ ok s'

slice_header :
    (journal : Bytes) (c : ℕ)
    → c + 8 ≤ length journal
    → slice journal c (c + 8) ≡ ok (header_at journal c)
slice_header journal c h =
    let n : c + 8 - c ≡ 8 = omega arith in
    slice-eq-ok journal c (c + 8) (omega arith) h ∙ ap (λ k. ok (take k (drop c journal))) n

scan_record-Passed :
    (journal : Bytes) (s s' : Scan) → scan_record journal s ≡ ok s' → Passed journal s s'
unfolding scan_record checked_add usize_try_from
scan_record-Passed journal s s' e = ground (arith, slice_header journal s.cursor)

module _ (journal : Bytes) (c : ℕ) (bytes : AllBytes journal) where
  length-header_at : c + 8 ≤ length journal → length (header_at journal c) ≡ 8
  length-header_at h = omega (arith, length-take 8 (drop c journal), length-drop c journal)

  length-body_at :
      c + 8 + length_at journal c ≤ length journal
      → length (record_at journal c).body ≡ length_at journal c
  length-body_at h =
      omega (
        arith,
        length-take (length_at journal c) (drop (c + 8) journal),
        length-drop (c + 8) journal,
      )

  bytes-header_at : AllBytes (header_at journal c)
  bytes-header_at = All-take IsByte 8 _ (All-drop IsByte c journal bytes)

  -- The six length bytes, which are what follows the two type bytes.
  length_bytes :
      c + 8 ≤ length journal → take 6 (drop 2 (header_at journal c)) ≡ drop 2 (header_at journal c)
  length_bytes h =
      take_all 6 _ (omega (arith, length-drop 2 (header_at journal c), length-header_at h))

  length_at-lt : c + 8 ≤ length journal → length_at journal c < 256 ^ 6
  length_at-lt h =
      rw (from_be_bytes_zeros, length_bytes h)
        (from_be_bytes-lt_at 6 _
          (omega (arith, length-drop 2 (header_at journal c), length-header_at h))
          (All-drop IsByte 2 _ bytes-header_at))

  frame_header-record_at :
      c + 8 + length_at journal c ≤ length journal
      → frame_header (record_at journal c) ≡ header_at journal c
  unfolding frame_header
  frame_header-record_at h =
      let hd = header_at journal c in
      let short : length hd ≡ 8 = length-header_at (omega arith) in
      let kind : to_be_bytes 2 (from_be_bytes (take 2 hd)) ≡ take 2 hd =
        to_be-from_be_at 2 _ (omega (arith, length-take 2 hd))
          (All-take IsByte 2 _ bytes-header_at) in
      let size : to_be_bytes 6 (length_at journal c) ≡ drop 2 hd =
        rw (from_be_bytes_zeros, length_bytes (omega arith))
          (to_be-from_be_at 6 _ (omega (arith, length-drop 2 hd))
            (All-drop IsByte 2 _ bytes-header_at)) in
      ap₂ ◌++◌ kind (ap (to_be_bytes 6) (length-body_at h) ∙ size) ∙ take-append-drop 2 hd

  rest_at :
      c + 8 + length_at journal c ≤ length journal
      → drop c journal
        ≡ frame_header (record_at journal c)
          ++ ((record_at journal c).body ++ drop (c + 8 + length_at journal c) journal)
  rest_at h =
      let hd = header_at journal c in
      let body = take (length_at journal c) (drop (c + 8) journal) in
      sym (take-append-drop 8 (drop c journal))
      ∙ ap₂ ◌++◌ (sym (frame_header-record_at h)) (
          drop-drop c 8 journal
          ∙ sym (take-append-drop (length_at journal c) (drop (c + 8) journal))
          ∙ ap (λ t. body ++ t) (drop-drop (c + 8) (length_at journal c) journal))

-- What a round that succeeds has read.
pub record Accepted (journal : Bytes) (s s' : Scan) (r : Record) : Type 0 where
  pub good : IsRecord r
  pub cursor : s'.cursor ≡ s.cursor + 8 + length r.body
  pub inside : s'.cursor ≤ length journal
  pub read : drop s.cursor journal ≡ frame_header r ++ (r.body ++ drop s'.cursor journal)
  pub counted :
      (count_record (s.cursor + 8 + length r.body == length journal) r.kind s >>= λ c.
      ok (advance (s.cursor + 8 + length r.body) r.kind c))
      ≡ ok s'

advance-cursor :
    (m : Result Scan) (n t : ℕ) (s' : Scan)
    → (m >>= λ c. ok (advance n t c)) ≡ ok s'
    → s'.cursor ≡ n
advance-cursor m n t s' e = ground arith

pub scan_record-Accepted :
    (journal : Bytes) (s s' : Scan)
    → AllBytes journal
    → scan_record journal s ≡ ok s'
    → (r : Record) × Accepted journal s s' r
scan_record-Accepted journal s s' bytes e =
    let p = scan_record-Passed journal s s' e in
    let n = length-body_at journal s.cursor bytes p.body_in in
    let at = advance-cursor _ _ _ s' p.counted in
    (
      record_at journal s.cursor,
      record {
        good = record {
          known = p.known;
          fits = rw n (length_at-lt journal s.cursor bytes p.header_in);
          empty_ok = λ z. p.empty_ok (sym n ∙ z);
        };
        cursor = omega (arith, at, n);
        inside = omega (arith, at, p.body_in);
        read = rw at (rest_at journal s.cursor bytes p.body_in);
        counted = rw n p.counted;
      },
    )

-- A round that succeeds moves the cursor past a header, and stays inside.
pub scan_record_moves :
    (journal : Bytes) (s s' : Scan)
    → scan_record journal s ≡ ok s'
    → (s.cursor + 8 ≤ s'.cursor) × (s'.cursor ≤ length journal)
scan_record_moves journal s s' e =
    let p = scan_record-Passed journal s s' e in
    let at = advance-cursor _ _ _ s' p.counted in (omega (arith, at), omega (arith, at, p.body_in))

-- No round panics: the header is sliced only where it is inside.
pub scan_record-Returns : (journal : Bytes) (s : Scan) → Returns (scan_record journal s)
unfolding scan_record count_record checked_add usize_try_from
scan_record-Returns journal s = ground (arith, slice_header journal s.cursor)
