-- ===== src/Checkpoint/Journal.antt =====
-- src/checkpoint.rs: `scan_journal`, which checks the record framing and the record life cycle of a
-- captured journal.
pub mod Framing
pub mod Rounds
pub mod Loop
pub mod Lifecycle
pub mod Accepts
use wasm_runtime.Base.{
  ℕ, zero, suc, ◌+◌, ◌≡◌, Bool, true, false, not, ◌&&◌, ◌||◌, Option, none, some, List, [], ◌∷◌,
  Bytes, length, take, drop, ltb, leb, ◌==◌, if◌then◌else◌, equal,
}
use wasm_runtime.Base.Words.{from_be_bytes}
use wasm_runtime.Failure.{
  Message, text, number, Error, checkpoint, Result, ok, err, stuck, ◌>>=◌, ◌>>◌, reject, ok_or,
  checked_add,
}
use wasm_runtime.Slices.{slice, usize_try_from}

abbrev pub journal_magic : Bytes
journal_magic = 0x31 ∷ 0x0d ∷ 0x6d ∷ 0xd0 ∷ 0x27 ∷ 0x36 ∷ 0x29 ∷ 0x79 ∷ []

abbrev pub journal_snapshot_v1 : ℕ
journal_snapshot_v1 = 59

unfoldable pub is_known_journal_record_type : ℕ → Bool
is_known_journal_record_type t = (leb 1 t && leb t 7) || (leb 9 t && leb t 64)

unfoldable pub is_zero_sized_journal_record_type : ℕ → Bool
is_zero_sized_journal_record_type t = t == 35 || t == 37 || t == 38 || t == 41 || t == 60

-- The local variables of the loop. The counters are at most the journal's length, so their
-- increments cannot wrap.
pub record Scan : Type 0 where
  pub cursor : ℕ
  pub final_record : Option ℕ
  pub record_count : ℕ
  pub init_module_records : ℕ
  pub set_thread_records : ℕ
  pub snapshot_records : ℕ

abbrev pub scan_start : Scan
scan_start = record {
  cursor = 8;
  final_record = none;
  record_count = 0;
  init_module_records = 0;
  set_thread_records = 0;
  snapshot_records = 0;
}

-- The `if` ladder over the record types; the flag is `cursor == journal.len()`.
unfoldable pub count_record : Bool → ℕ → Scan → Result Scan
count_record at_end t s =
    if t == 1
    then (reject (not (s.record_count == 0) || not (s.init_module_records + 1 == 1)) (
          checkpoint (text "checkpoint journal has an invalid module initialization sequence" ∷ []))
        >> ok (record s { init_module_records = s.init_module_records + 1 }))
    else if t == 3
    then ok (record s { set_thread_records = s.set_thread_records + 1 })
    else if t == journal_snapshot_v1
    then (reject (not at_end)
          (checkpoint (text "checkpoint journal contains records after its snapshot" ∷ []))
        >> ok (record s { snapshot_records = s.snapshot_records + 1 }))
    else ok s

-- The end of a round.
abbrev pub advance : ℕ → ℕ → Scan → Scan
advance cursor t s = record s {
  cursor = cursor;
  final_record = some t;
  record_count = s.record_count + 1;
}

-- One round of the loop.
unfoldable pub scan_record : Bytes → Scan → Result Scan
scan_record journal s = do
  header_end ←
      ok_or (checked_add s.cursor 8) (checkpoint (text "checkpoint journal length overflows" ∷ []))
  reject (ltb (length journal) header_end)
      (checkpoint (text "checkpoint journal record header is truncated" ∷ []))
  header ← slice journal s.cursor header_end
  reject (equal header journal_magic)
      (checkpoint (text "checkpoint journal contains a repeated magic marker" ∷ []))
  let record_type = from_be_bytes (take 2 header)
  reject (not (is_known_journal_record_type record_type)) (
      checkpoint
        (text "checkpoint journal record type " ∷ number record_type ∷ text " is unsupported" ∷ []))
  record_len ←
      ok_or (usize_try_from (from_be_bytes (0 ∷ 0 ∷ take 6 (drop 2 header))))
        (checkpoint (text "checkpoint journal record length overflows usize" ∷ []))
  reject (record_len == 0 && not (is_zero_sized_journal_record_type record_type))
      (checkpoint (text "checkpoint journal contains an invalid empty record" ∷ []))
  cursor ←
      ok_or (checked_add header_end record_len)
        (checkpoint (text "checkpoint journal length overflows" ∷ []))
  reject (ltb (length journal) cursor)
      (checkpoint (text "checkpoint journal record is truncated" ∷ []))
  counted ← count_record (cursor == length journal) record_type s
  ok (advance cursor record_type counted)

unfoldable pub scan_loop : ℕ → Bytes → Scan → Result Scan
scan_loop zero journal s = stuck
scan_loop (suc fuel) journal s = elim (ltb s.cursor (length journal)) [
  | true ↦ scan_record journal s >>= λ s'. scan_loop fuel journal s'
  | false ↦ ok s
]

abbrev pub is_snapshot : Option ℕ → Bool
is_snapshot none = false
is_snapshot (some t) = t == journal_snapshot_v1

-- The check behind the loop.
unfoldable pub check_lifecycle : Scan → Result (Unit {0})
check_lifecycle s =
    reject
      (not (s.init_module_records == 1)
        || s.set_thread_records == 0
        || not (s.snapshot_records == 1)
        || not (is_snapshot s.final_record))
      (checkpoint (text "checkpoint journal lifecycle is incomplete" ∷ []))

-- A round takes at least the eight bytes of a header, so the fuel is never used up.
unfoldable pub scan_journal : Bytes → Result (Unit {0})
unfolding scan_loop scan_record count_record check_lifecycle
scan_journal journal = do
  reject (ltb (length journal) 8 || not (equal (take 8 journal) journal_magic))
      (checkpoint (text "checkpoint journal magic is invalid" ∷ []))
  s ← scan_loop (suc (length journal)) journal scan_start
  check_lifecycle s
