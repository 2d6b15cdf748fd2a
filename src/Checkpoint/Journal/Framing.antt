-- ===== src/Checkpoint/Journal/Framing.antt =====
-- src/checkpoint.rs: journal records and their framing, and the loop of `scan_journal` read over records.
use wasm_runtime.Base.{
  ℕ, ◌+◌, ◌^◌, ◌<◌, ◌≡◌, refl, sym, ap, ◌∙◌, inl, inr, Bool, true, false, List, [], ◌∷◌, ◌++◌,
  arith, Bytes, length, length-append, take, drop, take-append_at, drop-append_at, take_all, equal,
  equal→eq, Bool-cases,
}
use wasm_runtime.Base.Words.{
  from_be_bytes_zeros, to_be_bytes, from_be_bytes, from_be-to_be, length-to_be_bytes,
}
use wasm_runtime.Failure.{Result, ok, ◌>>=◌}
use wasm_runtime.Checkpoint.Journal.{
  Scan, journal_magic, is_known_journal_record_type, is_zero_sized_journal_record_type,
  count_record, advance,
}

-- A record of a journal: its type and its body.
pub record Record : Type 0 where
  pub kind : ℕ
  pub body : Bytes

-- Two bytes of type, six bytes of length, and the body.
unfoldable pub frame_header : Record → Bytes
frame_header r = to_be_bytes 2 r.kind ++ to_be_bytes 6 (length r.body)

unfoldable pub frames : List Record → Bytes
frames [] = []
frames (r ∷ rs) = frame_header r ++ (r.body ++ frames rs)

-- The type is a known one, the length fits six bytes, and only the listed types may be empty.
pub record IsRecord (r : Record) : Type 0 where
  pub known : is_known_journal_record_type r.kind ≡ true
  pub fits : length r.body < 256 ^ 6
  pub empty_ok : length r.body ≡ 0 → is_zero_sized_journal_record_type r.kind ≡ true

abbrev pub is_nil {ℓ} : {A : Type ℓ} → List A → Bool
is_nil [] = true
is_nil (x ∷ xs) = false

-- The loop over the records, without the bytes.
unfoldable pub tally : List Record → Scan → Result Scan
tally [] s = ok s
tally (r ∷ rs) s = do
  counted ← count_record (is_nil rs) r.kind s
  tally rs (advance (s.cursor + 8 + length r.body) r.kind counted)

pub length-frame_header : (r : Record) → length (frame_header r) ≡ 8
unfolding frame_header
length-frame_header r = omega (
  arith,
  length-append (to_be_bytes 2 r.kind) (to_be_bytes 6 (length r.body)),
  length-to_be_bytes 2 r.kind,
  length-to_be_bytes 6 (length r.body),
)

known-lt : (t : ℕ) → is_known_journal_record_type t ≡ true → t < 65
unfolding is_known_journal_record_type
known-lt t h = ground arith

pub frame_header-kind : (r : Record) → IsRecord r → from_be_bytes (take 2 (frame_header r)) ≡ r.kind
unfolding frame_header
frame_header-kind r h =
    rw
      (take-append_at 2 (to_be_bytes 2 r.kind) (to_be_bytes 6 (length r.body))
        (sym (length-to_be_bytes 2 r.kind)))
      (from_be-to_be 2 r.kind (omega (arith, known-lt r.kind h.known)))

take_all6 : (v : ℕ) → take 6 (to_be_bytes 6 v) ≡ to_be_bytes 6 v
take_all6 v = take_all 6 (to_be_bytes 6 v) (omega (arith, length-to_be_bytes 6 v))

pub frame_header-length :
    (r : Record)
    → IsRecord r
    → from_be_bytes (0 ∷ 0 ∷ take 6 (drop 2 (frame_header r))) ≡ length r.body
unfolding frame_header
frame_header-length r h =
    let d =
      drop-append_at 2 (to_be_bytes 2 r.kind) (to_be_bytes 6 (length r.body))
        (sym (length-to_be_bytes 2 r.kind)) in
    from_be_bytes_zeros _ ∙ rw (d, take_all6) (from_be-to_be 6 (length r.body) h.fits)

-- A header that begins with a known type is not the magic marker.
pub known-ne-magic : (r : Record) → IsRecord r → equal (frame_header r) journal_magic ≡ false
unfolding from_be_bytes
known-ne-magic r h = elim (Bool-cases (equal (frame_header r) journal_magic)) [
  | inl e ↦
      let p = ap (λ b. from_be_bytes (take 2 b)) (equal→eq (frame_header r) journal_magic e) in
      let q = sym (frame_header-kind r h) ∙ p in
      absurd (omega (arith, q, known-lt r.kind h.known, magic_kind))
  | inr e ↦ e
]
  where
    magic_kind : from_be_bytes (0x31 ∷ 0x0d ∷ []) ≡ 12557
    magic_kind = refl
