-- ===== src/Checkpoint/Codec/Header.antt =====
-- src/checkpoint.rs: the fixed header, as `prepare_seal` writes it and `validate_header` reads it.
use mathlib.Core.Path.{ap₂}
use wasm_runtime.Base.{
  ℕ, ◌+◌, ◌^◌, ◌≤◌, ◌<◌, ◌≡◌, sym, ap, ◌∙◌, true, ◌++◌, Bytes, length, length-append, length-take,
  length-drop, take, drop, take-append_at, drop-append_at, take_all, take-append-drop, drop-drop,
  All-take, All-drop, arith, equal, equal→eq, equal_refl,
}
use wasm_runtime.Base.Words.{
  to_be_bytes, from_be_bytes, from_be-to_be, to_be-from_be_at, length-to_be_bytes, AllBytes, IsByte,
  AllBytes-to_be_bytes, AllBytes-append,
}
use wasm_runtime.Failure.{Returns, ok, usize_end, checked_add}
use wasm_runtime.Slices.{usize_try_from}
use wasm_runtime.Checkpoint.Codec.{
  WasixCheckpointCodec, CheckpointArtifactLayout, checkpoint_magic, validate_header, header_bytes,
  validate_journal_length,
}

-- The sizes that a codec takes.
pub record Fits (codec : WasixCheckpointCodec) (m n : ℕ) : Type 0 where
  pub metadata_nonempty : 0 < m
  pub metadata_bounded : m ≤ 16384
  pub journal_nonempty : 0 < n
  pub journal_bounded : n ≤ codec.max_journal_bytes
  pub no_wrap : 22 + m + n + 32 < usize_end

abbrev pub layout_of : ℕ → ℕ → CheckpointArtifactLayout
layout_of m n = record {
  metadata_end = 22 + m;
  authenticated_len = 22 + m + n;
  artifact_len = 22 + m + n + 32;
}

pub length-header_bytes : (m n : ℕ) → length (header_bytes m n) ≡ 22
unfolding header_bytes
length-header_bytes m n = omega (
  arith,
  length-append (to_be_bytes 2 2) (to_be_bytes 4 m ++ to_be_bytes 8 n),
  length-append (to_be_bytes 4 m) (to_be_bytes 8 n),
  length-to_be_bytes 2 2,
  length-to_be_bytes 4 m,
  length-to_be_bytes 8 n,
)

pub AllBytes-header_bytes : (m n : ℕ) → AllBytes (header_bytes m n)
unfolding header_bytes
AllBytes-header_bytes m n = AllBytes-append checkpoint_magic _ (omega arith) (
    AllBytes-append (to_be_bytes 2 2) _ (AllBytes-to_be_bytes 2 2)
      (AllBytes-append (to_be_bytes 4 m) _ (AllBytes-to_be_bytes 4 m) (AllBytes-to_be_bytes 8 n)))

module _ (m n : ℕ) where
  abbrev sizes : Bytes
  sizes = to_be_bytes 4 m ++ to_be_bytes 8 n

  version_field : from_be_bytes (take 2 (drop 8 (header_bytes m n))) ≡ 2
  unfolding header_bytes
  version_field =
      rw (take-append_at 2 (to_be_bytes 2 2) sizes (sym (length-to_be_bytes 2 2)))
        (from_be-to_be 2 2 (omega arith))

  metadata_field : m < 256 ^ 4 → from_be_bytes (take 4 (drop 10 (header_bytes m n))) ≡ m
  unfolding header_bytes
  metadata_field h =
      rw
        (
          drop-append_at 2 (to_be_bytes 2 2) sizes (sym (length-to_be_bytes 2 2)),
          take-append_at 4 (to_be_bytes 4 m) (to_be_bytes 8 n) (sym (length-to_be_bytes 4 m)),
        )
        (from_be-to_be 4 m h)

  journal_tail : drop 14 (header_bytes m n) ≡ to_be_bytes 8 n
  unfolding header_bytes
  journal_tail =
      sym (drop-drop 2 4 (to_be_bytes 2 2 ++ sizes))
      ∙ ap (drop 4) (drop-append_at 2 (to_be_bytes 2 2) sizes (sym (length-to_be_bytes 2 2)))
      ∙ drop-append_at 4 (to_be_bytes 4 m) (to_be_bytes 8 n) (sym (length-to_be_bytes 4 m))

  journal_field : n < 256 ^ 8 → from_be_bytes (take 8 (drop 14 (header_bytes m n))) ≡ n
  journal_field h =
      rw (journal_tail, take_all 8 (to_be_bytes 8 n) (omega (arith, length-to_be_bytes 8 n)))
        (from_be-to_be 8 n h)

  magic_field : equal (take 8 (header_bytes m n)) checkpoint_magic ≡ true
  unfolding header_bytes
  magic_field = equal_refl checkpoint_magic

-- The header that sealing writes is read back as the layout of its sizes.
pub validate_header-header_bytes :
    (codec : WasixCheckpointCodec) (m n : ℕ)
    → Fits codec m n
    → validate_header codec (header_bytes m n) ≡ ok (layout_of m n)
unfolding validate_header validate_journal_length usize_try_from checked_add
validate_header-header_bytes codec m n f =
    rw
      (
        magic_field m n,
        version_field m n,
        metadata_field m n (omega (arith, f.metadata_bounded)),
        journal_field m n (omega (arith, f.no_wrap)),
      )
      (ground arith)

record Read (codec : WasixCheckpointCodec) (h : Bytes) (layout : CheckpointArtifactLayout)
    : Type 0 where
  magic : take 8 h ≡ checkpoint_magic
  version : from_be_bytes (take 2 (drop 8 h)) ≡ 2
  fits : Fits codec (from_be_bytes (take 4 (drop 10 h))) (from_be_bytes (take 8 (drop 14 h)))
  layout_eq :
      layout ≡ layout_of (from_be_bytes (take 4 (drop 10 h))) (from_be_bytes (take 8 (drop 14 h)))

validate_header-Read :
    (codec : WasixCheckpointCodec) (h : Bytes) (layout : CheckpointArtifactLayout)
    → validate_header codec h ≡ ok layout
    → Read codec h layout
unfolding validate_header validate_journal_length usize_try_from checked_add
validate_header-Read codec h layout e = ground (arith, equal→eq (take 8 h) checkpoint_magic)

-- The layout that is read is the one of two sizes that fit.
pub validate_header-layout_of :
    (codec : WasixCheckpointCodec) (h : Bytes) (layout : CheckpointArtifactLayout)
    → validate_header codec h ≡ ok layout
    → (m : ℕ) × (n : ℕ) × Fits codec m n × (layout ≡ layout_of m n)
validate_header-layout_of codec h layout e =
    let r = validate_header-Read codec h layout e in
    (from_be_bytes (take 4 (drop 10 h)), from_be_bytes (take 8 (drop 14 h)), r.fits, r.layout_eq)

pub validate_header-Returns :
    (codec : WasixCheckpointCodec) (h : Bytes) → Returns (validate_header codec h)
unfolding validate_header validate_journal_length
validate_header-Returns codec h = ground arith

split_header :
    (h : Bytes) → h ≡ take 8 h ++ (take 2 (drop 8 h) ++ (take 4 (drop 10 h) ++ drop 14 h))
split_header h =
    sym (take-append-drop 8 h)
    ∙ ap (λ t. take 8 h ++ t)
        (sym (take-append-drop 2 (drop 8 h))
          ∙ ap (λ t. take 2 (drop 8 h) ++ t)
              (drop-drop 8 2 h
                ∙ sym (take-append-drop 4 (drop 10 h))
                ∙ ap (λ t. take 4 (drop 10 h) ++ t) (drop-drop 10 4 h)))

-- `k` bytes from `i` on are the encoding of the number that they spell.
field_at :
    (h : Bytes) (k i : ℕ)
    → AllBytes h
    → i + k ≤ length h
    → take k (drop i h) ≡ to_be_bytes k (from_be_bytes (take k (drop i h)))
field_at h k i bytes fits = sym (
    to_be-from_be_at k (take k (drop i h))
      (omega (arith, length-take k (drop i h), length-drop i h))
      (All-take IsByte k _ (All-drop IsByte i h bytes)))

-- A header that is accepted is the one that sealing writes for its two sizes.
pub validate_header_sound :
    (codec : WasixCheckpointCodec) (h : Bytes) (layout : CheckpointArtifactLayout)
    → AllBytes h
    → length h ≡ 22
    → validate_header codec h ≡ ok layout
    → (m : ℕ) × (n : ℕ) × (h ≡ header_bytes m n) × Fits codec m n × (layout ≡ layout_of m n)
unfolding header_bytes
validate_header_sound codec h layout bytes size e =
    let r = validate_header-Read codec h layout e in
    let version = field_at h 2 8 bytes (omega arith) ∙ ap (to_be_bytes 2) r.version in
    let tail = sym (take_all 8 (drop 14 h) (omega (arith, length-drop 14 h))) in
    (
      from_be_bytes (take 4 (drop 10 h)),
      from_be_bytes (take 8 (drop 14 h)),
      split_header h
          ∙ ap₂ ◌++◌ r.magic (
              ap₂ ◌++◌ version (
                ap₂ ◌++◌ (field_at h 4 10 bytes (omega arith))
                  (tail ∙ field_at h 8 14 bytes (omega arith)))),
      r.fits,
      r.layout_eq,
    )
