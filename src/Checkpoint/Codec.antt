-- ===== src/Checkpoint/Codec.antt =====
-- src/checkpoint.rs: the codec's configuration, its limits, and the fixed header of an artifact.
pub mod Header
use wasm_runtime.Base.{
  ℕ, ◌*◌, ◌-◌, not, ◌||◌, Option, none, some, [], ◌∷◌, ◌++◌, Bytes, codes, take, drop, ltb, ◌==◌,
  equal,
}
use wasm_runtime.Base.Words.{to_be_bytes, from_be_bytes}
use wasm_runtime.Failure.{
  text, number, checkpoint, configuration, Result, ok, ◌>>=◌, ◌>>◌, reject, ok_or, checked_add,
  usize_end,
}
use wasm_runtime.Slices.{usize_try_from}

-- "RTWCPKT\0"
abbrev pub checkpoint_magic : Bytes
checkpoint_magic = b'R' ∷ b'T' ∷ b'W' ∷ b'C' ∷ b'P' ∷ b'K' ∷ b'T' ∷ 0 ∷ []

abbrev pub checkpoint_format_version : ℕ
checkpoint_format_version = 2

abbrev pub checkpoint_domain : Bytes
checkpoint_domain = codes "runtrue-wasm-runtime.wasix-checkpoint.v2" ++ (0 ∷ [])

abbrev pub checkpoint_header_bytes : ℕ
checkpoint_header_bytes = 22

abbrev pub checkpoint_tag_bytes : ℕ
checkpoint_tag_bytes = 32

abbrev pub max_checkpoint_metadata_bytes : ℕ
max_checkpoint_metadata_bytes = 16384

-- The key is `CheckpointAuthenticationKey`, 32 secret bytes.
pub record WasixCheckpointCodec : Type 0 where
  pub authentication_key : Bytes
  pub max_journal_bytes : ℕ

-- `WasixCheckpointCodec::new`
unfoldable pub new : Bytes → WasixCheckpointCodec
new authentication_key = record {
  authentication_key = authentication_key;
  max_journal_bytes = 512 * 1024 * 1024;
}

unfoldable pub with_max_journal_bytes : WasixCheckpointCodec → ℕ → WasixCheckpointCodec
with_max_journal_bytes codec max_journal_bytes = record codec {
  max_journal_bytes = max_journal_bytes;
}

pub record CheckpointArtifactLayout : Type 0 where
  pub metadata_end : ℕ
  pub authenticated_len : ℕ
  pub artifact_len : ℕ

unfoldable pub validate_limit : WasixCheckpointCodec → Result (Unit {0})
validate_limit codec =
    reject (codec.max_journal_bytes == 0)
      (configuration (text "checkpoint journal limit must be positive" ∷ []))

unfoldable pub validate_journal_length : WasixCheckpointCodec → ℕ → Result (Unit {0})
validate_journal_length codec n = do
  reject (n == 0) (checkpoint (text "checkpoint journal must not be empty" ∷ []))
  reject (ltb codec.max_journal_bytes n)
      (checkpoint (text "checkpoint journal exceeds the configured limit" ∷ []))

abbrev overflows {ℓ} : {A : Type ℓ} → Option A → Result A
overflows o = ok_or o (checkpoint (text "checkpoint length overflows usize" ∷ []))

unfoldable pub maximum_artifact_bytes : WasixCheckpointCodec → Result ℕ
maximum_artifact_bytes codec = do
  a ← overflows (checked_add checkpoint_header_bytes max_checkpoint_metadata_bytes)
  b ← overflows (checked_add a codec.max_journal_bytes)
  overflows (checked_add b checkpoint_tag_bytes)

-- `usize::try_from(n).unwrap_or(usize::MAX)`
abbrev usize_or_max : ℕ → ℕ
usize_or_max n = elim (usize_try_from n) [ none ↦ usize_end - 1 | some v ↦ v ]

-- The header is an array of `checkpoint_header_bytes` bytes.
unfoldable pub validate_header : WasixCheckpointCodec → Bytes → Result CheckpointArtifactLayout
validate_header codec header = do
  reject (not (equal (take 8 header) checkpoint_magic))
      (checkpoint (text "checkpoint artifact magic is invalid" ∷ []))
  let version = from_be_bytes (take 2 (drop 8 header))
  reject (not (version == checkpoint_format_version))
      (checkpoint (text "checkpoint format " ∷ number version ∷ text " is unsupported" ∷ []))
  let metadata_len = usize_or_max (from_be_bytes (take 4 (drop 10 header)))
  reject (metadata_len == 0 || ltb max_checkpoint_metadata_bytes metadata_len)
      (checkpoint (text "checkpoint metadata length is invalid" ∷ []))
  journal_len ←
      ok_or (usize_try_from (from_be_bytes (take 8 (drop 14 header))))
        (checkpoint (text "checkpoint journal length overflows usize" ∷ []))
  validate_journal_length codec journal_len
  metadata_end ← overflows (checked_add checkpoint_header_bytes metadata_len)
  authenticated_len ← overflows (checked_add metadata_end journal_len)
  artifact_len ← overflows (checked_add authenticated_len checkpoint_tag_bytes)
  ok (record {
    metadata_end = metadata_end;
    authenticated_len = authenticated_len;
    artifact_len = artifact_len;
  })

-- The header that `prepare_seal` fills in, field by field.
unfoldable pub header_bytes : ℕ → ℕ → Bytes
header_bytes metadata_len journal_len =
    checkpoint_magic
    ++ (to_be_bytes 2 checkpoint_format_version
        ++ (to_be_bytes 4 metadata_len ++ to_be_bytes 8 journal_len))
