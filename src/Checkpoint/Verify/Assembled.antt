-- ===== src/Checkpoint/Verify/Assembled.antt =====
-- src/checkpoint.rs: the shape of a genuine artifact: header, metadata, journal, and the tag over all three.
use wasm_runtime.Base.{
  ℕ, ◌+◌, ◌≡◌, refl, sym, ap, ◌∙◌, [], ◌++◌, append_assoc, Bytes, length, length-append, take,
  take-append_at, arith,
}
use wasm_runtime.Failure.{ok}
use wasm_runtime.Slices.{slice, slice-append, slice-append_last}
use wasm_runtime.Checkpoint.Metadata.{External}
use wasm_runtime.Checkpoint.Codec.{WasixCheckpointCodec, header_bytes, checkpoint_domain}
use wasm_runtime.Checkpoint.Codec.Header.{length-header_bytes}

module _ (x : External) (codec : WasixCheckpointCodec) (metadata journal : Bytes) where
  -- What the tag covers, behind the domain.
  abbrev pub covered : Bytes
  covered = header_bytes (length metadata) (length journal) ++ (metadata ++ journal)

  abbrev pub tag : Bytes
  tag = x.hmac_sha256 codec.authentication_key (checkpoint_domain ++ covered)

  unfoldable pub assemble : Bytes
  assemble = header_bytes (length metadata) (length journal) ++ (metadata ++ (journal ++ tag))

  abbrev metadata_stop : ℕ
  metadata_stop = 22 + length metadata

  abbrev journal_stop : ℕ
  journal_stop = 22 + length metadata + length journal

  pub length-assemble : length assemble ≡ 22 + length metadata + length journal + length tag
  unfolding assemble
  length-assemble = omega (
    arith,
    length-append (header_bytes (length metadata) (length journal)) (metadata ++ (journal ++ tag)),
    length-append metadata (journal ++ tag),
    length-append journal tag,
    length-header_bytes (length metadata) (length journal),
  )

  pub length-covered : length covered ≡ journal_stop
  length-covered = omega (
    arith,
    length-append (header_bytes (length metadata) (length journal)) (metadata ++ journal),
    length-append metadata journal,
    length-header_bytes (length metadata) (length journal),
  )

  pub header_part : take 22 assemble ≡ header_bytes (length metadata) (length journal)
  unfolding assemble
  header_part =
      take-append_at 22 (header_bytes (length metadata) (length journal)) _
        (sym (length-header_bytes (length metadata) (length journal)))

  pub metadata_part : slice assemble 22 metadata_stop ≡ ok metadata
  unfolding assemble
  metadata_part =
      slice-append (header_bytes (length metadata) (length journal)) metadata (journal ++ tag) 22
        metadata_stop (omega (arith, length-header_bytes (length metadata) (length journal)))
        (omega (arith, length-header_bytes (length metadata) (length journal)))

  split_behind_metadata :
      assemble ≡ (header_bytes (length metadata) (length journal) ++ metadata) ++ (journal ++ tag)
  unfolding assemble
  split_behind_metadata =
      sym (append_assoc (header_bytes (length metadata) (length journal)) metadata _)

  length-behind :
      length (header_bytes (length metadata) (length journal) ++ metadata) ≡ metadata_stop
  length-behind = omega (
    arith,
    length-append (header_bytes (length metadata) (length journal)) metadata,
    length-header_bytes (length metadata) (length journal),
  )

  pub journal_part : slice assemble metadata_stop journal_stop ≡ ok journal
  journal_part = rw split_behind_metadata (
      slice-append (header_bytes (length metadata) (length journal) ++ metadata) journal tag
        metadata_stop journal_stop (sym length-behind) (omega (arith, length-behind)))

  pub split_covered :
      (rest : Bytes)
      → header_bytes (length metadata) (length journal) ++ (metadata ++ (journal ++ rest))
        ≡ covered ++ rest
  split_covered rest =
      let h = header_bytes (length metadata) (length journal) in
      ap (λ t. h ++ t) (sym (append_assoc metadata journal rest))
      ∙ sym (append_assoc h (metadata ++ journal) rest)

  split_behind_journal : assemble ≡ covered ++ tag
  unfolding assemble
  split_behind_journal = split_covered tag

  pub covered_part : slice assemble 0 journal_stop ≡ ok covered
  covered_part =
      rw split_behind_journal
        (slice-append [] covered tag 0 journal_stop refl (omega (arith, length-covered)))

  pub tag_part : slice assemble journal_stop (length assemble) ≡ ok tag
  tag_part = rw split_behind_journal (
      slice-append_last covered tag journal_stop _ (sym length-covered)
        (omega (arith, length-append covered tag)))
