-- ===== src/Checkpoint/Verify/Genuine.antt =====
-- src/checkpoint.rs: genuine artifacts, and `verify_parts` on them.
use mathlib.Core.Path.{ap₂, subst}
use wasm_runtime.Base.{
  ℕ, ◌+◌, ◌-◌, ◌<◌, ◌≡◌, sym, ap, ◌∙◌, ◌++◌, Bytes, length, length-take, take, drop, All-take,
  arith, equal_refl, ==_iff, le→ltb,
}
use wasm_runtime.Base.Words.{AllBytes, IsByte}
use wasm_runtime.Failure.{checked_add, ok-injective, usize_end, ok, usize_end, checked_add}
use wasm_runtime.Slices.{slice-inversion}
use wasm_runtime.Checkpoint.Binding.{WasixCheckpointBinding, validate}
use wasm_runtime.Checkpoint.Metadata.{
  External, CheckpointMetadata, parsed, IsDocumented, validate_metadata, digest_text,
}
use wasm_runtime.Checkpoint.Journal.{scan_journal}
use wasm_runtime.Checkpoint.Codec.{
  WasixCheckpointCodec, CheckpointArtifactLayout, header_bytes, checkpoint_domain, validate_limit,
  maximum_artifact_bytes,
}
use wasm_runtime.Checkpoint.Codec.Header.{
  Fits, layout_of, validate_header_sound, validate_header-header_bytes,
}
use wasm_runtime.Checkpoint.Seal.{update, authentication_state}
use wasm_runtime.Checkpoint.Verify.{
  VerifiedCheckpointParts, verify_parts, verify_tag, verify_contents, authentication_tag,
}
use wasm_runtime.Checkpoint.Verify.Assembled.{
  tag, assemble, length-assemble, header_part, metadata_part, journal_part, covered_part, tag_part,
}
use wasm_runtime.Checkpoint.Verify.Cut.{
  encoded_of, journal_of, length-encoded, length-journal, authenticated, reassemble,
}
use wasm_runtime.Checkpoint.Verify.Stages.{
  parts_of, ContentsPassed, verify_tag-passed, verify_parts-passed, parsed_or-eq-ok,
  not-equal-false, get_prefix-some,
}

minus_front : (a b : ℕ) → a + b - a ≡ b
minus_front a b = omega arith

module _ (x : External) (codec : WasixCheckpointCodec) (expected : WasixCheckpointBinding) where
  -- Metadata and journal of an artifact that passes every check, and the value returned for it.
  pub record Genuine (artifact : Bytes) (parts : VerifiedCheckpointParts) : Type 0 where
    pub encoded : Bytes
    pub journal : Bytes
    pub metadata : CheckpointMetadata
    pub assembled : artifact ≡ assemble x codec encoded journal
    pub fits : Fits codec (length encoded) (length journal)
    pub reads : x.parse_metadata encoded ≡ parsed metadata
    pub current : validate_metadata x metadata expected ≡ ok tt
    pub digest : metadata.journal_sha256 ≡ digest_text x journal
    pub lifecycle : scan_journal journal ≡ ok tt
    pub result :
        parts
        ≡ parts_of x codec expected artifact metadata
            (22 + length encoded)
            (22 + length encoded + length journal)

  -- A successful verification, cut at the layout that it read.
  module _ (artifact : Bytes) (m n : ℕ) (parts : VerifiedCheckpointParts) (fits : Fits codec m n)
      (size : length artifact ≡ 22 + m + n + 32) (head : take 22 artifact ≡ header_bytes m n)
      (tagged : drop (22 + m + n) artifact
        ≡ x.hmac_sha256 codec.authentication_key (checkpoint_domain ++ take (22 + m + n) artifact))
      (c : ContentsPassed x codec expected artifact (layout_of m n) parts) where
    encoded_is : c.encoded ≡ encoded_of x codec artifact m n size head
    encoded_is =
        (slice-inversion artifact 22 (22 + m) c.encoded_got).2
        ∙ ap (λ k. take k (drop 22 artifact)) (minus_front 22 m)

    journal_is : c.journal ≡ journal_of x codec artifact m n size head
    journal_is =
        (slice-inversion artifact (22 + m) (22 + m + n) c.journal_got).2
        ∙ ap (λ k. take k (drop (22 + m) artifact)) (minus_front (22 + m) n)

    assembled_is : artifact ≡ assemble x codec c.encoded c.journal
    assembled_is =
        reassemble x codec artifact m n size head (
          tagged
          ∙ ap (λ b. x.hmac_sha256 codec.authentication_key (checkpoint_domain ++ b))
              (authenticated x codec artifact m n size head))
        ∙ ap₂ (assemble x codec) (sym encoded_is) (sym journal_is)

    length_encoded_is : length c.encoded ≡ m
    length_encoded_is = ap length encoded_is ∙ length-encoded x codec artifact m n size head

    length_journal_is : length c.journal ≡ n
    length_journal_is = ap length journal_is ∙ length-journal x codec artifact m n size head

    genuine : Genuine artifact parts
    genuine = record {
      encoded = c.encoded;
      journal = c.journal;
      metadata = c.metadata;
      assembled = assembled_is;
      fits = rw (length_encoded_is, length_journal_is) fits;
      reads = parsed_or-eq-ok x codec expected _ c.reads;
      current = c.current;
      digest = not-equal-false x codec expected c.metadata.journal_sha256 _ c.digest;
      lifecycle = c.lifecycle;
      result = rw (length_encoded_is, length_journal_is) (sym (ok-injective c.result));
    }

  pub verify_parts_sound :
      (artifact : Bytes) (parts : VerifiedCheckpointParts)
      → AllBytes artifact
      → verify_parts x codec expected artifact ≡ ok parts
      → Genuine artifact parts
  verify_parts_sound artifact parts bytes e =
      let (layout, long, header_ok, tag_ok, c) =
        verify_parts-passed x codec expected artifact parts e in
      let (m, n, head, fits, same) =
        validate_header_sound codec (take 22 artifact) layout (All-take IsByte 22 artifact bytes)
          (omega (arith, length-take 22 artifact)) header_ok in
      let (size, tagged) =
        verify_tag-passed x codec expected artifact (layout_of m n)
          (subst (λ l. verify_tag x codec artifact l ≡ ok tt) same tag_ok) in
      genuine artifact m n parts fits size head tagged
        (subst (λ l. ContentsPassed x codec expected artifact l parts) same c)

  -- The configured limits leave room in `usize` for the largest artifact.
  abbrev pub HasRoom : Type 0
  HasRoom = 22 + 16384 + codec.max_journal_bytes + 32 < usize_end

  module _ (d : IsDocumented x) (artifact : Bytes) (parts : VerifiedCheckpointParts)
      (g : Genuine artifact parts) where
    abbrev whole : Bytes
    whole = assemble x codec g.encoded g.journal

    abbrev layout : CheckpointArtifactLayout
    layout = layout_of (length g.encoded) (length g.journal)

    length-tag : length (tag x codec g.encoded g.journal) ≡ 32
    length-tag = d.length-hmac_sha256 codec.authentication_key _

    length-whole : length whole ≡ 22 + length g.encoded + length g.journal + 32
    length-whole = omega (arith, length-assemble x codec g.encoded g.journal, length-tag)

    tag_accepted : verify_tag x codec whole layout ≡ ok tt
    unfolding verify_tag authentication_tag authentication_state update
    tag_accepted = rw (
      (==_iff (length whole) _).1 length-whole,
      tag_part x codec g.encoded g.journal,
      covered_part x codec g.encoded g.journal,
      d.hmac_accepts_all codec.authentication_key,
      equal_refl (tag x codec g.encoded g.journal),
    )

    contents_accepted : verify_contents x codec expected whole layout ≡ ok parts
    unfolding verify_contents
    contents_accepted =
        rw
          (
            metadata_part x codec g.encoded g.journal,
            g.reads,
            g.current,
            journal_part x codec g.encoded g.journal,
            g.digest,
            equal_refl (digest_text x g.journal),
            g.lifecycle,
          )
          (ap ok (
            ap
              (λ a.
                parts_of x codec expected a g.metadata layout.metadata_end layout.authenticated_len)
              (sym g.assembled)
            ∙ sym g.result))

    maximum_fits :
        HasRoom → maximum_artifact_bytes codec ≡ ok (22 + 16384 + codec.max_journal_bytes + 32)
    unfolding maximum_artifact_bytes checked_add
    maximum_fits room = ground arith

    limit_fits : validate_limit codec ≡ ok tt
    unfolding validate_limit
    limit_fits = ground (arith, g.fits)

    whole_accepted :
        HasRoom → validate expected ≡ ok tt → verify_parts x codec expected whole ≡ ok parts
    unfolding verify_parts
    whole_accepted room valid =
        rw
          (
            limit_fits,
            valid,
            maximum_fits room,
            le→ltb (22 + 16384 + codec.max_journal_bytes + 32) (length whole)
                (omega (arith, length-whole, g.fits)),
            le→ltb (length whole) 54 (omega (arith, length-whole)),
            get_prefix-some x codec expected whole 22 (omega (arith, length-whole)),
            header_part x codec g.encoded g.journal,
            validate_header-header_bytes codec (length g.encoded) (length g.journal) g.fits,
            tag_accepted,
          )
          contents_accepted

    pub verify_parts_complete :
        HasRoom → validate expected ≡ ok tt → verify_parts x codec expected artifact ≡ ok parts
    verify_parts_complete room valid =
        ap (verify_parts x codec expected) g.assembled ∙ whole_accepted room valid
