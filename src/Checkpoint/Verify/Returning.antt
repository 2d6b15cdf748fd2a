-- ===== src/Checkpoint/Verify/Returning.antt =====
-- src/checkpoint.rs: the slices that `verify_parts` and `verify` take, on any artifact.
use mathlib.Core.Path.{subst}
use wasm_runtime.Base.{
  ℕ, ◌+◌, ◌≤◌, ◌≡◌, ◌==◌, [], sym, not, arith, Bytes, length, take, ltb, ltb→le, equal,
}
use wasm_runtime.Failure.{
  reject-Returns, ok-injective, ok, Returns, Returns-bind, Returns-reject, ◌>>◌,
}
use wasm_runtime.Slices.{slice, slice-eq-ok}
use wasm_runtime.Checkpoint.Binding.{
  WasixCheckpointBinding, validate, validate-Returns, validate_sha256, validate_sha256-Returns,
}
use wasm_runtime.Checkpoint.Journal.{scan_journal}
use wasm_runtime.Checkpoint.Journal.Accepts.{scan_journal-Returns}
use wasm_runtime.Checkpoint.Metadata.{
  same_identity, current, External, CheckpointMetadata, digest_text, validate_metadata, Parsed,
  parsed, malformed,
}
use wasm_runtime.Checkpoint.Codec.{
  WasixCheckpointCodec, CheckpointArtifactLayout, maximum_artifact_bytes, validate_limit,
  validate_header,
}
use wasm_runtime.Checkpoint.Codec.Header.{
  layout_of, validate_header-layout_of, validate_header-Returns,
}
use wasm_runtime.Checkpoint.Seal.{finalize, authentication_state}
use wasm_runtime.Checkpoint.Verify.{
  VerifiedCheckpointParts, verify, verify_parts, verify_tag, verify_contents, authentication_tag,
  parsed_or,
}
use wasm_runtime.Checkpoint.Verify.Stages.{verify_parts-passed, verify_tag-passed, get_prefix-some}

slice-Returns :
    (bytes : Bytes) (from to : ℕ) → from ≤ to → to ≤ length bytes → Returns (slice bytes from to)
slice-Returns bytes from to h k = subst Returns (sym (slice-eq-ok bytes from to h k)) tt

module _ (x : External) (codec : WasixCheckpointCodec) (expected : WasixCheckpointBinding) where
  validate_metadata-Returns : (m : CheckpointMetadata) → Returns (validate_metadata x m expected)
  unfolding validate_metadata
  validate_metadata-Returns m =
      Returns-bind (validate m.binding) _ (validate-Returns m.binding) λ _ _.
        Returns-bind (validate_sha256 "checkpoint journal digest" m.journal_sha256) _
          (validate_sha256-Returns _ m.journal_sha256)
          λ _ _.
            Returns-bind (validate_sha256 "checkpoint worker build digest" m.worker_build_sha256) _
              (validate_sha256-Returns _ m.worker_build_sha256)
              λ _ _.
                reject-Returns
                  (not (same_identity x m (current x expected m.worker_build_sha256 []))) _

  parsed_or-Returns : (p : Parsed) → Returns (parsed_or p)
  parsed_or-Returns (parsed m) = tt
  parsed_or-Returns (malformed e) = tt

  authentication_tag-Returns : (bytes : Bytes) → Returns (authentication_tag x codec bytes)
  unfolding authentication_tag authentication_state
  authentication_tag-Returns bytes = ground arith

  verify_tag-Returns :
      (artifact : Bytes) (m n : ℕ) → Returns (verify_tag x codec artifact (layout_of m n))
  unfolding verify_tag
  verify_tag-Returns artifact m n =
      Returns-reject (not (length artifact == 22 + m + n + 32)) _ _ λ size.
        let size' : length artifact ≡ 22 + m + n + 32 = ground arith in
        Returns-bind (slice artifact (22 + m + n) (length artifact)) _
          (slice-Returns artifact (22 + m + n) (length artifact) (omega arith) (omega arith))
          λ supplied _.
            Returns-bind (slice artifact 0 (22 + m + n)) _
              (slice-Returns artifact 0 (22 + m + n) (omega arith) (omega arith))
              λ bytes _.
                Returns-bind (authentication_tag x codec bytes) _ (authentication_tag-Returns bytes)
                  λ mac _. reject-Returns (not (equal (finalize x mac) supplied)) _

  verify_contents-Returns :
      (artifact : Bytes) (m n : ℕ)
      → length artifact ≡ 22 + m + n + 32
      → Returns (verify_contents x codec expected artifact (layout_of m n))
  unfolding verify_contents
  verify_contents-Returns artifact m n size =
      Returns-bind (slice artifact 22 (22 + m)) _
        (slice-Returns artifact 22 (22 + m) (omega arith) (omega arith))
        λ encoded _.
          Returns-bind (parsed_or (x.parse_metadata encoded)) _
            (parsed_or-Returns (x.parse_metadata encoded))
            λ metadata _.
              Returns-bind (validate_metadata x metadata expected) _
                (validate_metadata-Returns metadata)
                λ _ _.
                  Returns-bind (slice artifact (22 + m) (22 + m + n)) _
                    (slice-Returns artifact (22 + m) (22 + m + n) (omega arith) (omega arith))
                    λ journal _.
                      Returns-reject (not (equal metadata.journal_sha256 (digest_text x journal))) _
                        _
                        λ _.
                          Returns-bind (scan_journal journal) _ (scan_journal-Returns journal)
                            λ _ _. tt

  behind_layout :
      (artifact : Bytes) (layout : CheckpointArtifactLayout)
      → validate_header codec (take 22 artifact) ≡ ok layout
      → Returns
          (verify_tag x codec artifact layout >> verify_contents x codec expected artifact layout)
  behind_layout artifact layout e =
      let (m, n, fits, same) = validate_header-layout_of codec (take 22 artifact) layout e in
      subst
        (λ l.
          Returns (verify_tag x codec artifact l >> verify_contents x codec expected artifact l))
        (sym same)
        (Returns-bind (verify_tag x codec artifact (layout_of m n)) _
          (verify_tag-Returns artifact m n)
          λ _ passed.
            verify_contents-Returns artifact m n
              (verify_tag-passed x codec expected artifact (layout_of m n) passed).0)

  maximum-Returns : Returns (maximum_artifact_bytes codec)
  unfolding maximum_artifact_bytes
  maximum-Returns = ground arith

  limit-Returns : Returns (validate_limit codec)
  unfolding validate_limit
  limit-Returns = ground arith

  verify_parts-Returns : (artifact : Bytes) → Returns (verify_parts x codec expected artifact)
  unfolding verify_parts
  verify_parts-Returns artifact = Returns-bind (validate_limit codec) _ limit-Returns λ _ _.
      Returns-bind (validate expected) _ (validate-Returns expected) λ _ _.
        Returns-bind (maximum_artifact_bytes codec) _ maximum-Returns λ maximum _.
          Returns-reject (ltb maximum (length artifact)) _ _ λ _.
            Returns-reject (ltb (length artifact) 54) _ _ λ short.
              rw
                (get_prefix-some x codec expected artifact 22
                  (omega (arith, ltb→le (length artifact) 54 short)))
                (Returns-bind (validate_header codec (take 22 artifact)) _
                  (validate_header-Returns codec (take 22 artifact))
                  λ layout e. behind_layout artifact layout e)

  -- The journal of verified parts lies in the artifact.
  journal-Returns :
      (artifact : Bytes) (parts : VerifiedCheckpointParts)
      → verify_parts x codec expected artifact ≡ ok parts
      → Returns (slice artifact parts.journal.start parts.journal.stop)
  journal-Returns artifact parts e =
      let (layout, long, header_ok, tag_ok, c) =
        verify_parts-passed x codec expected artifact parts e in
      subst
        (λ (p : VerifiedCheckpointParts). Returns (slice artifact p.journal.start p.journal.stop))
        (ok-injective c.result) (subst Returns (sym c.journal_got) tt)

  -- Verification returns a view or an error on every input: it does not panic.
  pub verify-Returns : (artifact : Bytes) → Returns (verify x codec expected artifact)
  unfolding verify
  verify-Returns artifact =
      Returns-bind (verify_parts x codec expected artifact) _ (verify_parts-Returns artifact)
        λ parts e.
          Returns-bind (slice artifact parts.journal.start parts.journal.stop) _
            (journal-Returns artifact parts e) λ _ _. tt
