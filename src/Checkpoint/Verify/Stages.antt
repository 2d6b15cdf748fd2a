-- ===== src/Checkpoint/Verify/Stages.antt =====
-- src/checkpoint.rs: what the stages of `verify_parts` compute and check.
use wasm_runtime.Base.{
  ℕ, ◌-◌, ◌≤◌, ◌≡◌, sym, ap, ◌∙◌, Bool, false, not, some, [], ◌∷◌, ◌++◌, Bytes, length, length-drop,
  take, drop, take_all, arith, ltb, ◌==◌, equal, equal→eq, ltb→le,
}
use wasm_runtime.Failure.{Error, checkpoint, text, ok, >>=-eq-ok, >>-eq-ok, reject-eq-ok, reject}
use wasm_runtime.Slices.{slice, slice-inversion}
use wasm_runtime.Checkpoint.Binding.{WasixCheckpointBinding, validate}
use wasm_runtime.Checkpoint.Metadata.{
  External, CheckpointMetadata, Parsed, parsed, malformed, validate_metadata, digest_text,
}
use wasm_runtime.Checkpoint.Journal.{scan_journal}
use wasm_runtime.Checkpoint.Codec.{
  WasixCheckpointCodec, CheckpointArtifactLayout, checkpoint_domain, validate_limit,
  maximum_artifact_bytes, validate_header,
}
use wasm_runtime.Checkpoint.Seal.{Mac, update, authentication_state, finalize}
use wasm_runtime.Checkpoint.Verify.{
  VerifiedCheckpointParts, verify_parts, verify_tag, verify_contents, authentication_tag, parsed_or,
  get_prefix,
}

abbrev pub unauthenticated : Error
unauthenticated = checkpoint (text "checkpoint authentication failed" ∷ [])

module _ (x : External) (codec : WasixCheckpointCodec) (expected : WasixCheckpointBinding) where
  -- What is returned for an artifact with this metadata and these ends of its journal.
  abbrev pub parts_of : Bytes → CheckpointMetadata → ℕ → ℕ → VerifiedCheckpointParts
  parts_of artifact metadata start stop = record {
    binding = metadata.binding;
    journal = record { start = start; stop = stop };
    artifact_sha256 = digest_text x artifact;
    worker_build_sha256 = metadata.worker_build_sha256;
  }

  pub parsed_or-eq-ok : (p : Parsed) {m : CheckpointMetadata} → parsed_or p ≡ ok m → p ≡ parsed m
  parsed_or-eq-ok (parsed m) e = cc
  parsed_or-eq-ok (malformed t) e = cc

  -- The tag that is computed over the authenticated bytes.
  authentication_tag-fed :
      (bytes : Bytes) (mac : Mac)
      → authentication_tag x codec bytes ≡ ok mac
      → finalize x mac ≡ x.hmac_sha256 codec.authentication_key (checkpoint_domain ++ bytes)
  unfolding authentication_tag authentication_state update
  authentication_tag-fed bytes mac e = ground arith

  pub get_prefix-some :
      (artifact : Bytes) (n : ℕ)
      → n ≤ length artifact
      → get_prefix artifact n ≡ some (take n artifact)
  get_prefix-some artifact n h = ground arith

  not_eq_false : (m n : ℕ) → not (m == n) ≡ false → m ≡ n
  not_eq_false m n h = ground arith

  pub not-equal-false : (a b : Bytes) → not (equal a b) ≡ false → a ≡ b
  not-equal-false a b h = ground (arith, equal→eq a b)

  from_zero : (n : ℕ) → n - 0 ≡ n
  from_zero n = omega arith

  reject_passed : (b : Bool) (e : Error) → reject b e ≡ ok tt → b ≡ false
  reject_passed b e h = ground arith

  tags_agree :
      (artifact : Bytes) (layout : CheckpointArtifactLayout) (supplied authenticated : Bytes)
      (mac : Mac)
      → slice artifact layout.authenticated_len (length artifact) ≡ ok supplied
      → slice artifact 0 layout.authenticated_len ≡ ok authenticated
      → authentication_tag x codec authenticated ≡ ok mac
      → reject (not (equal (finalize x mac) supplied)) unauthenticated ≡ ok tt
      → drop layout.authenticated_len artifact
        ≡ x.hmac_sha256 codec.authentication_key
            (checkpoint_domain ++ take layout.authenticated_len artifact)
  tags_agree artifact layout supplied authenticated mac s a m t =
      let al = layout.authenticated_len in
      let whole : supplied ≡ drop al artifact =
        (slice-inversion artifact al (length artifact) s).2
        ∙ take_all (length artifact - al) (drop al artifact)
            (omega (arith, length-drop al artifact)) in
      let front : authenticated ≡ take al artifact =
        (slice-inversion artifact 0 al a).2 ∙ ap (λ k. take k artifact) (from_zero al) in
      sym whole
      ∙ sym (not-equal-false (finalize x mac) supplied (reject_passed _ unauthenticated t))
      ∙ authentication_tag-fed authenticated mac m
      ∙ ap (λ b. x.hmac_sha256 codec.authentication_key (checkpoint_domain ++ b)) front

  -- What the three stages of a verification have computed and checked.
  pub record ContentsPassed (artifact : Bytes) (layout : CheckpointArtifactLayout)
      (parts : VerifiedCheckpointParts) : Type 0 where
    pub encoded : Bytes
    pub metadata : CheckpointMetadata
    pub journal : Bytes
    pub encoded_got : slice artifact 22 layout.metadata_end ≡ ok encoded
    pub reads : parsed_or (x.parse_metadata encoded) ≡ ok metadata
    pub current : validate_metadata x metadata expected ≡ ok tt
    pub journal_got : slice artifact layout.metadata_end layout.authenticated_len ≡ ok journal
    pub digest : not (equal metadata.journal_sha256 (digest_text x journal)) ≡ false
    pub lifecycle : scan_journal journal ≡ ok tt
    pub result :
        ok (parts_of artifact metadata layout.metadata_end layout.authenticated_len) ≡ ok parts

  verify_contents-passed :
      (artifact : Bytes) (layout : CheckpointArtifactLayout) (parts : VerifiedCheckpointParts)
      → verify_contents x codec expected artifact layout ≡ ok parts
      → ContentsPassed artifact layout parts
  unfolding verify_contents
  verify_contents-passed artifact layout parts e =
      let (encoded, e1, h1) = >>=-eq-ok (slice artifact 22 layout.metadata_end) _ e in
      let (metadata, e2, h2) = >>=-eq-ok (parsed_or (x.parse_metadata encoded)) _ h1 in
      let (e3, h3) = >>-eq-ok (validate_metadata x metadata expected) _ h2 in
      let (journal, e4, h4) =
        >>=-eq-ok (slice artifact layout.metadata_end layout.authenticated_len) _ h3 in
      let (e5, h5) =
        reject-eq-ok (not (equal metadata.journal_sha256 (digest_text x journal))) _ _ h4 in
      let (e6, h6) = >>-eq-ok (scan_journal journal) _ h5 in
      record {
        encoded = encoded;
        metadata = metadata;
        journal = journal;
        encoded_got = e1;
        reads = e2;
        current = e3;
        journal_got = e4;
        digest = e5;
        lifecycle = e6;
        result = h6;
      }

  pub verify_tag-passed :
      (artifact : Bytes) (layout : CheckpointArtifactLayout)
      → verify_tag x codec artifact layout ≡ ok tt
      → (length artifact ≡ layout.artifact_len)
        × (drop layout.authenticated_len artifact
            ≡ x.hmac_sha256 codec.authentication_key
                (checkpoint_domain ++ take layout.authenticated_len artifact))
  unfolding verify_tag
  verify_tag-passed artifact layout e =
      let (e1, h1) = reject-eq-ok (not (length artifact == layout.artifact_len)) _ _ e in
      let (supplied, e2, h2) =
        >>=-eq-ok (slice artifact layout.authenticated_len (length artifact)) _ h1 in
      let (authenticated, e3, h3) = >>=-eq-ok (slice artifact 0 layout.authenticated_len) _ h2 in
      let (mac, e4, h4) = >>=-eq-ok (authentication_tag x codec authenticated) _ h3 in
      (
        not_eq_false (length artifact) layout.artifact_len e1,
        tags_agree artifact layout supplied authenticated mac e2 e3 e4 h4,
      )

  pub verify_parts-passed :
      (artifact : Bytes) (parts : VerifiedCheckpointParts)
      → verify_parts x codec expected artifact ≡ ok parts
      → (layout : CheckpointArtifactLayout) × (54 ≤ length artifact)
        × (validate_header codec (take 22 artifact) ≡ ok layout)
        × (verify_tag x codec artifact layout ≡ ok tt)
        × ContentsPassed artifact layout parts
  unfolding verify_parts
  verify_parts-passed artifact parts e =
      let (e1, h1) = >>-eq-ok (validate_limit codec) _ e in
      let (e2, h2) = >>-eq-ok (validate expected) _ h1 in
      let (maximum, e3, h3) = >>=-eq-ok (maximum_artifact_bytes codec) _ h2 in
      let (e4, h4) = reject-eq-ok (ltb maximum (length artifact)) _ _ h3 in
      let (e5, h5) = reject-eq-ok (ltb (length artifact) 54) _ _ h4 in
      let long : 54 ≤ length artifact = ltb→le (length artifact) 54 e5 in
      let got = get_prefix-some artifact 22 (omega arith) in
      let (layout, e7, h7) =
        >>=-eq-ok (validate_header codec (take 22 artifact)) _ (rw got at h5) in
      let (e8, h8) = >>-eq-ok (verify_tag x codec artifact layout) _ h7 in
      (layout, long, e7, e8, verify_contents-passed artifact layout parts h8)
