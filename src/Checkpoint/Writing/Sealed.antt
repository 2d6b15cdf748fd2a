-- ===== src/Checkpoint/Writing/Sealed.antt =====
-- src/checkpoint.rs: what the seal operations write, and `verify` on it.
use mathlib.Core.Path.{ap₂, subst}
use wasm_runtime.Base.{
  ◌+◌, ◌≡◌, refl, inl, inr, sym, ap, ◌∙◌, true, none, [], ◌++◌, append_assoc, arith, Bytes, length,
}
use wasm_runtime.Failure.{Result-cases, ok, >>-eq-ok, ok-injective}
use wasm_runtime.Checkpoint.Binding.{
  WasixCheckpointBinding, validate, validate_sha256, IsSha256, validate_sha256_iff,
}
use wasm_runtime.Checkpoint.Metadata.{External, IsDocumented, current, digest_text}
use wasm_runtime.Checkpoint.Metadata.Identity.{validate_metadata-current, journal_sha256-current}
use wasm_runtime.Checkpoint.Journal.{scan_journal}
use wasm_runtime.Checkpoint.Codec.{WasixCheckpointCodec, checkpoint_domain}
use wasm_runtime.Checkpoint.Seal.{
  CapturedWasixJournal, PreparedCheckpoint, update, vec_writer, authentication_state, prepare_seal,
  from_attested_worker_capture,
}
use wasm_runtime.Checkpoint.Seal.Prepared.{IsPrepared, prepare_seal-IsPrepared}
use wasm_runtime.Checkpoint.Writing.{
  write_authenticated_chunk, write_prepared_checkpoint, write_artifact, seal_bound_capture,
  seal_bound_capture_into,
}
use wasm_runtime.Checkpoint.Verify.{VerifiedWasixCheckpointView, verify}
use wasm_runtime.Checkpoint.Verify.Views.{verify-Genuine}
use wasm_runtime.Checkpoint.Verify.Assembled.{assemble}
use wasm_runtime.Checkpoint.Verify.Genuine.{Genuine, HasRoom, verify_parts_complete}
use wasm_runtime.Checkpoint.Verify.Stages.{parts_of}

module _ (x : External) (codec : WasixCheckpointCodec) where
  -- What a vector holds after the four writes.
  abbrev pub written : Bytes → PreparedCheckpoint → Bytes
  written w p =
      (((w ++ p.header) ++ p.metadata) ++ p.journal)
      ++ x.hmac_sha256 codec.authentication_key
          (((checkpoint_domain ++ p.header) ++ p.metadata) ++ p.journal)

  pub write_prepared_checkpoint-vec :
      (p : PreparedCheckpoint) (w : Bytes)
      → x.hmac_accepts codec.authentication_key ≡ true
      → write_prepared_checkpoint vec_writer x codec p w ≡ (written w p, ok tt)
  unfolding write_prepared_checkpoint write_authenticated_chunk authentication_state update
  write_prepared_checkpoint-vec p w h = rw h

  pub seal_into-vec :
      (binding : WasixCheckpointBinding) (journal : CapturedWasixJournal) (p : PreparedCheckpoint)
      → x.hmac_accepts codec.authentication_key ≡ true
      → prepare_seal x codec binding journal ≡ ok p
      → seal_bound_capture_into vec_writer x codec binding journal []
        ≡ (written [] p, ok p.artifact_len)
  unfolding seal_bound_capture_into
  seal_into-vec binding journal p h q = ground (arith, write_prepared_checkpoint-vec p [])

  pub write_artifact-ok :
      (binding : WasixCheckpointBinding) (journal : CapturedWasixJournal) (artifact : Bytes)
      → x.hmac_accepts codec.authentication_key ≡ true
      → seal_bound_capture x codec binding journal ≡ ok artifact
      → (p : PreparedCheckpoint) × (prepare_seal x codec binding journal ≡ ok p)
        × (artifact ≡ written [] p)
  unfolding seal_bound_capture write_artifact
  write_artifact-ok binding journal artifact h e =
      elim (Result-cases (prepare_seal x codec binding journal)) [
        | inl (p, q) ↦ (p, q, ground (arith, write_prepared_checkpoint-vec p []))
        | inr (inl (f, q)) ↦ absurd (ground arith)
        | inr (inr (inl q)) ↦ absurd (ground arith)
        | inr (inr (inr q)) ↦ absurd (ground arith)
      ]

  pub seal_bound_capture-prepared :
      (binding : WasixCheckpointBinding) (journal : CapturedWasixJournal) (p : PreparedCheckpoint)
      → x.hmac_accepts codec.authentication_key ≡ true
      → x.try_reserve_exact p.artifact_len ≡ none
      → prepare_seal x codec binding journal ≡ ok p
      → seal_bound_capture x codec binding journal ≡ ok (written [] p)
  unfolding seal_bound_capture write_artifact
  seal_bound_capture-prepared binding journal p h room q =
      ground (arith, write_prepared_checkpoint-vec p [])

  pub written-assemble :
      (binding : WasixCheckpointBinding) (journal : CapturedWasixJournal) (p : PreparedCheckpoint)
      → IsPrepared x codec binding journal p
      → written [] p ≡ assemble x codec p.metadata journal.bytes
  unfolding assemble
  written-assemble binding journal p i = simp (append_assoc, i.header, i.journal_bytes)

  -- A sealed capture is a genuine artifact, and what is returned for it.
  abbrev sealed-Genuine :
      (d : IsDocumented x) (binding : WasixCheckpointBinding) (journal : CapturedWasixJournal)
      (p : PreparedCheckpoint)
      → IsSha256 journal.worker_build_sha256
      → IsPrepared x codec binding journal p
      → Genuine x codec binding (assemble x codec p.metadata journal.bytes) (
          parts_of x codec binding
            (assemble x codec p.metadata journal.bytes)
            (current x binding journal.worker_build_sha256 journal.bytes)
            (22 + length p.metadata)
            (22 + length p.metadata + length journal.bytes))
  sealed-Genuine d binding journal p worker i =
      let m = current x binding journal.worker_build_sha256 journal.bytes in
      record {
        encoded = p.metadata;
        journal = journal.bytes;
        metadata = m;
        assembled = refl;
        fits = i.fits;
        reads = ap x.parse_metadata i.encoded ∙ d.parse-write m;
        current =
            validate_metadata-current x d binding journal.worker_build_sha256 journal.bytes i.valid
              worker;
        digest = journal_sha256-current x binding journal.worker_build_sha256 journal.bytes;
        lifecycle = i.scanned;
        result = refl;
      }

  -- What verification returns for a sealed capture.
  abbrev pub view_of : Bytes → CapturedWasixJournal → VerifiedWasixCheckpointView
  view_of artifact journal = record {
    binding = journal.binding;
    journal = journal.bytes;
    artifact_sha256 = digest_text x artifact;
    worker_build_sha256 = journal.worker_build_sha256;
  }

  pub captured_worker :
      (bytes : Bytes) (binding : WasixCheckpointBinding) (worker : Bytes)
      (journal : CapturedWasixJournal)
      → from_attested_worker_capture bytes binding worker ≡ ok journal
      → IsSha256 journal.worker_build_sha256 × (journal.bytes ≡ bytes) × (journal.binding ≡ binding)
  unfolding from_attested_worker_capture
  captured_worker bytes binding worker journal e =
      let (e1, h1) = >>-eq-ok (validate binding) _ e in
      let (e2, h2) = >>-eq-ok (validate_sha256 "captured worker build digest" worker) _ h1 in
      let (e3, h3) = >>-eq-ok (scan_journal bytes) _ h2 in
      subst
        (λ (j : CapturedWasixJournal).
          IsSha256 j.worker_build_sha256 × (j.bytes ≡ bytes) × (j.binding ≡ binding))
        (ok-injective h3)
        ((validate_sha256_iff "captured worker build digest" worker).0 e2, refl, refl)

  pub sealed_bound :
      (binding : WasixCheckpointBinding) (journal : CapturedWasixJournal) (artifact : Bytes)
      → IsDocumented x
      → HasRoom x codec binding
      → IsSha256 journal.worker_build_sha256
      → seal_bound_capture x codec binding journal ≡ ok artifact
      → verify x codec binding artifact ≡ ok (view_of artifact journal)
  unfolding current
  sealed_bound binding journal artifact d room worker e =
      let (p, q, w) =
        write_artifact-ok binding journal artifact (d.hmac_accepts_all codec.authentication_key)
          e in
      let i = prepare_seal-IsPrepared x codec binding journal p q in
      let g = sealed-Genuine d binding journal p worker i in
      let accepted = verify_parts_complete x codec binding d _ _ g room i.valid in
      let same : artifact ≡ assemble x codec p.metadata journal.bytes =
        w ∙ written-assemble binding journal p i in
      ap (verify x codec binding) same
      ∙ verify-Genuine x codec binding _ _ g accepted
      ∙ ap₂ (λ b a. ok (view_of a (record journal { binding = b }))) i.same (sym same)
