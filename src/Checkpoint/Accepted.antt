-- ===== src/Checkpoint/Accepted.antt =====
-- src/checkpoint.rs: the artifacts that `verify` accepts, described without the code.
use mathlib.Core.Path.{ap₂, subst}
use wasm_runtime.Base.{[], ◌+◌, ◌<◌, ◌≡◌, ◌↔◌, refl, sym, ap, ◌∙◌, arith, Bytes, length}
use wasm_runtime.Base.Words.{AllBytes, AllBytes-append_left, AllBytes-append_right}
use wasm_runtime.Failure.{ok, ok-injective, >>=-eq-ok, usize_end}
use wasm_runtime.Checkpoint.Binding.{WasixCheckpointBinding, validate_iff, IsCanonical, IsSha256}
use wasm_runtime.Checkpoint.Journal.{scan_journal}
use wasm_runtime.Checkpoint.Journal.Accepts.{IsJournal, scan_journal_sound, scan_journal_complete}
use wasm_runtime.Checkpoint.Metadata.{
  External, IsDocumented, CheckpointMetadata, parsed, current, digest_text,
}
use wasm_runtime.Checkpoint.Metadata.Identity.{
  IsCurrent, validate_metadata_sound, validate_metadata-current, journal_sha256-current,
}
use wasm_runtime.Checkpoint.Codec.{WasixCheckpointCodec, header_bytes}
use wasm_runtime.Checkpoint.Codec.Header.{Fits}
use wasm_runtime.Checkpoint.Verify.{
  VerifiedCheckpointParts, VerifiedWasixCheckpointView, verify, verify_parts,
}
use wasm_runtime.Checkpoint.Verify.Assembled.{assemble, tag}
use wasm_runtime.Checkpoint.Verify.Stages.{parts_of}
use wasm_runtime.Checkpoint.Verify.Genuine.{
  Genuine, HasRoom, verify_parts_sound, verify_parts_complete,
}
use wasm_runtime.Checkpoint.Verify.Views.{view, verify-Genuine}

-- A scan accepts exactly the journals of the specification: the magic marker followed by framed
-- records of known types whose lifecycle is one initialisation first, at least one thread state
-- and an explicit snapshot last; for a journal of bytes that a `usize` counts.
pub scan_journal_iff :
    (journal : Bytes)
    → AllBytes journal
    → length journal < usize_end
    → (scan_journal journal ≡ ok tt) ↔ IsJournal journal
scan_journal_iff journal bytes fits =
    (scan_journal_sound journal bytes, scan_journal_complete journal fits)

module _ (x : External) (codec : WasixCheckpointCodec) (expected : WasixCheckpointBinding) where
  -- The artifacts of this build for the expected binding, under the codec's key, and the view on
  -- them.
  pub record IsAccepted (artifact : Bytes) (v : VerifiedWasixCheckpointView) : Type 0 where
    pub encoded : Bytes
    pub canonical : IsCanonical expected
    pub worker : IsSha256 v.worker_build_sha256
    pub reads :
        x.parse_metadata encoded ≡ parsed (current x expected v.worker_build_sha256 v.journal)
    pub lifecycle : IsJournal v.journal
    pub fits : Fits codec (length encoded) (length v.journal)
    pub assembled : artifact ≡ assemble x codec encoded v.journal
    pub binding : v.binding ≡ expected
    pub artifact_sha256 : v.artifact_sha256 ≡ digest_text x artifact

  -- Valid metadata with the digest of the journal is the metadata that the build writes.
  metadata_of :
      (m : CheckpointMetadata) (journal : Bytes)
      → IsCurrent x m expected
      → m.journal_sha256 ≡ digest_text x journal
      → m ≡ current x expected m.worker_build_sha256 journal
  unfolding current
  metadata_of m journal i digest =
      i.same
      ∙ ap
          (λ d. record (current x expected m.worker_build_sha256 []) {
            journal_sha256 = d;
            worker_build_sha256 = m.worker_build_sha256;
          })
          digest

  binding_of : (worker journal : Bytes) → (current x expected worker journal).binding ≡ expected
  unfolding current
  binding_of worker journal = refl

  -- The journal of an assembled artifact.
  journal_bytes :
      (artifact encoded journal : Bytes)
      → AllBytes artifact
      → artifact ≡ assemble x codec encoded journal
      → AllBytes journal
  unfolding assemble
  journal_bytes artifact encoded journal bytes e =
      AllBytes-append_left journal (tag x codec encoded journal) (
        AllBytes-append_right encoded _ (
          AllBytes-append_right (header_bytes (length encoded) (length journal)) _
            (subst AllBytes e bytes)))

  accepted :
      (artifact : Bytes) (parts : VerifiedCheckpointParts)
      (g : Genuine x codec expected artifact parts)
      → AllBytes artifact
      → IsAccepted artifact (view x codec expected artifact parts g)
  accepted artifact parts g bytes =
      let i = validate_metadata_sound x g.metadata expected g.current in
      let m = metadata_of g.metadata g.journal i g.digest in
      let w : parts.worker_build_sha256 ≡ g.metadata.worker_build_sha256 =
        ap (λ (p : VerifiedCheckpointParts). p.worker_build_sha256) g.result in
      record {
        encoded = g.encoded;
        canonical = i.canonical;
        worker = subst IsSha256 (sym w) i.worker_digest;
        reads = g.reads ∙ ap parsed (m ∙ ap (λ b. current x expected b g.journal) (sym w));
        lifecycle =
            scan_journal_sound g.journal
              (journal_bytes artifact g.encoded g.journal bytes g.assembled) g.lifecycle;
        fits = g.fits;
        assembled = g.assembled;
        binding =
            ap (λ (p : VerifiedCheckpointParts). p.binding) g.result
            ∙ ap (λ (t : CheckpointMetadata). t.binding) m
            ∙ binding_of g.metadata.worker_build_sha256 g.journal;
        artifact_sha256 = ap (λ (p : VerifiedCheckpointParts). p.artifact_sha256) g.result;
      }

  verify-IsAccepted :
      (artifact : Bytes) (v : VerifiedWasixCheckpointView)
      → AllBytes artifact
      → verify x codec expected artifact ≡ ok v
      → IsAccepted artifact v
  unfolding verify
  verify-IsAccepted artifact v bytes e =
      let (parts, p, h) = >>=-eq-ok (verify_parts x codec expected artifact) _ e in
      let g = verify_parts_sound x codec expected artifact parts bytes p in
      subst (IsAccepted artifact)
        (ok-injective (sym (verify-Genuine x codec expected artifact parts g p) ∙ e))
        (accepted artifact parts g bytes)

  abbrev accepted_genuine :
      (d : IsDocumented x) (artifact : Bytes) (v : VerifiedWasixCheckpointView)
      (a : IsAccepted artifact v)
      → length v.journal < usize_end
      → Genuine x codec expected artifact (
          parts_of x codec expected artifact
            (current x expected v.worker_build_sha256 v.journal)
            (22 + length a.encoded)
            (22 + length a.encoded + length v.journal))
  accepted_genuine d artifact v a small = record {
    encoded = a.encoded;
    journal = v.journal;
    metadata = current x expected v.worker_build_sha256 v.journal;
    assembled = a.assembled;
    fits = a.fits;
    reads = a.reads;
    current =
        validate_metadata-current x d expected v.worker_build_sha256 v.journal
          ((validate_iff expected).1 a.canonical) a.worker;
    digest = journal_sha256-current x expected v.worker_build_sha256 v.journal;
    lifecycle = scan_journal_complete v.journal small a.lifecycle;
    result = refl;
  }

  IsAccepted-verify :
      (d : IsDocumented x) (artifact : Bytes) (v : VerifiedWasixCheckpointView)
      → HasRoom x codec expected
      → IsAccepted artifact v
      → verify x codec expected artifact ≡ ok v
  unfolding current
  IsAccepted-verify d artifact v room a =
      let g = accepted_genuine d artifact v a (omega (arith, a.fits.journal_bounded)) in
      let e =
        verify_parts_complete x codec expected d artifact _ g room
          ((validate_iff expected).1 a.canonical) in
      verify-Genuine x codec expected artifact _ g e
      ∙ ap₂ (λ b t. ok (record v { binding = b; artifact_sha256 = t })) (sym a.binding)
          (sym a.artifact_sha256)

  -- `verify` accepts exactly the artifacts that consist of the header of their lengths, an encoding
  -- of the metadata of this build for the expected binding and this journal, a journal with a
  -- complete lifecycle, and the tag of all these bytes under the codec's key; and it returns the
  -- view on them. For an artifact of bytes, crates that behave as documented, and a limit that
  -- leaves room for the largest artifact.
  pub verify_iff :
      (d : IsDocumented x) (artifact : Bytes) (v : VerifiedWasixCheckpointView)
      → AllBytes artifact
      → HasRoom x codec expected
      → (verify x codec expected artifact ≡ ok v) ↔ IsAccepted artifact v
  verify_iff d artifact v bytes room =
      (verify-IsAccepted artifact v bytes, IsAccepted-verify d artifact v room)
