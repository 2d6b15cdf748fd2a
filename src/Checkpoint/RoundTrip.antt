-- ===== src/Checkpoint/RoundTrip.antt =====
-- src/checkpoint.rs: sealing followed by verification, and sealing through a writer.
use mathlib.Core.Path.{ap₂, subst}
use wasm_runtime.Base.{◌≡◌, sym, ap, ◌∙◌, [], append_assoc, arith, Bytes, length}
use wasm_runtime.Failure.{ok, >>-eq-ok, ok-injective}
use wasm_runtime.Checkpoint.Binding.{
  WasixCheckpointBinding, validate, validate_sha256, binding_eq_refl,
}
use wasm_runtime.Checkpoint.Metadata.{External, IsDocumented, concat, current}
use wasm_runtime.Checkpoint.Codec.{WasixCheckpointCodec}
use wasm_runtime.Checkpoint.Seal.{
  CapturedWasixJournal, from_attested_worker_capture, vec_writer, check_binding,
}
use wasm_runtime.Checkpoint.Seal.Prepared.{prepare_seal-IsPrepared}
use wasm_runtime.Checkpoint.Journal.{scan_journal}
use wasm_runtime.Checkpoint.Codec.Header.{Fits}
use wasm_runtime.Checkpoint.Seal.Succeeds.{
  HasMemory, captured_as, encode_metadata-fits, prepare_seal-fits,
}
use wasm_runtime.Checkpoint.Writing.{seal, seal_capture, seal_capture_into}
use wasm_runtime.Checkpoint.Writing.Sealed.{
  view_of, seal_bound_capture-prepared, captured_worker, sealed_bound, write_artifact-ok,
  written-assemble, seal_into-vec,
}
use wasm_runtime.Checkpoint.Verify.{verify}
use wasm_runtime.Checkpoint.Verify.Assembled.{length-assemble, assemble}
use wasm_runtime.Checkpoint.Verify.Genuine.{HasRoom}

-- An artifact that `seal` returns for a captured journal passes `verify` under the same binding,
-- which returns that binding, the captured bytes and the attested worker digest, when the
-- configured limit leaves room for the artifact and the crates behave as documented.
pub verify-seal :
    (x : External) (d : IsDocumented x) (codec : WasixCheckpointCodec) (bytes : Bytes)
    (binding : WasixCheckpointBinding) (worker artifact : Bytes) (journal : CapturedWasixJournal)
    → HasRoom x codec binding
    → from_attested_worker_capture bytes binding worker ≡ ok journal
    → seal x codec binding journal ≡ ok artifact
    → verify x codec binding artifact ≡ ok (view_of x codec artifact journal)
unfolding seal
verify-seal x d codec bytes binding worker artifact journal room captured sealed =
    let (checked, e) = >>-eq-ok (check_binding binding journal) _ sealed in
    sealed_bound x codec binding journal artifact d room
      (captured_worker x codec bytes binding worker journal captured).0 e

-- Sealing through a writer that appends to a vector leaves there what `seal_capture` returns, and
-- returns the number of bytes written.
pub seal_capture_into-vec :
    (x : External) (d : IsDocumented x) (codec : WasixCheckpointCodec)
    (journal : CapturedWasixJournal) (artifact : Bytes)
    → seal_capture x codec journal ≡ ok artifact
    → seal_capture_into vec_writer x codec journal [] ≡ (artifact, ok (length artifact))
unfolding seal_capture seal_capture_into
seal_capture_into-vec x d codec journal artifact e =
    let accepts = d.hmac_accepts_all codec.authentication_key in
    let (p, q, w) = write_artifact-ok x codec journal.binding journal artifact accepts e in
    let i = prepare_seal-IsPrepared x codec journal.binding journal p q in
    let same = w ∙ written-assemble x codec journal.binding journal p i in
    seal_into-vec x codec journal.binding journal p accepts q
    ∙ ap₂ (λ a n. (a, ok n)) (sym w)
        (i.artifact_len
          ∙ omega (
            arith,
            length-assemble x codec p.metadata journal.bytes,
            d.length-hmac_sha256 codec.authentication_key,
            ap length same,
          ))

-- Sealing succeeds: for a capture that the constructor accepts, when allocations succeed, crates
-- behave as documented, and the encoded metadata and the journal fit their limits. The artifact is
-- the header, the metadata, the journal and the tag over them.
pub seal-fits :
    (x : External) (d : IsDocumented x) (codec : WasixCheckpointCodec) (bytes : Bytes)
    (binding : WasixCheckpointBinding) (worker : Bytes) (journal : CapturedWasixJournal)
    → HasMemory x
    → Fits codec
        (length (concat (x.write_metadata (current x binding worker bytes))))
        (length bytes)
    → from_attested_worker_capture bytes binding worker ≡ ok journal
    → seal x codec binding journal
      ≡ ok (assemble x codec (concat (x.write_metadata (current x binding worker bytes))) bytes)
unfolding seal check_binding from_attested_worker_capture assemble
seal-fits x d codec bytes binding worker journal memory fits captured =
    let encoded = concat (x.write_metadata (current x binding worker bytes)) in
    let (e1, h1) = >>-eq-ok (validate binding) _ captured in
    let (e2, h2) = >>-eq-ok (validate_sha256 "captured worker build digest" worker) _ h1 in
    let (e3, h3) = >>-eq-ok (scan_journal bytes) _ h2 in
    let same : captured_as x codec bytes binding worker ≡ journal = ok-injective h3 in
    let encodes =
      encode_metadata-fits x memory (current x binding worker bytes)
        (omega (arith, fits.metadata_bounded)) in
    let prepared = prepare_seal-fits x codec binding bytes worker encoded e1 e3 encodes fits in
    let accepts = d.hmac_accepts_all codec.authentication_key in
    subst (λ j. seal x codec binding j ≡ ok (assemble x codec encoded bytes)) same
      (rw
        (
          e1,
          binding_eq_refl binding,
          seal_bound_capture-prepared x codec binding (captured_as x codec bytes binding worker) _
              accepts (memory _) prepared,
        )
        (simp append_assoc))
