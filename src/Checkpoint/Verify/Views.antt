-- ===== src/Checkpoint/Verify/Views.antt =====
-- src/checkpoint.rs: `verify`, `open` and `into_parts` on a genuine artifact.
use wasm_runtime.Base.{
  ℕ, ◌+◌, ◌-◌, ◌≡◌, refl, sym, ap, ◌∙◌, inl, inr, none, [], ◌++◌, arith, Bytes, length, take, drop,
  length-take, length-drop, Bool-cases, ==_iff, take-append_at, ◌==◌,
}
use wasm_runtime.Failure.{ok-injective, ok, >>=-eq-ok}
use wasm_runtime.Slices.{slice, slice-inversion, slice-append_last}
use wasm_runtime.Checkpoint.Binding.{WasixCheckpointBinding}
use wasm_runtime.Checkpoint.Metadata.{External}
use wasm_runtime.Checkpoint.Codec.{WasixCheckpointCodec}
use wasm_runtime.Checkpoint.Verify.{
  VerifiedCheckpointParts, VerifiedWasixCheckpoint, VerifiedWasixCheckpointView, journal_of,
  copy_to_front, into_parts, verify_parts, verify, open_artifact,
}
use wasm_runtime.Checkpoint.Verify.Assembled.{journal_part}
use wasm_runtime.Checkpoint.Verify.Genuine.{Genuine}

module _ (x : External) (codec : WasixCheckpointCodec) (expected : WasixCheckpointBinding) where
  module _ (artifact : Bytes) (parts : VerifiedCheckpointParts)
      (g : Genuine x codec expected artifact parts) where
    journal_slice : slice artifact parts.journal.start parts.journal.stop ≡ ok g.journal
    journal_slice =
        ap (λ (p : VerifiedCheckpointParts). slice artifact p.journal.start p.journal.stop) g.result
        ∙ ap (λ a. slice a (22 + length g.encoded) (22 + length g.encoded + length g.journal))
            g.assembled
        ∙ journal_part x codec g.encoded g.journal

    -- What `verify` returns: the identity, and the very journal bytes of the artifact.
    abbrev pub view : VerifiedWasixCheckpointView
    view = record {
      binding = parts.binding;
      journal = g.journal;
      artifact_sha256 = parts.artifact_sha256;
      worker_build_sha256 = parts.worker_build_sha256;
    }

    pub verify-Genuine :
        verify_parts x codec expected artifact ≡ ok parts
        → verify x codec expected artifact ≡ ok view
    unfolding verify
    verify-Genuine e = rw (e, journal_slice)

-- A part moved to the front of its buffer, and the buffer cut to its length.
copied :
    (bytes : Bytes) (start stop : ℕ) (part : Bytes)
    → slice bytes start stop ≡ ok part
    → copy_to_front bytes start stop ≡ ok (part ++ drop (stop - start) bytes)
unfolding copy_to_front
copied bytes start stop part e = rw e

part_length :
    (bytes : Bytes) (start stop : ℕ) (part : Bytes)
    → slice bytes start stop ≡ ok part
    → stop - start ≡ length part
part_length bytes start stop part e =
    let (h, k, same) = slice-inversion bytes start stop e in
    omega (
      arith,
      ap length same,
      length-take (stop - start) (drop start bytes),
      length-drop start bytes,
    )

pub into_parts-journal_of :
    (v : VerifiedWasixCheckpoint) (journal : Bytes)
    → journal_of v ≡ ok journal
    → into_parts v ≡ ok (journal, v.worker_build_sha256)
unfolding journal_of into_parts
into_parts-journal_of v journal e = elim (Bool-cases (v.journal.start == 0)) [
  | inl z ↦
      let (h, k, same) = slice-inversion v.bytes v.journal.start v.journal.stop e in
      rw z (
        ap (λ t. ok (t, v.worker_build_sha256))
          (sym (
            same
            ∙ ap (λ n. take (v.journal.stop - v.journal.start) (drop n v.bytes))
                ((==_iff v.journal.start 0).0 z))))
  | inr n ↦
      rw (n, copied v.bytes v.journal.start v.journal.stop journal e)
        (ap (λ t. ok (t, v.worker_build_sha256))
          (take-append_at (v.journal.stop - v.journal.start) journal _
            (part_length v.bytes v.journal.start v.journal.stop journal e)))
]

whole_slice : (bytes : Bytes) → slice bytes 0 (length bytes) ≡ ok bytes
whole_slice bytes = slice-append_last [] bytes 0 (length bytes) refl (omega arith)

-- When the allocation of the journal succeeds, `open` accepts what `verify` accepts, and what it
-- returns exposes and hands over the journal and the worker digest that `verify` returns.
pub open_artifact-verify :
    (x : External) (codec : WasixCheckpointCodec) (expected : WasixCheckpointBinding)
    (artifact : Bytes) (v : VerifiedWasixCheckpointView)
    → x.try_reserve_exact (length v.journal) ≡ none
    → verify x codec expected artifact ≡ ok v
    → (c : VerifiedWasixCheckpoint) × (open_artifact x codec expected artifact ≡ ok c)
      × (journal_of c ≡ ok v.journal)
      × (into_parts c ≡ ok (v.journal, v.worker_build_sha256))
      × (c.binding ≡ v.binding)
      × (c.artifact_sha256 ≡ v.artifact_sha256)
unfolding verify open_artifact journal_of
open_artifact-verify x codec expected artifact v room e =
    let (parts, p, h) = >>=-eq-ok (verify_parts x codec expected artifact) _ e in
    let (journal, j, k) = >>=-eq-ok (slice artifact parts.journal.start parts.journal.stop) _ h in
    let same = ok-injective k in
    let c : VerifiedWasixCheckpoint = record {
      binding = parts.binding;
      bytes = journal;
      journal = record { start = 0; stop = length journal };
      artifact_sha256 = parts.artifact_sha256;
      worker_build_sha256 = parts.worker_build_sha256;
    } in
    let room' : x.try_reserve_exact (length journal) ≡ none =
      ap (λ (w : VerifiedWasixCheckpointView). x.try_reserve_exact (length w.journal)) same
      ∙ room in
    let own : journal_of c ≡ ok journal = whole_slice journal in
    (
      c,
      rw (p, j, room') refl,
      own ∙ ap (λ (w : VerifiedWasixCheckpointView). ok w.journal) same,
      into_parts-journal_of c journal own
          ∙ ap (λ (w : VerifiedWasixCheckpointView). ok (w.journal, w.worker_build_sha256)) same,
      ap (λ (w : VerifiedWasixCheckpointView). w.binding) same,
      ap (λ (w : VerifiedWasixCheckpointView). w.artifact_sha256) same,
    )
