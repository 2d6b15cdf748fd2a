-- ===== src/Checkpoint/Reading/Opened.antt =====
-- src/checkpoint.rs: `open_reader` beside `verify`.
use wasm_runtime.Base.{
  ℕ, ◌-◌, ◌≤◌, ◌≡◌, refl, sym, ap, ◌∙◌, none, List, [], arith, Bytes, length, length-drop, drop_all,
  take, drop, take_all, take-append-drop,
}
use wasm_runtime.Failure.{ok, >>=-eq-ok, >>-eq-ok, ok-injective}
use wasm_runtime.Slices.{slice}
use wasm_runtime.Checkpoint.Binding.{WasixCheckpointBinding, validate}
use wasm_runtime.Checkpoint.Metadata.{External}
use wasm_runtime.Checkpoint.Codec.{
  WasixCheckpointCodec, CheckpointArtifactLayout, validate_limit, maximum_artifact_bytes,
  validate_header,
}
use wasm_runtime.Checkpoint.Verify.{
  VerifiedCheckpointParts, VerifiedWasixCheckpoint, VerifiedWasixCheckpointView, verify,
  verify_parts, journal_of, into_parts,
}
use wasm_runtime.Checkpoint.Verify.Stages.{verify_parts-passed, verify_tag-passed}
use wasm_runtime.Checkpoint.Verify.Views.{into_parts-journal_of}
use wasm_runtime.Checkpoint.Reading.{
  ReadEvent, finish_reading, body_len, open_reader, read_body, reserve_read,
}
use wasm_runtime.Checkpoint.Reading.Delivered.{
  IsClean, delivered, ReadExactly, read_checkpoint_exact-delivered,
  read_checkpoint_trailing_byte-clean,
}

module _ (x : External) (codec : WasixCheckpointCodec) (expected : WasixCheckpointBinding) where
  -- The value that owns the whole artifact.
  abbrev pub owned : Bytes → VerifiedCheckpointParts → VerifiedWasixCheckpoint
  owned artifact parts = record {
    binding = parts.binding;
    bytes = artifact;
    journal = parts.journal;
    artifact_sha256 = parts.artifact_sha256;
    worker_build_sha256 = parts.worker_build_sha256;
  }

  -- The exact size of an artifact that passes.
  record Sized (artifact : Bytes) : Type 0 where
    layout : CheckpointArtifactLayout
    maximum : ℕ
    limited : validate_limit codec ≡ ok tt
    valid : validate expected ≡ ok tt
    largest : maximum_artifact_bytes codec ≡ ok maximum
    header : validate_header codec (take 22 artifact) ≡ ok layout
    size : length artifact ≡ layout.artifact_len
    long : 54 ≤ length artifact

  sized :
      (artifact : Bytes) (parts : VerifiedCheckpointParts)
      → verify_parts x codec expected artifact ≡ ok parts
      → Sized artifact
  unfolding verify_parts
  sized artifact parts e =
      let (layout, long, header_ok, tag_ok, c) =
        verify_parts-passed x codec expected artifact parts e in
      let (e1, h1) = >>-eq-ok (validate_limit codec) _ e in
      let (e2, h2) = >>-eq-ok (validate expected) _ h1 in
      let (maximum, e3, h3) = >>=-eq-ok (maximum_artifact_bytes codec) _ h2 in
      record {
        layout = layout;
        maximum = maximum;
        limited = e1;
        valid = e2;
        largest = e3;
        header = header_ok;
        size = (verify_tag-passed x codec expected artifact layout tag_ok).0;
        long = long;
      }

  finish_reading-clean :
      (maximum artifact_len : ℕ) (artifact : Bytes) (events : List ReadEvent)
      (parts : VerifiedCheckpointParts)
      → IsClean events
      → delivered events ≡ []
      → verify_parts x codec expected artifact ≡ ok parts
      → finish_reading x codec expected maximum artifact_len artifact events
        ≡ ok (owned artifact parts)
  unfolding finish_reading
  finish_reading-clean maximum artifact_len artifact events parts c e v =
      rw (read_checkpoint_trailing_byte-clean events c e, v) refl

  reserved : (n : ℕ) → x.try_reserve_exact n ≡ none → reserve_read x codec n ≡ ok tt
  unfolding reserve_read
  reserved n room = ground arith

  body_of : (n : ℕ) → 22 ≤ n → body_len n ≡ ok (n - 22)
  unfolding body_len
  body_of n h = ground arith

  read_body-clean :
      (maximum artifact_len : ℕ) (artifact : Bytes) (events : List ReadEvent)
      (parts : VerifiedCheckpointParts)
      → ReadExactly "body" (artifact_len - 22) events
      → 22 ≤ artifact_len
      → length artifact ≡ artifact_len
      → delivered events ≡ drop 22 artifact
      → x.try_reserve_exact artifact_len ≡ none
      → verify_parts x codec expected artifact ≡ ok parts
      → read_body x codec expected maximum (take 22 artifact) events artifact_len
        ≡ ok (owned artifact parts)
  unfolding read_body
  read_body-clean maximum artifact_len artifact events parts q fits size e room v =
      let body : take (artifact_len - 22) (delivered events) ≡ drop 22 artifact =
        ap (take (artifact_len - 22)) e
        ∙ take_all (artifact_len - 22) (drop 22 artifact)
            (omega (arith, length-drop 22 artifact)) in
      let nothing : delivered q.rest ≡ [] =
        q.left
        ∙ drop_all (artifact_len - 22) (delivered events)
            (omega (arith, ap length e, length-drop 22 artifact)) in
      rw
        (
          reserved artifact_len room,
          body_of artifact_len fits,
          q.got,
          body,
          take-append-drop 22 artifact,
        )
        (finish_reading-clean maximum artifact_len artifact q.rest parts q.clean nothing v)

  opened :
      (events : List ReadEvent) (artifact : Bytes) (parts : VerifiedCheckpointParts)
      (s : Sized artifact)
      → ReadExactly "header" 22 events
      → delivered events ≡ artifact
      → x.try_reserve_exact (length artifact) ≡ none
      → verify_parts x codec expected artifact ≡ ok parts
      → open_reader x codec expected events ≡ ok (owned artifact parts)
  unfolding open_reader
  opened events artifact parts s r e room v =
      let behind : delivered r.rest ≡ drop 22 artifact = r.left ∙ ap (drop 22) e in
      let sz = s.size in
      let q =
        read_checkpoint_exact-delivered "body" (s.layout.artifact_len - 22) r.rest r.clean
          (omega (arith, ap length behind, length-drop 22 artifact)) in
      rw (s.limited, s.valid, s.largest, r.got, e, s.header)
        (read_body-clean s.maximum s.layout.artifact_len artifact r.rest parts q
          (omega (arith, s.long)) s.size behind (ap x.try_reserve_exact (sym s.size) ∙ room) v)

  -- A reader without errors that delivers an artifact which `verify` accepts, in whatever pieces and
  -- with whatever interruptions: if the one allocation succeeds, `open_reader` accepts it too, and
  -- what it returns exposes and hands over the journal and the worker digest that `verify` returns.
  pub open_reader-verify :
      (events : List ReadEvent) (v : VerifiedWasixCheckpointView)
      → IsClean events
      → x.try_reserve_exact (length (delivered events)) ≡ none
      → verify x codec expected (delivered events) ≡ ok v
      → (c : VerifiedWasixCheckpoint) × (open_reader x codec expected events ≡ ok c)
        × (journal_of c ≡ ok v.journal)
        × (into_parts c ≡ ok (v.journal, v.worker_build_sha256))
        × (c.bytes ≡ delivered events)
        × (c.binding ≡ v.binding)
        × (c.artifact_sha256 ≡ v.artifact_sha256)
  unfolding verify journal_of
  open_reader-verify events v clean room e =
      let artifact = delivered events in
      let (parts, p, h) = >>=-eq-ok (verify_parts x codec expected artifact) _ e in
      let (journal, j, k) = >>=-eq-ok (slice artifact parts.journal.start parts.journal.stop) _ h in
      let s = sized artifact parts p in
      let r = read_checkpoint_exact-delivered "header" 22 events clean (omega (arith, s.long)) in
      let same = ok-injective k in
      (
        owned artifact parts,
        opened events artifact parts s r refl room p,
        j ∙ ap (λ (w : VerifiedWasixCheckpointView). ok w.journal) same,
        into_parts-journal_of (owned artifact parts) journal j
            ∙ ap (λ (w : VerifiedWasixCheckpointView). ok (w.journal, w.worker_build_sha256)) same,
        refl,
        ap (λ (w : VerifiedWasixCheckpointView). w.binding) same,
        ap (λ (w : VerifiedWasixCheckpointView). w.artifact_sha256) same,
      )
