-- ===== src/Tests/Checkpoint.antt =====
-- The theorems on src/checkpoint.rs at one captured journal.
use wasm_runtime.Base.{◌≡◌, ◌↔◌, refl, List, [], ◌∷◌, ◌++◌, arith, length, take, drop}
use wasm_runtime.Base.Words.{to_be_bytes}
use wasm_runtime.Failure.{ok}
use wasm_runtime.Checkpoint.Binding.{validate, IsCanonical, validate_iff}
use wasm_runtime.Checkpoint.Journal.{scan_journal}
use wasm_runtime.Checkpoint.Metadata.{digest_text}
use wasm_runtime.Checkpoint.Codec.{header_bytes}
use wasm_runtime.Checkpoint.Seal.{vec_writer, check_binding}
use wasm_runtime.Checkpoint.Writing.{seal_capture, seal, seal_capture_into}
use wasm_runtime.Checkpoint.Writing.Sealed.{view_of}
use wasm_runtime.Checkpoint.RoundTrip.{seal-fits, verify-seal, seal_capture_into-vec}
use wasm_runtime.Checkpoint.Verify.{verify}
use wasm_runtime.Checkpoint.Verify.Assembled.{assemble}
use wasm_runtime.Checkpoint.Accepted.{IsAccepted, verify_iff}
use wasm_runtime.Tests.Crates.{toy, toy-IsDocumented}
use wasm_runtime.Checkpoint.Accepted.{scan_journal_iff}
use wasm_runtime.Checkpoint.Journal.Accepts.{IsJournal}
use wasm_runtime.Checkpoint.Verify.{VerifiedWasixCheckpoint, open_artifact, journal_of, into_parts}
use wasm_runtime.Checkpoint.Verify.Returning.{verify-Returns}
use wasm_runtime.Checkpoint.Verify.Views.{open_artifact-verify}
use wasm_runtime.Checkpoint.Reading.{ReadEvent, bytes_ready, interrupted, open_reader}
use wasm_runtime.Checkpoint.Reading.Delivered.{IsClean, delivered}
use wasm_runtime.Checkpoint.Reading.Opened.{open_reader-verify}
use wasm_runtime.Failure.{Returns}
use wasm_runtime.Base.{take-append-drop, append-nil, ap, ◌∙◌, List, [], ◌∷◌, ◌++◌, take, drop}
use wasm_runtime.Base.Words.{to_be_bytes}
use wasm_runtime.Checkpoint.Codec.{header_bytes}
use wasm_runtime.Checkpoint.Seal.{check_binding}
use wasm_runtime.Checkpoint.Writing.{seal}
use wasm_runtime.Failure.{>>-eq-ok}
use wasm_runtime.Checkpoint.Verify.Assembled.{assemble}
use wasm_runtime.Tests.Capture.{
  small_journal, small_journal_bytes, binding, worker, captured, codec, artifact, artifact_bytes,
  capture, sizes, sealing, accepted, journal_length,
}

seal-fits_example : seal toy codec binding captured ≡ ok artifact
seal-fits_example =
    seal-fits toy toy-IsDocumented codec small_journal binding worker captured (λ n. refl) sizes
      capture

verify-seal_example : verify toy codec binding artifact ≡ ok (view_of toy codec artifact captured)
verify-seal_example =
    verify-seal toy toy-IsDocumented codec small_journal binding worker artifact captured
      (omega arith) capture sealing

verify_iff_example :
    (verify toy codec binding artifact ≡ ok (view_of toy codec artifact captured))
    ↔ IsAccepted toy codec binding artifact (view_of toy codec artifact captured)
verify_iff_example =
    verify_iff toy codec binding toy-IsDocumented artifact (view_of toy codec artifact captured)
      artifact_bytes (omega arith)

scan_journal_iff_example : (scan_journal small_journal ≡ ok tt) ↔ IsJournal small_journal
scan_journal_iff_example =
    scan_journal_iff small_journal small_journal_bytes (omega (arith, journal_length))

validate_iff_example : (validate binding ≡ ok tt) ↔ IsCanonical binding
validate_iff_example = validate_iff binding

seal_capture_sealing : seal_capture toy codec captured ≡ ok artifact
unfolding seal_capture seal
seal_capture_sealing = (>>-eq-ok (check_binding binding captured) _ sealing).1

seal_capture_into-vec_example :
    seal_capture_into vec_writer toy codec captured [] ≡ (artifact, ok (length artifact))
seal_capture_into-vec_example =
    seal_capture_into-vec toy toy-IsDocumented codec captured artifact seal_capture_sealing

verify-Returns_example : Returns (verify toy codec binding artifact)
verify-Returns_example = verify-Returns toy codec binding artifact

open_artifact-verify_example :
    (c : VerifiedWasixCheckpoint) × (open_artifact toy codec binding artifact ≡ ok c)
    × (journal_of c ≡ ok small_journal)
    × (into_parts c ≡ ok (small_journal, worker))
    × (c.binding ≡ binding)
    × (c.artifact_sha256 ≡ digest_text toy artifact)
open_artifact-verify_example =
    open_artifact-verify toy codec binding artifact (view_of toy codec artifact captured) refl
      accepted

-- The artifact in two pieces, with an interruption between them.
abbrev pieces : List ReadEvent
pieces = bytes_ready (take 10 artifact) ∷ interrupted ∷ bytes_ready (drop 10 artifact) ∷ []

pieces-delivered : delivered pieces ≡ artifact
pieces-delivered =
    ap (λ t. take 10 artifact ++ t) (append-nil (drop 10 artifact)) ∙ take-append-drop 10 artifact

pieces-IsClean : IsClean pieces
unfolding assemble header_bytes to_be_bytes
pieces-IsClean = tt

open_reader-verify_example :
    (c : VerifiedWasixCheckpoint) × (open_reader toy codec binding pieces ≡ ok c)
    × (journal_of c ≡ ok small_journal)
    × (into_parts c ≡ ok (small_journal, worker))
    × (c.bytes ≡ delivered pieces)
    × (c.binding ≡ binding)
    × (c.artifact_sha256 ≡ digest_text toy artifact)
open_reader-verify_example =
    open_reader-verify toy codec binding pieces (view_of toy codec artifact captured) pieces-IsClean
      refl (ap (verify toy codec binding) pieces-delivered ∙ accepted)
