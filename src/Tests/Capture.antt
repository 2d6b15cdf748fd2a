-- ===== src/Tests/Capture.antt =====
-- One captured journal for src/checkpoint.rs: a process initialisation, the state of one thread and
-- an explicit snapshot; its binding, its codec and the artifact that seals it.
use wasm_runtime.Base.{ℕ, ◌≡◌, refl, true, [], ◌∷◌, ◌++◌, arith, Bytes, codes, length, equal}
use wasm_runtime.Base.Words.{AllBytes, to_be_bytes, from_be_bytes, from_be_onto}
use wasm_runtime.Base.Ascii.{strip_prefix}
use wasm_runtime.Failure.{ok, checked_add}
use wasm_runtime.Slices.{slice, usize_try_from}
use wasm_runtime.Checkpoint.Binding.{
  WasixCheckpointBinding, validate, validate_sha256, validate_prefixed_sha256, validate_token,
}
use wasm_runtime.Checkpoint.Journal.{
  journal_magic, is_known_journal_record_type, is_zero_sized_journal_record_type, scan_journal,
  scan_loop, scan_record, count_record, check_lifecycle,
}
use wasm_runtime.Checkpoint.Metadata.{concat, current, checkpoint_platform}
use wasm_runtime.Checkpoint.Codec.{WasixCheckpointCodec, header_bytes}
use wasm_runtime.Checkpoint.Seal.{CapturedWasixJournal, from_attested_worker_capture}
use wasm_runtime.Checkpoint.Writing.{seal}
use wasm_runtime.Checkpoint.Writing.Sealed.{view_of}
use wasm_runtime.Checkpoint.RoundTrip.{seal-fits, verify-seal}
use wasm_runtime.Checkpoint.Verify.{verify}
use wasm_runtime.Checkpoint.Codec.Header.{Fits}
use wasm_runtime.Checkpoint.Verify.Assembled.{assemble}
use wasm_runtime.Tests.Crates.{toy, toy-IsDocumented, repeated, all→AllBytes}

abbrev record_bytes : ℕ → Bytes → Bytes
record_bytes kind body = to_be_bytes 2 kind ++ (to_be_bytes 6 (length body) ++ body)

abbrev pub small_journal : Bytes
small_journal =
    journal_magic
    ++ (record_bytes 1 (7 ∷ 8 ∷ []) ++ (record_bytes 3 (9 ∷ []) ++ record_bytes 59 (5 ∷ [])))

pub small_journal_scans : scan_journal small_journal ≡ ok tt
unfolding scan_journal scan_loop scan_record count_record check_lifecycle equal from_be_bytes
    from_be_onto to_be_bytes is_known_journal_record_type is_zero_sized_journal_record_type
    usize_try_from checked_add slice
small_journal_scans = refl

abbrev pub binding : WasixCheckpointBinding
binding = record {
  environment_id = codes "sha256:" ++ repeated 64 97;
  module_sha256 = repeated 64 98;
  command = codes "python";
  instance_id = codes "instance-1";
  generation = 3;
}

abbrev pub worker : Bytes
worker = repeated 64 99

abbrev pub captured : CapturedWasixJournal
captured = record {
  bytes = small_journal;
  binding = binding;
  worker_build_sha256 = worker;
  explicit_snapshot = true;
}

abbrev pub codec : WasixCheckpointCodec
codec = record { authentication_key = repeated 32 7; max_journal_bytes = 4096 }

pub binding_valid : validate binding ≡ ok tt
unfolding validate validate_sha256 validate_prefixed_sha256 validate_token strip_prefix
binding_valid = refl

pub capture : from_attested_worker_capture small_journal binding worker ≡ ok captured
unfolding from_attested_worker_capture validate_sha256
capture = rw (binding_valid, small_journal_scans) refl

abbrev pub metadata : Bytes
metadata = concat (toy.write_metadata (current toy binding worker small_journal))

pub metadata_length : length metadata ≡ 483
unfolding current checkpoint_platform
metadata_length = refl

pub journal_length : length small_journal ≡ 36
unfolding to_be_bytes
journal_length = refl

pub sizes : Fits codec (length metadata) (length small_journal)
sizes =
    rw (metadata_length, journal_length)
      (record {
        metadata_nonempty = omega arith;
        metadata_bounded = omega arith;
        journal_nonempty = omega arith;
        journal_bounded = omega arith;
        no_wrap = omega arith;
      })

abbrev pub artifact : Bytes
artifact = assemble toy codec metadata small_journal

pub sealing : seal toy codec binding captured ≡ ok artifact
sealing =
    seal-fits toy toy-IsDocumented codec small_journal binding worker captured (λ n. refl) sizes
      capture

pub small_journal_bytes : AllBytes small_journal
unfolding to_be_bytes
small_journal_bytes = all→AllBytes small_journal refl

pub artifact_bytes : AllBytes artifact
unfolding assemble header_bytes to_be_bytes current checkpoint_platform
artifact_bytes = all→AllBytes artifact refl

pub accepted : verify toy codec binding artifact ≡ ok (view_of toy codec artifact captured)
accepted =
    verify-seal toy toy-IsDocumented codec small_journal binding worker artifact captured
      (omega arith) capture sealing
