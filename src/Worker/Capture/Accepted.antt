-- ===== src/Worker/Capture/Accepted.antt =====
-- src/wasix_worker.rs: the captures that the parent takes from a worker.
use mathlib.Core.Path.{subst}
use wasm_runtime.Base.{◌≡◌, ◌↔◌, refl, sym, ap, ◌∙◌, Bytes, Option, true, ◌++◌, length, ◌<◌, arith}
use wasm_runtime.Base.Words.{AllBytes, AllBytes-append_left, AllBytes-append_right, to_be_bytes}
use wasm_runtime.Checkpoint.Accepted.{scan_journal_iff}
use wasm_runtime.Checkpoint.Binding.{
  WasixCheckpointBinding, validate, validate_iff, validate_sha256, validate_sha256_iff, IsCanonical,
  IsSha256,
}
use wasm_runtime.Checkpoint.Journal.{scan_journal}
use wasm_runtime.Checkpoint.Journal.Accepts.{IsJournal}
use wasm_runtime.Checkpoint.Seal.{CapturedWasixJournal, from_attested_worker_capture}
use wasm_runtime.Failure.{ok, ok-injective, >>-eq-ok, usize_end}
use wasm_runtime.Worker.Capture.{
  captured, ExitStatus, Crates, CaptureOutput, WasixCheckpointCapture,
  collect_checkpoint_capture_output, receive_capture,
}
use wasm_runtime.Worker.Capture.Received.{
  Delivers, HasMemory, ExitsCleanly, or_fail_bind, captured_bind, captured-injective,
  collect_checkpoint_capture_output-Delivers, Delivers-collect_checkpoint_capture_output,
}
use wasm_runtime.Worker.Frames.{Pipe}
use wasm_runtime.Worker.Frames.Framed.{framed}

abbrev attested : Bytes → WasixCheckpointBinding → Bytes → CapturedWasixJournal
attested journal binding worker_build_sha256 = record {
  bytes = journal;
  binding = binding;
  worker_build_sha256 = worker_build_sha256;
  explicit_snapshot = true;
}

from_attested_worker_capture_iff :
    (journal : Bytes) (binding : WasixCheckpointBinding) (worker : Bytes) (c : CapturedWasixJournal)
    → AllBytes journal
    → length journal < usize_end
    → (from_attested_worker_capture journal binding worker ≡ ok c) ↔ (
        IsCanonical binding
        × IsSha256 worker
        × IsJournal journal
        × (c ≡ attested journal binding worker))
unfolding from_attested_worker_capture
from_attested_worker_capture_iff journal binding worker c all_bytes small = (
  λ e.
      (let (e1, h1) = >>-eq-ok (validate binding) _ e in
        let (e2, h2) = >>-eq-ok (validate_sha256 "captured worker build digest" worker) _ h1 in
        let (e3, h3) = >>-eq-ok (scan_journal journal) _ h2 in
        (
          (validate_iff binding).0 e1,
          (validate_sha256_iff "captured worker build digest" worker).0 e2,
          (scan_journal_iff journal all_bytes small).0 e3,
          sym (ok-injective h3),
        )),
  λ (canonical, digest, lifecycle, same).
      rw
        (
          (validate_iff binding).1 canonical,
          (validate_sha256_iff "captured worker build digest" worker).1 digest,
          (scan_journal_iff journal all_bytes small).1 lifecycle,
          same,
        )
        refl,
)

abbrev capture_of : WasixCheckpointBinding → Bytes → CaptureOutput → WasixCheckpointCapture
capture_of binding worker_build_sha256 out = record {
  binding = binding;
  stdout = out.stdout;
  stderr = out.stderr;
  journal_sha256 = out.completion.journal_sha256;
  journal = attested out.journal binding worker_build_sha256;
}

module _ (x : Crates) where
  -- The output of a worker that makes up a capture.
  pub record IsReceived (binding : WasixCheckpointBinding) (worker_build_sha256 : Bytes)
      (waited : Option ExitStatus) (pipe : Pipe) (capture : WasixCheckpointCapture) : Type 0 where
    pub out : CaptureOutput
    pub delivers : Delivers x pipe out
    pub exits : ExitsCleanly waited
    pub canonical : IsCanonical binding
    pub build_digest : IsSha256 worker_build_sha256
    pub lifecycle : IsJournal out.journal
    pub given : capture ≡ capture_of binding worker_build_sha256 out

  Delivers-AllBytes :
      (pipe : Pipe) (out : CaptureOutput)
      → AllBytes pipe.bytes
      → Delivers x pipe out
      → AllBytes out.journal
  Delivers-AllBytes pipe out all_bytes d =
      AllBytes-append_right (to_be_bytes 4 (length out.journal)) out.journal (
        AllBytes-append_left (framed out.journal) (framed out.stdout ++ framed out.stderr)
          (AllBytes-append_right (framed d.frame) _ (subst AllBytes d.bytes all_bytes)))

  -- Behind the acknowledgement of a worker, and if no timeout comes before the end, the parent takes a
  -- capture exactly if the worker wrote four frames and nothing behind them, and then exited with
  -- code 0: a completion of at most 16 KiB, a journal of at most 512 MiB, neither empty, and two
  -- outputs of at most 64 KiB; the completion parses, has exit code 0 and announces the lengths and
  -- digests of the other three; the binding and the digest of the worker's build are canonical; and
  -- the journal has a complete lifecycle. The capture holds that journal under that binding and
  -- digest, and the two outputs. The output is of bytes, and there is memory for the frames.
  pub receive_capture_iff :
      (binding : WasixCheckpointBinding) (worker_build_sha256 : Bytes) (waited : Option ExitStatus)
      (pipe : Pipe) (capture : WasixCheckpointCapture)
      → HasMemory x
      → AllBytes pipe.bytes
      → (receive_capture x binding worker_build_sha256 waited pipe ≡ captured capture)
        ↔ IsReceived binding worker_build_sha256 waited pipe capture
  unfolding receive_capture
  receive_capture_iff binding worker waited pipe capture memory all_bytes = (
    λ h.
        (let (out, collected, h1) =
            captured_bind (collect_checkpoint_capture_output x waited pipe) _ h in
          let (journal, made, h2) =
            or_fail_bind (from_attested_worker_capture out.journal binding worker) _ _ h1 in
          let (d, exits) =
            collect_checkpoint_capture_output-Delivers x waited pipe out all_bytes collected in
          let (canonical, digest, lifecycle, same) =
            (from_attested_worker_capture_iff out.journal binding worker journal
                (Delivers-AllBytes pipe out all_bytes d) (omega (arith, d.journal_bounded))).0
              made in
          record {
            out = out;
            delivers = d;
            exits = exits;
            canonical = canonical;
            build_digest = digest;
            lifecycle = lifecycle;
            given =
                sym (captured-injective h2)
                ∙ ap (λ j. record (capture_of binding worker out) { journal = j }) same;
          }),
    λ r.
        (let collected =
            Delivers-collect_checkpoint_capture_output x waited pipe r.out memory r.delivers
              r.exits in
          let made =
            (from_attested_worker_capture_iff r.out.journal binding worker
                (attested r.out.journal binding worker)
                (Delivers-AllBytes pipe r.out all_bytes r.delivers)
                (omega (arith, r.delivers.journal_bounded))).1
              (r.canonical, r.build_digest, r.lifecycle, refl) in
          rw (collected, made) (ap captured (sym r.given))),
  )
