-- ===== src/Worker/Capture/Received.antt =====
-- src/wasix_worker.rs: which captures are received.
use mathlib.Core.Path.{subst}
use wasm_runtime.Base.{
  ℕ, ◌≤◌, ◌<◌, Bool, true, false, Option, none, some, String, [], ◌++◌, Bytes, length, ◌≡◌, ◌↔◌,
  refl, sym, ap, ◌∙◌, inl, inr, arith, append-nil, Option-cases,
}
use wasm_runtime.Base.Words.{AllBytes, AllBytes-append_right}
use wasm_runtime.Failure.{err, Result, ok, panic, stuck}
use wasm_runtime.Failure.Phases.{pos}
use wasm_runtime.Worker.Capture.{
  Captured, refused, captured, ◌>>=◌, or_fail, some_or, CaptureOperationFailure, ExitStatus, Crates,
  CaptureOutput, success, finish_checkpoint_capture_output, collect_checkpoint_capture_output,
}
use wasm_runtime.Worker.Frames.{
  Pipe, read_frame, read_bounded_worker_frame, max_handshake_bytes,
  wasix_worker_max_checkpoint_bytes, wasix_worker_max_restore_output_bytes,
}
use wasm_runtime.Worker.Frames.Framed.{
  framed, IsFramed, IsFramed-read_bounded_worker_frame, read_bounded_worker_frame_iff,
}
use wasm_runtime.Worker.Matching.{zero_iff, IsCompleted, validate_capture_completion_iff}
use wasm_runtime.Worker.Messages.{validate_capture_completion}

-- A bound on a binding, by its outcome.
pub or_fail_bind :
    {A B : Type 0} (first : Result A) (f : CaptureOperationFailure) (next : A → Captured B)
    {last : B}
    → (or_fail first f >>= next) ≡ captured last
    → (a : A) × (first ≡ ok a) × (next a ≡ captured last)
or_fail_bind (ok a) f next e = (a, refl, e)
or_fail_bind (err g) f next e = cc
or_fail_bind panic f next e = cc
or_fail_bind stuck f next e = cc

some_or_bind :
    {A B : Type 0} (first : Option A) (f : CaptureOperationFailure) (next : A → Captured B)
    {last : B}
    → (some_or first f >>= next) ≡ captured last
    → (a : A) × (first ≡ some a) × (next a ≡ captured last)
some_or_bind (some a) f next e = (a, refl, e)
some_or_bind none f next e = cc

pub captured_bind :
    {A B : Type 0} (first : Captured A) (next : A → Captured B) {last : B}
    → (first >>= next) ≡ captured last
    → (a : A) × (first ≡ captured a) × (next a ≡ captured last)
captured_bind (captured a) next e = (a, refl, e)
captured_bind (refused f) next e = cc

pub captured-injective : {A : Type 0} {a b : A} → captured a ≡ captured b → a ≡ b
captured-injective e = cc

four_frames :
    {b0 b1 b2 b3 b4 : Bytes} (frame journal stdout stderr : Bytes)
    → b0 ≡ framed frame ++ b1
    → b1 ≡ framed journal ++ b2
    → b2 ≡ framed stdout ++ b3
    → b3 ≡ framed stderr ++ b4
    → b4 ≡ []
    → b0 ≡ framed frame ++ (framed journal ++ (framed stdout ++ framed stderr))
four_frames frame journal stdout stderr e1 e2 e3 e4 e5 =
    let last = e4 ∙ ap (λ b. framed stderr ++ b) e5 ∙ append-nil (framed stderr) in
    e1
    ∙ ap (λ b. framed frame ++ b)
        (e2 ∙ ap (λ b. framed journal ++ b) (e3 ∙ ap (λ b. framed stdout ++ b) last))

-- The worker exited by itself with code 0.
abbrev pub ExitsCleanly : Option ExitStatus → Type 0
ExitsCleanly waited = (status : ExitStatus) × (waited ≡ some status) × (status.code ≡ some (pos 0))

finish_checkpoint_capture_output_iff :
    (waited : Option ExitStatus) (pipe : Pipe)
    → (finish_checkpoint_capture_output waited pipe ≡ captured tt)
      ↔ ((pipe.bytes ≡ []) × (pipe.broken ≡ none) × ExitsCleanly waited)
unfolding finish_checkpoint_capture_output success
finish_checkpoint_capture_output_iff waited pipe = (
  λ h. elim (Option-cases waited) [
    | inl lost ↦ ground arith
    | inr (status, there) ↦ elim (Option-cases status.code) [
      | inl killed ↦ ground arith
      | inr (code, exited) ↦
          (let zero_code = (zero_iff code).0 (ground arith) in
            (ground arith, ground arith, (status, there, exited ∙ ap some zero_code)))
    ]
  ],
  λ (empty, whole, exits).
      (let (status, there, zero_code) = exits in ground (arith, empty, whole, there, zero_code)),
)

module _ (x : Crates) where
  -- The four frames of a capture, and nothing behind them.
  pub record Delivers (pipe : Pipe) (out : CaptureOutput) : Type 0 where
    pub frame : Bytes
    pub bytes :
        pipe.bytes
        ≡ framed frame ++ (framed out.journal ++ (framed out.stdout ++ framed out.stderr))
    pub whole : pipe.broken ≡ none
    pub frame_nonempty : 0 < length frame
    pub frame_bounded : length frame ≤ 16384
    pub journal_nonempty : 0 < length out.journal
    pub journal_bounded : length out.journal ≤ 536870912
    pub stdout_bounded : length out.stdout ≤ 65536
    pub stderr_bounded : length out.stderr ≤ 65536
    pub parsed : x.completion_from_slice frame ≡ some out.completion
    pub completed : IsCompleted x.digest_text out.completion out.journal out.stdout out.stderr

  -- There is memory for whatever a frame may hold.
  abbrev pub HasMemory : Type 0
  HasMemory = (n : ℕ) → n ≤ wasix_worker_max_checkpoint_bytes → x.try_reserve_exact n ≡ none

  IsFramed-AllBytes :
      (maximum : ℕ) (allow_empty : Bool) (pipe rest : Pipe) (frame : Bytes)
      → AllBytes pipe.bytes
      → IsFramed x.try_reserve_exact maximum allow_empty pipe frame rest
      → AllBytes rest.bytes
  IsFramed-AllBytes maximum allow_empty pipe rest frame all_bytes i =
      AllBytes-append_right (framed frame) rest.bytes (subst AllBytes i.first all_bytes)

  pub collect_checkpoint_capture_output-Delivers :
      (waited : Option ExitStatus) (pipe : Pipe) (out : CaptureOutput)
      → AllBytes pipe.bytes
      → collect_checkpoint_capture_output x waited pipe ≡ captured out
      → Delivers pipe out × ExitsCleanly waited
  unfolding collect_checkpoint_capture_output read_frame
  collect_checkpoint_capture_output-Delivers waited pipe out all_bytes h =
      let ((frame, p1), e1, h1) = or_fail_bind (read_frame x.try_reserve_exact pipe) _ _ h in
      let (completion, e2, h2) = some_or_bind (x.completion_from_slice frame) _ _ h1 in
      let ((journal, p2), e3, h3) =
        or_fail_bind
          (read_bounded_worker_frame x.try_reserve_exact wasix_worker_max_checkpoint_bytes false
            "capture journal" p1)
          _ _ h2 in
      let ((stdout, p3), e4, h4) =
        or_fail_bind
          (read_bounded_worker_frame x.try_reserve_exact wasix_worker_max_restore_output_bytes true
            "capture stdout" p2)
          _ _ h3 in
      let ((stderr, p4), e5, h5) =
        or_fail_bind
          (read_bounded_worker_frame x.try_reserve_exact wasix_worker_max_restore_output_bytes true
            "capture stderr" p3)
          _ _ h4 in
      let (u, e6, h6) =
        or_fail_bind (validate_capture_completion x.digest_text completion journal stdout stderr) _
          _ h5 in
      let (v, e7, h7) = captured_bind (finish_checkpoint_capture_output waited p4) _ h6 in
      let i1 =
        (read_bounded_worker_frame_iff x.try_reserve_exact max_handshake_bytes false "worker frame"
            pipe p1 frame (omega arith) all_bytes).0
          e1 in
      let a1 = IsFramed-AllBytes _ _ pipe p1 frame all_bytes i1 in
      let i2 =
        (read_bounded_worker_frame_iff x.try_reserve_exact wasix_worker_max_checkpoint_bytes false
            "capture journal" p1 p2 journal (omega arith) a1).0
          e3 in
      let a2 = IsFramed-AllBytes _ _ p1 p2 journal a1 i2 in
      let i3 =
        (read_bounded_worker_frame_iff x.try_reserve_exact wasix_worker_max_restore_output_bytes
            true "capture stdout" p2 p3 stdout (omega arith) a2).0
          e4 in
      let a3 = IsFramed-AllBytes _ _ p2 p3 stdout a2 i3 in
      let i4 =
        (read_bounded_worker_frame_iff x.try_reserve_exact wasix_worker_max_restore_output_bytes
            true "capture stderr" p3 p4 stderr (omega arith) a3).0
          e5 in
      let (empty, whole, exits) = (finish_checkpoint_capture_output_iff waited p4).0 e7 in
      let made : CaptureOutput = record {
        completion = completion;
        journal = journal;
        stdout = stdout;
        stderr = stderr;
      } in
      let same : made ≡ out = captured-injective h7 in
      let delivers : Delivers pipe made = record {
        frame = frame;
        bytes = four_frames frame journal stdout stderr i1.first i2.first i3.first i4.first empty;
        whole = sym (i4.same_end ∙ i3.same_end ∙ i2.same_end ∙ i1.same_end) ∙ whole;
        frame_nonempty = i1.nonempty refl;
        frame_bounded = i1.bounded;
        journal_nonempty = i2.nonempty refl;
        journal_bounded = i2.bounded;
        stdout_bounded = i3.bounded;
        stderr_bounded = i4.bounded;
        parsed = e2;
        completed =
            (validate_capture_completion_iff x.digest_text completion journal stdout stderr).0 e6;
      } in
      (subst (Delivers pipe) same delivers, exits)

  IsFramed-read_at :
      (maximum : ℕ) (allow_empty : Bool) (label : String) (pipe rest : Pipe) (frame : Bytes)
      → maximum ≤ wasix_worker_max_checkpoint_bytes
      → HasMemory
      → pipe.bytes ≡ framed frame ++ rest.bytes
      → rest.broken ≡ pipe.broken
      → (allow_empty ≡ false → 0 < length frame)
      → length frame ≤ maximum
      → read_bounded_worker_frame x.try_reserve_exact maximum allow_empty label pipe
        ≡ ok (frame, rest)
  IsFramed-read_at maximum allow_empty label pipe rest frame small memory first end nonempty
        bounded =
      IsFramed-read_bounded_worker_frame x.try_reserve_exact maximum allow_empty label pipe rest
        frame (omega (arith, small))
        (record {
          first = first;
          same_end = end;
          nonempty = nonempty;
          bounded = bounded;
          room = memory (length frame) (omega (arith, small, bounded));
        })

  pub Delivers-collect_checkpoint_capture_output :
      (waited : Option ExitStatus) (pipe : Pipe) (out : CaptureOutput)
      → HasMemory
      → Delivers pipe out
      → ExitsCleanly waited
      → collect_checkpoint_capture_output x waited pipe ≡ captured out
  unfolding collect_checkpoint_capture_output read_frame
  Delivers-collect_checkpoint_capture_output waited pipe out memory d exits =
      let p1 : Pipe = record {
        bytes = framed out.journal ++ (framed out.stdout ++ framed out.stderr);
        broken = pipe.broken;
      } in
      let p2 : Pipe = record p1 { bytes = framed out.stdout ++ framed out.stderr } in
      let p3 : Pipe = record p1 { bytes = framed out.stderr } in
      let p4 : Pipe = record p1 { bytes = [] } in
      let r1 =
        IsFramed-read_at max_handshake_bytes false "worker frame" pipe p1 d.frame (omega arith)
          memory d.bytes refl (λ e. d.frame_nonempty) d.frame_bounded in
      let r2 =
        IsFramed-read_at wasix_worker_max_checkpoint_bytes false "capture journal" p1 p2 out.journal
          (omega arith) memory refl refl (λ e. d.journal_nonempty) d.journal_bounded in
      let r3 =
        IsFramed-read_at wasix_worker_max_restore_output_bytes true "capture stdout" p2 p3
          out.stdout (omega arith) memory refl refl (λ e. absurd cc) d.stdout_bounded in
      let r4 =
        IsFramed-read_at wasix_worker_max_restore_output_bytes true "capture stderr" p3 p4
          out.stderr (omega arith) memory (sym (append-nil (framed out.stderr))) refl
          (λ e. absurd cc) d.stderr_bounded in
      let valid =
        (validate_capture_completion_iff x.digest_text out.completion out.journal out.stdout
            out.stderr).1
          d.completed in
      let finished = (finish_checkpoint_capture_output_iff waited p4).1 (refl, d.whole, exits) in
      rw (r1, d.parsed, r2, r3, r4, valid, finished) refl
