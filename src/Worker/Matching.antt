-- ===== src/Worker/Matching.antt =====
-- src/wasix_worker.rs: the completions and the fields of requests that are valid.
use wasm_runtime.Base.{
  ℕ, ◌^◌, ◌≤◌, ◌<◌, ◌≡◌, ◌↔◌, refl, sym, ap, ◌∙◌, true, false, none, List, [], ◌∷◌, All, arith,
  Bytes, length, any, ◌==◌, equal, equal→eq, equal_refl,
}
use wasm_runtime.Failure.{ok}
use wasm_runtime.Failure.Phases.{ℤ, pos, negsuc}
use wasm_runtime.Worker.Messages.{
  WasixCheckpointCaptureCompletion, WasixCheckpointCaptureRequest, is_zero, matches,
  validate_capture_completion, validate_capture_value, validate_arguments, validate_environment,
  validate_request,
}

pub zero_iff : (z : ℤ) → (is_zero z ≡ true) ↔ (z ≡ pos 0)
zero_iff (pos n) = (λ h. ground arith, λ h. ground arith)
zero_iff (negsuc n) = (λ h. cc, λ h. cc)

module _ (digest_text : Bytes → Bytes) where
  -- The announced length and digest are those of the bytes.
  pub record Announces (bytes : Bytes) (announced : ℕ) (sha256 : Bytes) : Type 0 where
    pub counted : length bytes < 2 ^ 64
    pub size : announced ≡ length bytes
    pub digest : sha256 ≡ digest_text bytes

  matches-Announces :
      (bytes : Bytes) (n : ℕ) (sha256 : Bytes)
      → matches digest_text bytes n sha256 ≡ true
      → Announces bytes n sha256
  matches-Announces bytes n sha256 h = record {
    counted = ground arith;
    size = ground arith;
    digest = sym (equal→eq (digest_text bytes) sha256 (ground arith));
  }

  Announces-matches :
      (bytes : Bytes) (n : ℕ) (sha256 : Bytes)
      → Announces bytes n sha256
      → matches digest_text bytes n sha256 ≡ true
  Announces-matches bytes n sha256 a =
      let same : equal (digest_text bytes) sha256 ≡ true =
        ap (equal (digest_text bytes)) a.digest ∙ equal_refl (digest_text bytes) in
      ground arith

  pub record IsCompleted (c : WasixCheckpointCaptureCompletion) (journal stdout stderr : Bytes)
      : Type 0 where
    pub exit : c.exit_code ≡ pos 0
    pub journal_announced : Announces journal c.journal_bytes c.journal_sha256
    pub stdout_announced : Announces stdout c.stdout_bytes c.stdout_sha256
    pub stderr_announced : Announces stderr c.stderr_bytes c.stderr_sha256

  -- The validation of a completion passes exactly when it has exit code 0 and the lengths and digests
  -- that it announces are those of the given journal and outputs.
  pub validate_capture_completion_iff :
      (c : WasixCheckpointCaptureCompletion) (journal stdout stderr : Bytes)
      → (validate_capture_completion digest_text c journal stdout stderr ≡ ok tt)
        ↔ IsCompleted c journal stdout stderr
  unfolding validate_capture_completion
  validate_capture_completion_iff c journal stdout stderr = (
    λ e. record {
      exit = (zero_iff c.exit_code).0 (ground arith);
      journal_announced = matches-Announces journal c.journal_bytes c.journal_sha256 (ground arith);
      stdout_announced = matches-Announces stdout c.stdout_bytes c.stdout_sha256 (ground arith);
      stderr_announced = matches-Announces stderr c.stderr_bytes c.stderr_sha256 (ground arith);
    },
    λ i.
        let e = (zero_iff c.exit_code).1 i.exit in
        let j = Announces-matches journal c.journal_bytes c.journal_sha256 i.journal_announced in
        let o = Announces-matches stdout c.stdout_bytes c.stdout_sha256 i.stdout_announced in
        let r = Announces-matches stderr c.stderr_bytes c.stderr_sha256 i.stderr_announced in
        rw (e, j, o, r) refl,
  )

-- A value of a bounded length without NUL.
pub record IsValue (maximum : ℕ) (value : Bytes) : Type 0 where
  pub bounded : length value ≤ maximum
  pub no_nul : any (λ b. b == 0) value ≡ false

pub record IsEntry (entry : Bytes × Bytes) : Type 0 where
  pub nonempty : 0 < length entry.0
  pub no_equals : any (λ b. b == b'=') entry.0 ≡ false
  pub key : IsValue 256 entry.0
  pub value : IsValue 4096 entry.1

pub record IsRequest (r : WasixCheckpointCaptureRequest) : Type 0 where
  pub few_arguments : length r.arguments ≤ 256
  pub few_entries : length r.environment ≤ 256
  pub arguments : All (IsValue 4096) r.arguments
  pub environment : All IsEntry r.environment

arguments_sound : (vs : List Bytes) → validate_arguments vs ≡ none → All (IsValue 4096) vs
unfolding validate_arguments validate_capture_value
arguments_sound [] e = tt
arguments_sound (v ∷ vs) e =
    (record { bounded = ground arith; no_nul = ground arith }, arguments_sound vs (ground arith))

arguments_complete : (vs : List Bytes) → All (IsValue 4096) vs → validate_arguments vs ≡ none
unfolding validate_arguments validate_capture_value
arguments_complete [] a = refl
arguments_complete (v ∷ vs) a =
    let rest = arguments_complete vs a.1 in let h = a.0 in ground (arith, h.bounded, h.no_nul)

environment_sound : (es : List (Bytes × Bytes)) → validate_environment es ≡ none → All IsEntry es
unfolding validate_environment validate_capture_value
environment_sound [] e = tt
environment_sound ((k, v) ∷ es) e = (
  record {
    nonempty = ground arith;
    no_equals = ground arith;
    key = record { bounded = ground arith; no_nul = ground arith };
    value = record { bounded = ground arith; no_nul = ground arith };
  },
  environment_sound es (ground arith),
)

environment_complete : (es : List (Bytes × Bytes)) → All IsEntry es → validate_environment es ≡ none
unfolding validate_environment validate_capture_value
environment_complete [] a = refl
environment_complete ((k, v) ∷ es) a =
    let rest = environment_complete es a.1 in
    let h = a.0 in
    ground
      (arith, h.nonempty, h.no_equals, h.key.bounded, h.key.no_nul, h.value.bounded, h.value.no_nul)

-- The validation of the fields of a request passes exactly when it has at most 256 arguments and 256
-- environment entries, its arguments and values have at most 4096 bytes and its keys 1 to 256, none
-- holds a NUL byte, and no key holds an equals sign.
pub validate_request_iff :
    (r : WasixCheckpointCaptureRequest) → (validate_request r ≡ none) ↔ IsRequest r
unfolding validate_request
validate_request_iff r = (
  λ e. record {
    few_arguments = ground arith;
    few_entries = ground arith;
    arguments = arguments_sound r.arguments (ground arith);
    environment = environment_sound r.environment (ground arith);
  },
  λ i.
      let a = arguments_complete r.arguments i.arguments in
      let e = environment_complete r.environment i.environment in
      ground (arith, i.few_arguments, i.few_entries),
)
