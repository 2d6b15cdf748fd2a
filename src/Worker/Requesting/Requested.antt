-- ===== src/Worker/Requesting/Requested.antt =====
-- src/wasix_worker.rs: the captures for which a worker is started.
use wasm_runtime.Base.{
  ℕ, ◌≤◌, ◌<◌, true, false, [], Bytes, codes, length, any, ◌==◌, equal, equal→eq, equal_refl, ◌≡◌,
  ◌↔◌, refl, sym, ap, ◌∙◌, arith,
}
use wasm_runtime.Failure.{ok, >>=-eq-ok, reject-eq-ok}
use wasm_runtime.Runtime.Input.{CommandInput}
use wasm_runtime.Worker.Matching.{IsRequest, validate_request_iff}
use wasm_runtime.Worker.Messages.{WasixCheckpointCaptureRequest}
use wasm_runtime.Worker.Requesting.{
  WasixWorkerConfig, is_absolute, validate_common, new, Encoded, encoded, encode_request,
  prepare_request,
}

abbrev pub request_of : CommandInput → WasixCheckpointCaptureRequest
request_of input = record { arguments = input.args; environment = input.env }

pub record IsConfigured (config : WasixWorkerConfig) : Type 0 where
  pub absolute : is_absolute config.executable ≡ true
  pub positive : 0 < config.handshake_timeout
  pub short : config.handshake_timeout ≤ 30000000000
  pub few_groups : length config.allowed_supplementary_groups ≤ 64
  pub no_root : any (λ g. g == 0) config.allowed_supplementary_groups ≡ false

validate_common_iff :
    (config : WasixWorkerConfig) → (validate_common config ≡ ok tt) ↔ IsConfigured config
unfolding validate_common
validate_common_iff config = (
  λ h. record {
    absolute = ground arith;
    positive = ground arith;
    short = ground arith;
    few_groups = ground arith;
    no_root = ground arith;
  },
  λ c. ground (arith, c.absolute, c.positive, c.short, c.few_groups, c.no_root),
)

module _ (request_to_vec : WasixCheckpointCaptureRequest → Encoded) where
  pub record IsRequested (config : WasixWorkerConfig) (command wasm_module : Bytes)
      (input : CommandInput) (bytes : Bytes) (execution_timeout : ℕ) : Type 0 where
    pub configured : IsConfigured config
    pub no_input : input.stdin ≡ []
    pub positive : 0 < input.timeout
    pub short : input.timeout ≤ 30000000000
    pub request : IsRequest (request_of input)
    pub live : input.is_cancelled ≡ false
    pub start : command ≡ codes "_start"
    pub module_nonempty : 0 < length wasm_module
    pub module_bounded : length wasm_module ≤ 67108864
    pub encodes : request_to_vec (request_of input) ≡ encoded bytes
    pub nonempty : 0 < length bytes
    pub bounded : length bytes ≤ 65536
    pub same_timeout : execution_timeout ≡ input.timeout

  new_iff :
      (input : CommandInput) (r : WasixCheckpointCaptureRequest) (t : ℕ)
      → (new input ≡ ok (r, t)) ↔ (
          (input.stdin ≡ [])
          × (0 < input.timeout)
          × (input.timeout ≤ 30000000000)
          × IsRequest (request_of input)
          × (r ≡ request_of input)
          × (t ≡ input.timeout))
  unfolding new
  new_iff input r t =
      let valid = validate_request_iff (request_of input) in
      (
        λ h. (
          ground arith,
          ground arith,
          ground arith,
          valid.0 (ground arith),
          ground arith,
          ground arith,
        ),
        λ (empty, positive, short, request, same, same_time). ground (arith, valid.1 request),
      )

  encode_request_iff :
      (command wasm_module : Bytes) (request : WasixCheckpointCaptureRequest) (bytes : Bytes)
      → (encode_request request_to_vec command wasm_module request ≡ ok bytes) ↔ (
          (command ≡ codes "_start")
          × (0 < length wasm_module)
          × (length wasm_module ≤ 67108864)
          × (request_to_vec request ≡ encoded bytes)
          × (0 < length bytes)
          × (length bytes ≤ 65536))
  unfolding encode_request
  encode_request_iff command wasm_module request bytes = (
    λ h. (
      equal→eq command (codes "_start") (ground arith),
      ground arith,
      ground arith,
      ground arith,
      ground arith,
      ground arith,
    ),
    λ (start, nonempty, bounded, e, some_bytes, few).
        (let same : equal command (codes "_start") ≡ true =
            ap (λ c. equal c (codes "_start")) start ∙ equal_refl (codes "_start") in
          ground (arith, same)),
  )

  -- On Linux, the checks of a capture up to its encoded request pass, but for the pinning of the
  -- executable, exactly if: the executable is an absolute path, the handshake has a positive time of at most 30
  -- seconds, and at most 64 groups are allowed and not group 0; there is no standard input, the
  -- execution has a positive time of at most 30 seconds, and the call is not cancelled; there are at
  -- most 256 arguments and 256 environment entries, arguments and values have at most 4096 bytes and
  -- keys 1 to 256, none holds a NUL byte, and no key holds an equals sign; the command is `_start`; the
  -- module has 1 byte to 64 MiB; and the request is encoded in 1 byte to 64 KiB. They then give that
  -- encoding and the time of the execution.
  pub prepare_request_iff :
      (config : WasixWorkerConfig) (command wasm_module : Bytes) (input : CommandInput)
      (bytes : Bytes) (execution_timeout : ℕ)
      → (prepare_request request_to_vec config command wasm_module input
          ≡ ok (bytes, execution_timeout))
        ↔ IsRequested config command wasm_module input bytes execution_timeout
  unfolding prepare_request
  prepare_request_iff config command wasm_module input bytes execution_timeout = (
    λ h.
        (let (u, common, h1) = >>=-eq-ok (validate_common config) _ h in
          let ((request, t), made, h2) = >>=-eq-ok (new input) _ h1 in
          let (live, h3) = reject-eq-ok input.is_cancelled _ _ h2 in
          let (b, encodes, h4) =
            >>=-eq-ok (encode_request request_to_vec command wasm_module request) _ h3 in
          let (no_input, positive, short, valid, same, same_time) =
            (new_iff input request t).0 made in
          let (start, module_nonempty, module_bounded, e, nonempty, bounded) =
            (encode_request_iff command wasm_module request b).0 encodes in
          let same_bytes : b ≡ bytes = ground (arith, h4) in
          record {
            configured = (validate_common_iff config).0 common;
            no_input = no_input;
            positive = positive;
            short = short;
            request = valid;
            live = live;
            start = start;
            module_nonempty = module_nonempty;
            module_bounded = module_bounded;
            encodes = ap request_to_vec (sym same) ∙ e ∙ ap encoded same_bytes;
            nonempty = rw (← same_bytes) nonempty;
            bounded = rw (← same_bytes) bounded;
            same_timeout =
                (let last : t ≡ execution_timeout = ground (arith, h4) in sym last ∙ same_time);
          }),
    λ i.
        (let common = (validate_common_iff config).1 i.configured in
          let made =
            (new_iff input (request_of input) execution_timeout).1
              (i.no_input, i.positive, i.short, i.request, refl, i.same_timeout) in
          let encodes =
            (encode_request_iff command wasm_module (request_of input) bytes).1
              (i.start, i.module_nonempty, i.module_bounded, i.encodes, i.nonempty, i.bounded) in
          rw (common, made, i.live, encodes) refl),
  )
