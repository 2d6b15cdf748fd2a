-- ===== src/Runtime/Running.antt =====
-- src/runtime.rs: the run of a command from its input to its output.
use wasm_runtime.Base.{◌≤◌, ◌<◌, true, false, not, Option, [], ◌∷◌, ◌≡◌, length, arith}
use wasm_runtime.Config.{RuntimeLimits}
use wasm_runtime.DiskCache.{DiskCache, Crates}
use wasm_runtime.Failure.{text, unsupported_component, idle_evicted, Result, ok, err, reject}
use wasm_runtime.Failure.Stateful.{Stateful, ◌>>=◌, ◌>>◌, lift, continue-eq-ok}
use wasm_runtime.Profiles.{PackageTier, version, is_command}
use wasm_runtime.Runtime.Detect.{Engine}
use wasm_runtime.Runtime.Inner.{Inner, tier, demote}
use wasm_runtime.Runtime.Memory.{PreparedComponent}
use wasm_runtime.Runtime.Prepare.{prepare}
use wasm_runtime.Runtime.Input.{
  Program, CommandInput, InvocationResult, CommandOutput, validate_input,
}

abbrev pub output_of :
    {Component : Type 0}
    → PackageTier
    → PreparedComponent Component
    → InvocationResult
    → CommandOutput
output_of prepared_from prepared result = record {
  stdout = result.stdout;
  stderr = result.stderr;
  exit_code = result.exit_code;
  wasi_version = version prepared.profile;
  prepared_from = prepared_from;
  retained_as = PackageTier.warm;
}

module _ {Component : Type 0} (engine : Engine Component) (x : Crates) (limits : RuntimeLimits)
    (disk : Option DiskCache)
    (invoke : PreparedComponent Component
      → CommandInput
      → Stateful (Inner Component) InvocationResult) where
  -- `self.tier()`
  unfoldable pub tier_now : Program → Stateful (Inner Component) PackageTier
  tier_now program s = let (found, s') = tier x disk program.digest s in (ok found, s')

  -- `Program::run_controlled`
  unfoldable pub run_controlled : Program → CommandInput → Stateful (Inner Component) CommandOutput
  run_controlled program input = do
    lift (validate_input limits input)
    prepared_from ← tier_now program
    prepared ← prepare engine x disk program.digest program.bytes
    lift (
        reject (not (is_command prepared.profile)) (
          unsupported_component
            (text "HTTP components must be invoked through Program::http_service" ∷ [])))
    result ← invoke prepared input
    lift (ok (output_of prepared_from prepared result))

  abbrev pub demote_evicted :
      Program → Result CommandOutput × Inner Component → Result CommandOutput × Inner Component
  demote_evicted program (err idle_evicted, s) = (err idle_evicted, demote program.digest s)
  demote_evicted program (outcome, s) = (outcome, s)

  -- The task that `Program::start` spawns.
  unfoldable pub start_task : Program → CommandInput → Stateful (Inner Component) CommandOutput
  start_task program input s = demote_evicted program (run_controlled program input s)

  -- What a successful run has gone through.
  pub record Ran (program : Program) (input : CommandInput) (output : CommandOutput)
      (s : Inner Component) : Type 0 where
    pub short : length input.stdin ≤ limits.max_input_bytes
    pub positive : 0 < input.timeout
    pub timely : input.timeout ≤ limits.max_timeout
    pub live : input.is_cancelled ≡ false
    pub prepared : PreparedComponent Component
    pub prepared_lem :
        (prepare engine x disk program.digest program.bytes (tier x disk program.digest s).1).0
        ≡ ok prepared
    pub command : is_command prepared.profile ≡ true
    pub result : InvocationResult
    pub invoked :
        (invoke prepared input
          (prepare engine x disk program.digest program.bytes (tier x disk program.digest s).1).1).0
        ≡ ok result
    pub given : output ≡ output_of (tier x disk program.digest s).0 prepared result

  -- A run that gives an output had an input within the limits, a positive timeout within the limit
  -- and no cancellation; and the output is that of the invocation of the component that `prepare`
  -- gave, which is a command.
  pub run_controlled-Ran :
      (program : Program) (input : CommandInput) (output : CommandOutput) (s : Inner Component)
      → (run_controlled program input s).0 ≡ ok output
      → Ran program input output s
  unfolding run_controlled validate_input tier_now
  run_controlled-Ran program input output s h =
      let (from, s') = tier x disk program.digest s in
      let run = prepare engine x disk program.digest program.bytes s' in
      let (u, valid, h1) = continue-eq-ok (validate_input limits input, s) _ h in
      let (prepared, e, h2) = continue-eq-ok run _ h1 in
      let (v, command, h3) =
        continue-eq-ok
          (
            reject (not (is_command prepared.profile)) (
                unsupported_component
                  (text "HTTP components must be invoked through Program::http_service" ∷ [])),
            run.1,
          )
          _ h2 in
      let (result, e', h4) = continue-eq-ok (invoke prepared input run.1) _ h3 in
      record {
        short = ground (arith, valid);
        positive = ground (arith, valid);
        timely = ground (arith, valid);
        live = ground (arith, valid);
        prepared = prepared;
        prepared_lem = e;
        command = ground (arith, command);
        result = result;
        invoked = e';
        given = ground (arith, h4);
      }
