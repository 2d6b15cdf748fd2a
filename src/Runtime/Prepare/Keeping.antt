-- ===== src/Runtime/Prepare/Keeping.antt =====
-- src/runtime.rs: what holds after a component was kept, by the outcome.
use wasm_runtime.Base.{ℕ, ◌+◌, ◌*◌, ◌^◌, ◌≤◌, ◌<◌, not, Bytes, arith}
use wasm_runtime.Config.{RuntimeConfig}
use wasm_runtime.Failure.{ok, usize_end}
use wasm_runtime.Failure.Stateful.{lift, Post, Post-reject, Post-lift, Post-continue, continue}
use wasm_runtime.Profiles.{WasiProfile, profile_eq}
use wasm_runtime.Runtime.Compile.{deserialize_component-Returns, deserialize_component-detected}
use wasm_runtime.Runtime.Detect.{Engine}
use wasm_runtime.Runtime.Inner.{Inner, lock_memory, store_warm, store_warmish}
use wasm_runtime.Runtime.Memory.{PreparedComponent, PreparedAot}
use wasm_runtime.Runtime.Prepare.{prepare_warmish, store_both, prepare_artifact}
use wasm_runtime.Runtime.Prepare.Sound.{
  Sound, Sound-mono, IsDetected, IsWarm, store_warm-Post, store_warmish-Post,
}

module _ {Component : Type 0} (engine : Engine Component) (config : RuntimeConfig) where
  -- What `prepare` promises of the component that it gives.
  abbrev pub Ready : Bytes → ℕ → PreparedComponent Component → Inner Component → Type 0
  Ready digest n c s =
      Sound engine config n s × IsWarm engine config digest c s × IsDetected engine config c

module _ {Component : Type 0} (engine : Engine Component) (config : RuntimeConfig)
    (small : 2 * config.max_warmish_bytes < usize_end) (room : 0 < config.max_warm_components) where
  module _ (digest : Bytes) (n end : ℕ) (lt : end < 2 ^ 64) where
    -- The last step: the component is stored and given out.
    store_warm_then :
        (c : PreparedComponent Component) (k : ℕ) (s : Inner Component)
        → k + 1 ≤ end
        → IsDetected engine config c
        → Sound engine config k s
        → Post
            (Ready engine config digest end)
            (Sound engine config end)
            (continue (store_warm digest c s) (λ stored. lift (ok c)))
    store_warm_then c k s le d v =
        Post-continue (λ u t. Sound engine config (k + 1) t × IsWarm engine config digest c t)
          (Ready engine config digest end) (Sound engine config end) (store_warm digest c s)
          (λ stored. lift (ok c)) (store_warm-Post engine config digest c k end s room le lt d v)
          λ u t w. (Sound-mono engine config (k + 1) end t le w.0, w.1, d)

    pub store_both-Post :
        (aot : PreparedAot) (c : PreparedComponent Component) (s : Inner Component)
        → n + 2 ≤ end
        → IsDetected engine config c
        → Sound engine config n s
        → Post
            (Ready engine config digest end)
            (Sound engine config end)
            (store_both engine digest aot c s)
    unfolding store_both lock_memory
    store_both-Post aot c s le d v =
        Post-reject (Ready engine config digest end) (Sound engine config end) s.memory_poisoned _ s
          _ (Sound-mono engine config n end s (omega arith) v)
          λ healthy.
            Post-continue (λ u t. Sound engine config (n + 1) t) (Ready engine config digest end)
              (Sound engine config end) (store_warmish digest aot s)
              (λ stored t. continue (store_warm digest c t) (λ stored. lift (ok c)))
              (store_warmish-Post engine config digest aot n end s small (omega arith) lt v)
              λ u t w. store_warm_then c (n + 1) t (omega arith) d w

    pub prepare_warmish-Post :
        (aot : PreparedAot) (s : Inner Component)
        → n + 1 ≤ end
        → Sound engine config n s
        → Post
            (Ready engine config digest end)
            (Sound engine config end)
            (prepare_warmish engine digest aot s)
    unfolding prepare_warmish lock_memory
    prepare_warmish-Post aot s le v =
        let v' = Sound-mono engine config n end s (omega arith) v in
        Post-lift (Ready engine config digest end) (Sound engine config end) _ s _
          (deserialize_component-Returns engine aot) v'
          λ c h.
            Post-reject (Ready engine config digest end) (Sound engine config end) s.memory_poisoned
              _ s _ v'
              λ healthy. store_warm_then c n s le (deserialize_component-detected engine aot c h) v

    pub prepare_artifact-Post :
        (profile : WasiProfile) (bytes : Bytes) (s : Inner Component)
        → n + 2 ≤ end
        → Sound engine config n s
        → Post
            (Ready engine config digest end)
            (Sound engine config end)
            (prepare_artifact engine digest profile bytes s)
    unfolding prepare_artifact
    prepare_artifact-Post profile bytes s le v =
        let v' = Sound-mono engine config n end s (omega arith) v in
        let aot : PreparedAot = record { bytes = bytes; profile = profile } in
        Post-lift (Ready engine config digest end) (Sound engine config end) _ s _
          (deserialize_component-Returns engine aot) v'
          λ c h.
            Post-reject (Ready engine config digest end) (Sound engine config end)
              (not (profile_eq c.profile profile)) _ s _ v'
              λ same. store_both-Post aot c s le (deserialize_component-detected engine aot c h) v
