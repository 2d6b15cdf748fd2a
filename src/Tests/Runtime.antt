-- ===== src/Tests/Runtime.antt =====
-- src/runtime.rs at concrete inputs.
use wasm_runtime.Base.{
  ℕ, ◌≡◌, ◌≢◌, ◌↔◌, ◌⊎◌, ◌≤◌, ◌+◌, ap, inl, inr, Bool, true, false, Option, none, some, List, [],
  ◌∷◌, Bytes, codes, arith, All,
}
use wasm_runtime.Config.{RuntimeConfig, default_config}
use wasm_runtime.Failure.{ok}
use wasm_runtime.Failure.Stateful.{Post}
use wasm_runtime.Profiles.{cli0_3}
use wasm_runtime.Runtime.Detect.{Engine, done, detect_profile}
use wasm_runtime.Runtime.Detect.Exports.{SomeNames, Agrees, detect_profile_iff}
use wasm_runtime.Runtime.Inner.{Inner}
use wasm_runtime.Runtime.Memory
use wasm_runtime.Runtime.Memory.{PreparedComponent, PreparedAot, CacheEntry, MemoryCache}
use wasm_runtime.Runtime.Memory.Bounded.{IsBounded, new-IsBounded, run-IsBounded}
use wasm_runtime.Runtime.Memory.Calls
use wasm_runtime.Runtime.Memory.Calls.{Call, run}
use wasm_runtime.Runtime.Memory.Ticked.{new-IsTicked}
use wasm_runtime.Runtime.Prepare.{prepare}
use wasm_runtime.Runtime.Prepare.Sound.{Sound, IsWarm, IsDetected}
use wasm_runtime.Runtime.Prepare.Warm.{prepare-Ready}
use wasm_runtime.Tests.DiskCache.{crates, disk, digest, blank}

-- A component is its source, and exports what its first byte says.
abbrev engine : Engine Bytes
engine = record {
  from_binary = done;
  task_panic = λ source. none;
  exports = λ component. codes "wasi:cli/run@0.3.0" ∷ (codes "wasi:http/types@0.2.0" ∷ []);
  serialize = done;
  deserialize = done;
}

abbrev config : RuntimeConfig
config = record {
  max_warm_components = 1;
  max_warmish_entries = 2;
  max_warmish_bytes = 16;
  background_workers = 1;
  paused_resident_ttl = 5;
  epoch_interval = 1;
  disk_cache = none;
  limits = default_config.limits;
}

abbrev command : PreparedComponent Bytes
command = record { component = 1 ∷ []; profile = cli0_3 }

abbrev calls : List (Call Bytes)
calls =
    Call.insert_warmish (codes "aa") (record { bytes = 1 ∷ 2 ∷ []; profile = cli0_3 })
    ∷ Call.insert_warm (codes "aa") command
    ∷ Call.warm (codes "aa")
    ∷ Call.insert_warm (codes "bb") command
    ∷ []

run-IsBounded_example :
    (last : MemoryCache Bytes) × (run calls (Memory.new config) ≡ ok last) × IsBounded config last
run-IsBounded_example = run-IsBounded config calls (omega arith)

abbrev two : List (Call Bytes)
two = Call.insert_warm (codes "aa") command ∷ Call.warm (codes "aa") ∷ []

abbrev after_two : MemoryCache Bytes
after_two = record {
  warm = (codes "aa", record { entry = command; last_used = 2 }) ∷ [];
  warmish = [];
  warmish_bytes = 0;
  sequence = 2;
  max_warm = 1;
  max_warmish = 2;
  max_warmish_bytes = 16;
}

detect_profile_iff_example :
    (detect_profile engine (1 ∷ []) ≡ ok cli0_3)
    ↔ (SomeNames cli0_3 (engine.exports (1 ∷ [])) × All (Agrees cli0_3) (engine.exports (1 ∷ [])))
detect_profile_iff_example = detect_profile_iff engine (1 ∷ []) cli0_3

abbrev start : Inner Bytes
start = record {
  memory = Memory.new config;
  memory_poisoned = false;
  preparation_locks = [];
  locks_poisoned = false;
  disk_publish_failures = 0;
  files = blank;
}

start-Sound : Sound engine config 0 start
unfolding wasm_runtime.Base.Maps.get Memory.new
start-Sound = record {
  bounded = new-IsBounded config;
  ticked = new-IsTicked config;
  detected = λ j e found. absurd (cc);
}

prepare-Ready_example :
    Post
      (λ c t.
        Sound engine config (0 + 5) t
        × IsWarm engine config digest c t
        × IsDetected engine config c)
      (λ t. Sound engine config (0 + 5) t)
      (prepare engine crates (some disk) digest (1 ∷ 2 ∷ []) start)
prepare-Ready_example =
    prepare-Ready engine crates config (omega arith) (omega arith) (some disk) digest (1 ∷ 2 ∷ []) 0
      start (omega arith) start-Sound
