-- ===== src/Runtime/Inner.antt =====
-- src/runtime.rs: the shared state of a runtime, its steps under the lock of the
-- memory cache, and the tier of a package.
use wasm_runtime.Base.{ℕ, Bool, Option, none, some, [], ◌∷◌, Bytes, any, if◌then◌else◌}
use wasm_runtime.Base.Maps.{HashMap, get, insert}
use wasm_runtime.DiskCache.{DiskCache, Crates, contains}
use wasm_runtime.Failure.{text, preparation, Result, ok, err, panic, stuck, reject}
use wasm_runtime.Failure.Stateful.{Stateful, ◌>>◌}
use wasm_runtime.Files.{Files}
use wasm_runtime.Profiles.{PackageTier, cold, disk_aot, all_profiles}
use wasm_runtime.Runtime.Memory
use wasm_runtime.Runtime.Memory.{PreparedComponent, PreparedAot, MemoryCache}

-- The parts of `RuntimeInner` that change, and the state of the disk.
pub record Inner (Component : Type 0) : Type 0 where
  pub memory : MemoryCache Component
  pub memory_poisoned : Bool
  pub preparation_locks : HashMap (Unit {0})
  pub locks_poisoned : Bool
  pub disk_publish_failures : ℕ
  pub files : Files

-- The outcome of a step on the state, with the rest of the state around it.
abbrev pub set_memory :
    {Component : Type 0}
    → Inner Component
    → Result (MemoryCache Component)
    → Result (Unit {0}) × Inner Component
set_memory s (ok m) = (ok tt, record s { memory = m })
set_memory s (err e) = (err e, s)
set_memory s panic = (panic, s)
set_memory s stuck = (stuck, s)

abbrev or_insert : Bytes → HashMap (Unit {0}) → HashMap (Unit {0})
or_insert digest locks = elim (get digest locks) [
  | some held ↦ locks
  | none ↦ insert digest tt locks
]

module _ {Component : Type 0} where
  -- `self.memory.lock()` with its `map_err`.
  unfoldable pub lock_memory : Stateful (Inner Component) (Unit {0})
  lock_memory s = (reject s.memory_poisoned (preparation (text "memory cache is poisoned" ∷ [])), s)

  unfoldable pub look_warm :
      Bytes → Stateful (Inner Component) (Option (PreparedComponent Component))
  look_warm digest = do
    lock_memory
    λ s.
        (let (found, memory) = Memory.warm digest s.memory in
          (ok found, record s { memory = memory }))

  unfoldable pub look_warmish : Bytes → Stateful (Inner Component) (Option PreparedAot)
  look_warmish digest = do
    lock_memory
    λ s.
        (let (found, memory) = Memory.warmish digest s.memory in
          (ok found, record s { memory = memory }))

  unfoldable pub store_warm :
      Bytes → PreparedComponent Component → Stateful (Inner Component) (Unit {0})
  store_warm digest prepared s = set_memory s (Memory.insert_warm digest prepared s.memory)

  unfoldable pub store_warmish : Bytes → PreparedAot → Stateful (Inner Component) (Unit {0})
  store_warmish digest aot s = set_memory s (Memory.insert_warmish digest aot s.memory)

  -- `preparation_locks.lock()` and `entry(digest).or_insert_with(..)`.
  unfoldable pub lock_preparation : Bytes → Stateful (Inner Component) (Unit {0})
  lock_preparation digest = do
    λ s. (reject s.locks_poisoned (preparation (text "preparation lock map is poisoned" ∷ [])), s)
    λ s. (ok tt, record s { preparation_locks = or_insert digest s.preparation_locks })

abbrev warmish_tier : PackageTier → Option PreparedAot → PackageTier
warmish_tier below none = below
warmish_tier below (some aot) = PackageTier.warmish

module _ {Component : Type 0} (x : Crates) where
  unfoldable pub disk_tier : Option DiskCache → Bytes → Inner Component → PackageTier
  disk_tier none digest s = cold
  disk_tier (some disk) digest s =
      if any (λ profile. contains x disk digest profile s.files) all_profiles
      then disk_aot
      else cold

  -- `tier` behind its lookup of the compiled component.
  unfoldable pub tier_behind :
      Option DiskCache
      → Bytes
      → Inner Component
      → Option (PreparedComponent Component) × MemoryCache Component
      → PackageTier × Inner Component
  tier_behind disk digest s (some c, memory) = (PackageTier.warm, record s { memory = memory })
  tier_behind disk digest s (none, memory) =
      let (found, memory') = Memory.warmish digest memory in
      (warmish_tier (disk_tier disk digest s) found, record s { memory = memory' })

  -- `RuntimeInner::tier`: a poisoned cache is skipped.
  unfoldable pub tier : Option DiskCache → Bytes → Inner Component → PackageTier × Inner Component
  tier disk digest s =
      if s.memory_poisoned
      then (disk_tier disk digest s, s)
      else tier_behind disk digest s (Memory.warm digest s.memory)

-- `RuntimeInner::demote`
unfoldable pub demote : {Component : Type 0} → Bytes → Inner Component → Inner Component
demote digest s =
    if s.memory_poisoned then s else record s { memory = Memory.demote digest s.memory }
