-- ===== src/Runtime/Prepare.antt =====
-- src/runtime.rs: the preparation of a component from the best tier that has it. The calls of one
-- task are made without another task in between.
pub mod Sound
pub mod Keeping
pub mod Warm
use wasm_runtime.Base.{
  ◌+◌, ◌%◌, ◌^◌, Bool, true, false, not, Option, none, some, List, [], ◌∷◌, Bytes, if◌then◌else◌,
}
use wasm_runtime.DiskCache
use wasm_runtime.DiskCache.{DiskCache, Crates, contains}
use wasm_runtime.Failure.{text, preparation, cache, Result, ok, err, panic, stuck, reject}
use wasm_runtime.Failure.Stateful.{Stateful, ◌>>=◌, ◌>>◌, continue, lift, if_some}
use wasm_runtime.Profiles.{WasiProfile, all_profiles, profile_eq}
use wasm_runtime.Runtime.Detect.{done, failed, Engine, detect_profile}
use wasm_runtime.Runtime.Memory.{PreparedComponent, PreparedAot}
use wasm_runtime.Runtime.Compile.{deserialize_component, compile}
use wasm_runtime.Runtime.Inner.{
  Inner, lock_memory, look_warm, look_warmish, store_warm, store_warmish, lock_preparation,
}

module _ {Component : Type 0} (engine : Engine Component) where
  unfoldable pub prepare_warmish :
      Bytes → PreparedAot → Stateful (Inner Component) (PreparedComponent Component)
  prepare_warmish digest aot = do
    prepared ← lift (deserialize_component engine aot)
    lock_memory
    store_warm digest prepared
    lift (ok prepared)

  unfoldable pub store_both :
      Bytes
      → PreparedAot
      → PreparedComponent Component
      → Stateful (Inner Component) (PreparedComponent Component)
  store_both digest aot prepared = do
    lock_memory
    store_warmish digest aot
    store_warm digest prepared
    lift (ok prepared)

  unfoldable pub prepare_artifact :
      Bytes → WasiProfile → Bytes → Stateful (Inner Component) (PreparedComponent Component)
  prepare_artifact digest profile bytes = do
    let aot : PreparedAot = record { bytes = bytes; profile = profile }
    prepared ← lift (deserialize_component engine aot)
    lift (
        reject (not (profile_eq prepared.profile profile))
          (cache (text "serialized artifact profile does not match its identity" ∷ [])))
    store_both digest aot prepared

  module _ (x : Crates) where
    -- `disk.load` on the files of the state.
    unfoldable pub load_from :
        DiskCache → Bytes → WasiProfile → Stateful (Inner Component) (Option Bytes)
    load_from disk digest profile s =
        let (loaded, files) = DiskCache.load x disk digest profile s.files in
        (loaded, record s { files = files })

    -- The loop over the profiles: `none` if no profile has an entry.
    unfoldable pub prepare_disk :
        DiskCache
        → Bytes
        → List WasiProfile
        → Stateful (Inner Component) (Option (PreparedComponent Component))
    prepare_disk disk digest [] s = (ok none, s)
    prepare_disk disk digest (profile ∷ profiles) s =
        continue (load_from disk digest profile s) λ loaded.
          if_some loaded
            (λ bytes. do
              prepared ← prepare_artifact digest profile bytes
              lift (ok (some prepared)))
            (prepare_disk disk digest profiles)

    abbrev pub is_err : {A : Type 0} → Result A → Bool
    is_err (ok a) = false
    is_err (err e) = true
    is_err panic = true
    is_err stuck = true

    unfoldable pub publish_to :
        Option DiskCache → Bytes → WasiProfile → Bytes → Inner Component → Inner Component
    publish_to none digest profile bytes s = s
    publish_to (some disk) digest profile bytes s =
        let (published, files) = DiskCache.publish x disk digest profile bytes s.files in
        record s {
          files = files;
          disk_publish_failures =
              if is_err published
              then (s.disk_publish_failures + 1) % 2 ^ 64
              else s.disk_publish_failures;
        }

    unfoldable pub prepare_source :
        Option DiskCache → Bytes → Bytes → Stateful (Inner Component) (PreparedComponent Component)
    prepare_source disk digest source s =
        continue (lift (compile engine source) s) λ (prepared, bytes) s.
          store_both digest (record { bytes = bytes; profile = prepared.profile }) prepared
            (publish_to disk digest prepared.profile bytes s)

    abbrev pub load_any :
        Option DiskCache → Bytes → Stateful (Inner Component) (Option (PreparedComponent Component))
    load_any none digest = lift (ok none)
    load_any (some disk) digest = prepare_disk disk digest all_profiles

    unfoldable pub prepare_cold :
        Option DiskCache → Bytes → Bytes → Stateful (Inner Component) (PreparedComponent Component)
    prepare_cold disk digest source = do
      found ← load_any disk digest
      if_some found (λ prepared. lift (ok prepared)) (prepare_source disk digest source)

    -- `prepare` under the lock of the digest.
    unfoldable pub prepare_locked :
        Option DiskCache → Bytes → Bytes → Stateful (Inner Component) (PreparedComponent Component)
    prepare_locked disk digest source = do
      found ← look_warm digest
      if_some found (λ component. lift (ok component))
          (do
            warmish ← look_warmish digest
            if_some warmish (prepare_warmish digest) (prepare_cold disk digest source))

    unfoldable pub prepare :
        Option DiskCache → Bytes → Bytes → Stateful (Inner Component) (PreparedComponent Component)
    prepare disk digest source = do
      found ← look_warm digest
      if_some found (λ component. lift (ok component))
          (do lock_preparation digest; prepare_locked disk digest source)
