-- ===== src/Runtime/Prepare/Warm.antt =====
-- src/runtime.rs: what holds after `prepare`, by its outcome.
use mathlib.Core.Path.{subst}
use wasm_runtime.Base.{
  ℕ, ◌+◌, ◌*◌, ◌^◌, ◌≤◌, ◌<◌, ◌≡◌, refl, Option, none, some, List, [], ◌∷◌, Bytes, arith,
}
use wasm_runtime.Config.{RuntimeConfig}
use wasm_runtime.DiskCache
use wasm_runtime.DiskCache.Returning.{load-Returns}
use wasm_runtime.DiskCache.{DiskCache, Crates}
use wasm_runtime.Failure.{ok, usize_end}
use wasm_runtime.Failure.Stateful.{lift, Post, Post-lift, Post-continue, Post-if_some, if_some}
use wasm_runtime.Profiles.{WasiProfile, all_profiles}
use wasm_runtime.Runtime.Compile.{compile, compile-Returns, compile-detected}
use wasm_runtime.Runtime.Detect.{Engine}
use wasm_runtime.Runtime.Inner.{Inner, look_warm, look_warmish, lock_preparation}
use wasm_runtime.Runtime.Memory.{PreparedComponent}
use wasm_runtime.Runtime.Prepare.{
  prepare_artifact, load_from, prepare_disk, publish_to, prepare_source, load_any, prepare_cold,
  prepare_locked, prepare,
}
use wasm_runtime.Runtime.Memory.Bounded.{IsBounded}
use wasm_runtime.Runtime.Memory.Ticked.{IsTicked}
use wasm_runtime.Runtime.Prepare.Sound.{
  Sound, Sound-mono, IsDetected, IsWarm, look_warm-Post, look_warmish-Post, lock_preparation-Post,
}
use wasm_runtime.Runtime.Prepare.Keeping.{
  Ready, store_both-Post, prepare_warmish-Post, prepare_artifact-Post,
}

module _ {Component : Type 0} (engine : Engine Component) (x : Crates) (config : RuntimeConfig)
    (small : 2 * config.max_warmish_bytes < usize_end) (room : 0 < config.max_warm_components) where
  module _ (digest : Bytes) (n end : ℕ) (lt : end < 2 ^ 64) where
    -- Steps on the disk leave the memory cache as it is.
    Sound-files :
        (k : ℕ) (s t : Inner Component)
        → s.memory ≡ t.memory
        → Sound engine config k s
        → Sound engine config k t
    Sound-files k s t same v = record {
      bounded = subst (λ m. IsBounded config m) same v.bounded;
      ticked = subst (λ m. IsTicked k m) same v.ticked;
      detected = λ j e found. v.detected j e (rw same found);
    }

    -- A package that no disk entry has, or one that is ready.
    abbrev Tried : Option (PreparedComponent Component) → Inner Component → Type 0
    Tried none t = Sound engine config n t
    Tried (some c) t = Ready engine config digest end c t

    prepare_disk-Post :
        (disk : DiskCache) (profiles : List WasiProfile) (s : Inner Component)
        → n + 2 ≤ end
        → Sound engine config n s
        → Post Tried (Sound engine config end) (prepare_disk engine x disk digest profiles s)
    unfolding prepare_disk load_from
    prepare_disk-Post disk [] s le v = v
    prepare_disk-Post disk (profile ∷ profiles) s le v =
        let t : Inner Component = record s {
          files = (DiskCache.load x disk digest profile s.files).1;
        } in
        let w = Sound-files n s t refl v in
        let none_case = prepare_disk-Post disk profiles t le w in
        Post-lift Tried (Sound engine config end) _ t _ (load-Returns x disk digest profile s.files)
          (Sound-mono engine config n end t (omega arith) w)
          λ loaded h.
            Post-if_some Tried (Sound engine config end) loaded _ _ t
              (λ bytes found.
                Post-continue (Ready engine config digest end) Tried (Sound engine config end)
                  (prepare_artifact engine digest profile bytes t) (λ c. lift (ok (some c)))
                  (prepare_artifact-Post engine config small room digest n end lt profile bytes t le
                    w)
                  λ c u ready. ready)
              (λ absent. none_case)

    publish_to-memory :
        (disk : Option DiskCache) (profile : WasiProfile) (bytes : Bytes) (s : Inner Component)
        → s.memory ≡ (publish_to engine x disk digest profile bytes s).memory
    unfolding publish_to
    publish_to-memory none profile bytes s = refl
    publish_to-memory (some disk) profile bytes s = refl

    prepare_source-Post :
        (disk : Option DiskCache) (source : Bytes) (s : Inner Component)
        → n + 2 ≤ end
        → Sound engine config n s
        → Post
            (Ready engine config digest end)
            (Sound engine config end)
            (prepare_source engine x disk digest source s)
    unfolding prepare_source
    prepare_source-Post disk source s le v =
        Post-lift (Ready engine config digest end) (Sound engine config end) (compile engine source)
          s _ (compile-Returns engine source) (Sound-mono engine config n end s (omega arith) v)
          λ (c, bytes) h.
            store_both-Post engine config small room digest n end lt
              (record { bytes = bytes; profile = c.profile }) c
              (publish_to engine x disk digest c.profile bytes s) le
              (compile-detected engine source bytes c h)
              (Sound-files n s _ (publish_to-memory disk c.profile bytes s) v)

    load_any-Post :
        (disk : Option DiskCache) (s : Inner Component)
        → n + 2 ≤ end
        → Sound engine config n s
        → Post Tried (Sound engine config end) (load_any engine x disk digest s)
    load_any-Post none s le v = v
    load_any-Post (some disk) s le v = prepare_disk-Post disk all_profiles s le v

    prepare_cold-Post :
        (disk : Option DiskCache) (source : Bytes) (s : Inner Component)
        → n + 2 ≤ end
        → Sound engine config n s
        → Post
            (Ready engine config digest end)
            (Sound engine config end)
            (prepare_cold engine x disk digest source s)
    unfolding prepare_cold
    prepare_cold-Post disk source s le v =
        Post-continue Tried (Ready engine config digest end) (Sound engine config end)
          (load_any engine x disk digest s) _ (load_any-Post disk s le v)
          λ found t w. tried found t w
      where
        tried :
            (found : Option (PreparedComponent Component)) (t : Inner Component)
            → Tried found t
            → Post
                (Ready engine config digest end)
                (Sound engine config end)
                (if_some found (λ c. lift (ok c)) (prepare_source engine x disk digest source) t)
        tried none t w = prepare_source-Post disk source t le w
        tried (some c) t w = w

  prepare_locked-Post :
      (digest : Bytes) (n end : ℕ)
      → end < 2 ^ 64
      → (disk : Option DiskCache) (source : Bytes) (s : Inner Component) → n + 4 ≤ end
      → Sound engine config n s
      → Post
          (Ready engine config digest end)
          (Sound engine config end)
          (prepare_locked engine x disk digest source s)
  unfolding prepare_locked
  prepare_locked-Post digest n end lt disk source s le v =
      Post-continue _ (Ready engine config digest end) (Sound engine config end)
        (look_warm digest s) _ (look_warm-Post engine config digest n end s (omega arith) lt v)
        λ found t w.
          Post-if_some (Ready engine config digest end) (Sound engine config end) found _ _ t
            (λ c is. (
              Sound-mono engine config (n + 1) end t (omega arith) w.0,
              (w.1 c is).0,
              (w.1 c is).1,
            ))
            (λ absent.
              Post-continue (λ o u. Sound engine config (n + 1 + 1) u)
                (Ready engine config digest end) (Sound engine config end) (look_warmish digest t) _
                (look_warmish-Post engine config digest (n + 1) end t (omega arith) lt w.0)
                λ warmish u w'.
                  Post-if_some (Ready engine config digest end) (Sound engine config end) warmish _
                    _ u
                    (λ aot is.
                      prepare_warmish-Post engine config small room digest (n + 1 + 1) end lt aot u
                        (omega arith) w')
                    (λ none_there.
                      prepare_cold-Post digest (n + 1 + 1) end lt disk source u (omega arith) w'))

  -- From a memory cache within its bounds, after fewer than 2^64 - 6 calls on it, `prepare` returns:
  -- a component whose profile is the one that its exports decide and that the next lookup of its
  -- digest finds in memory, or an error. On either way the cache stays within its bounds, and every
  -- compiled component in it has the profile of its exports, whatever the disk holds, whichever of
  -- its operations fail and whatever Wasmtime answers. Twice the limit of native bytes fits a
  -- `usize`, and a component may be kept.
  pub prepare-Ready :
      (disk : Option DiskCache) (digest source : Bytes) (n : ℕ) (s : Inner Component)
      → n + 5 < 2 ^ 64
      → Sound engine config n s
      → Post
          (λ c t.
            Sound engine config (n + 5) t
            × IsWarm engine config digest c t
            × IsDetected engine config c)
          (λ t. Sound engine config (n + 5) t)
          (prepare engine x disk digest source s)
  unfolding prepare
  prepare-Ready disk digest source n s lt v =
      let end = n + 5 in
      Post-continue _ (Ready engine config digest end) (Sound engine config end)
        (look_warm digest s) _ (look_warm-Post engine config digest n end s (omega arith) lt v)
        λ found t w.
          Post-if_some (Ready engine config digest end) (Sound engine config end) found _ _ t
            (λ c is. (
              Sound-mono engine config (n + 1) end t (omega arith) w.0,
              (w.1 c is).0,
              (w.1 c is).1,
            ))
            (λ absent.
              Post-continue (λ o u. Sound engine config (n + 1) u) (Ready engine config digest end)
                (Sound engine config end) (lock_preparation digest t) _
                (lock_preparation-Post engine config digest (n + 1) end t (omega arith) w.0)
                λ locked u w'.
                  prepare_locked-Post digest (n + 1) end lt disk source u (omega arith) w')
