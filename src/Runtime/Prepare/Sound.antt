-- ===== src/Runtime/Prepare/Sound.antt =====
-- src/runtime.rs: what each step of `prepare` keeps of the memory cache.
use mathlib.Core.Path.{subst}
use wasm_runtime.Base.{
  ℕ, ◌+◌, ◌*◌, ◌^◌, ◌≤◌, ◌<◌, ◌≡◌, refl, sym, ◌∙◌, some, Bytes, arith, Bool-cases, Option-cases,
  equal, inl, inr,
}
use wasm_runtime.Base.Maps.{get, insert, get-insert, get-insert_self}
use wasm_runtime.Config.{RuntimeConfig}
use wasm_runtime.Failure.{ok-injective, ok, usize_end}
use wasm_runtime.Failure.Stateful.{Post, Post-reject}
use wasm_runtime.Runtime.Detect.{Engine, detect_profile}
use wasm_runtime.Runtime.Inner.{
  Inner, lock_memory, look_warm, look_warmish, store_warm, store_warmish, lock_preparation,
}
use wasm_runtime.Runtime.Memory
use wasm_runtime.Runtime.Memory.{CacheEntry, PreparedComponent, PreparedAot, MemoryCache, next_tick}
use wasm_runtime.Runtime.Memory.Bounded.{
  IsBounded, warm-IsBounded, warmish-IsBounded, insert_warm-IsBounded, insert_warmish-IsBounded,
}
use wasm_runtime.Runtime.Memory.Calls.{Call, call}
use wasm_runtime.Runtime.Memory.Evicting.{Evicted}
use wasm_runtime.Runtime.Memory.Recent.{insert_warm_at}
use wasm_runtime.Runtime.Memory.Ticked.{
  IsTicked, warm-IsTicked, call-IsTicked, insert_warmish-warm, insert_warm-IsTicked,
}

module _ {Component : Type 0} where
  warm-warm :
      (digest : Bytes) (c : PreparedComponent Component) (m : MemoryCache Component)
      → (Memory.warm digest m).0 ≡ some c
      → (Memory.warm digest (Memory.warm digest m).1).0 ≡ some c
  unfolding Memory.warm
  warm-warm digest c m h = elim (Option-cases (get digest m.warm)) [
    | inl absent ↦ ground arith
    | inr (e, found) ↦
        ground
          (arith, get-insert_self digest (record e { last_used = next_tick m.sequence }) m.warm)
  ]

  warmish_kept :
      (digest : Bytes) (m : MemoryCache Component) (j : Bytes)
      (e : CacheEntry (PreparedComponent Component))
      → get j (Memory.warmish digest m).1.warm ≡ some e
      → get j m.warm ≡ some e
  unfolding Memory.warmish
  warmish_kept digest m j e found = ground arith

  -- What holds of all compiled components in memory.
  module _ (P : PreparedComponent Component → Type 0) where
    abbrev AllEntries : MemoryCache Component → Type 0
    AllEntries m =
        (j : Bytes) (e : CacheEntry (PreparedComponent Component))
        → get j m.warm ≡ some e
        → P e.entry

    warm-entries :
        (digest : Bytes) (m : MemoryCache Component)
        → AllEntries m
        → AllEntries (Memory.warm digest m).1
    unfolding Memory.warm
    warm-entries digest m h j e found = elim (Option-cases (get digest m.warm)) [
      | inl absent ↦ h j e (ground arith)
      | inr (e0, found0) ↦
          let renewed =
            get-insert digest j (record e0 { last_used = next_tick m.sequence }) m.warm in
          elim (Bool-cases (equal digest j)) [
            | inl same ↦ subst P (ground (arith, renewed)) (h digest e0 found0)
            | inr other ↦ h j e (ground (arith, renewed))
          ]
    ]

    warm-stored :
        (digest : Bytes) (c : PreparedComponent Component) (m : MemoryCache Component)
        → AllEntries m
        → (Memory.warm digest m).0 ≡ some c
        → P c
    unfolding Memory.warm
    warm-stored digest c m h w = elim (Option-cases (get digest m.warm)) [
      | inl absent ↦ absurd (ground arith)
      | inr (e, found) ↦ subst P (ground arith) (h digest e found)
    ]

    inserted_detected :
        (digest : Bytes) (c : PreparedComponent Component) (m next : MemoryCache Component)
        → AllEntries m
        → P c
        → Evicted
            (insert digest (record { entry = c; last_used = next_tick m.sequence }) m.warm)
            next.warm
        → AllEntries next
    inserted_detected digest c m next h p e j x found =
        let stored = e.stored j x found in
        let inserted =
          get-insert digest j (record { entry = c; last_used = next_tick m.sequence }) m.warm in
        elim (Bool-cases (equal digest j)) [
          | inl same ↦ subst P (ground (arith, inserted)) p
          | inr other ↦ h j x (ground (arith, inserted))
        ]

module _ {Component : Type 0} (engine : Engine Component) (config : RuntimeConfig) where
  -- The profile of a component is the one that its exports decide.
  abbrev pub IsDetected : PreparedComponent Component → Type 0
  IsDetected c = detect_profile engine c.component ≡ ok c.profile

  -- The memory cache is within its bounds, no more than `n` calls were made on it, and every
  -- compiled component in it has the profile of its exports.
  pub record Sound (n : ℕ) (s : Inner Component) : Type 0 where
    pub bounded : IsBounded config s.memory
    pub ticked : IsTicked n s.memory
    pub detected :
        (j : Bytes) (e : CacheEntry (PreparedComponent Component))
        → get j s.memory.warm ≡ some e
        → IsDetected e.entry

  pub Sound-mono : (n k : ℕ) (s : Inner Component) → n ≤ k → Sound n s → Sound k s
  Sound-mono n k s h v = record {
    bounded = v.bounded;
    ticked = record { sequence = omega (arith, v.ticked.sequence); used = v.ticked.used };
    detected = v.detected;
  }

  -- The compiled component of a digest is in memory.
  abbrev pub IsWarm : Bytes → PreparedComponent Component → Inner Component → Type 0
  IsWarm digest c s = (Memory.warm digest s.memory).0 ≡ some c

  pub look_warm-Post :
      (digest : Bytes) (n end : ℕ) (s : Inner Component)
      → n + 1 ≤ end
      → end < 2 ^ 64
      → Sound n s
      → Post
          (λ found s'.
            Sound (n + 1) s'
            × ((c : PreparedComponent Component)
                → found ≡ some c
                → IsWarm digest c s' × IsDetected c))
          (Sound end)
          (look_warm digest s)
  unfolding look_warm lock_memory
  look_warm-Post digest n end s le lt v =
      Post-reject _ (Sound end) s.memory_poisoned _ s _ (Sound-mono n end s (omega arith) v)
        λ healthy. (
          record {
            bounded = warm-IsBounded config digest s.memory v.bounded;
            ticked = warm-IsTicked digest n s.memory (omega arith) v.ticked;
            detected = warm-entries IsDetected digest s.memory v.detected;
          },
          λ c h. (
            warm-warm digest c s.memory h,
            warm-stored IsDetected digest c s.memory v.detected h,
          ),
        )

  pub look_warmish-Post :
      (digest : Bytes) (n end : ℕ) (s : Inner Component)
      → n + 1 ≤ end
      → end < 2 ^ 64
      → Sound n s
      → Post (λ found s'. Sound (n + 1) s') (Sound end) (look_warmish digest s)
  unfolding look_warmish lock_memory
  look_warmish-Post digest n end s le lt v =
      Post-reject _ (Sound end) s.memory_poisoned _ s _ (Sound-mono n end s (omega arith) v)
        λ healthy. record {
          bounded = warmish-IsBounded config digest s.memory v.bounded;
          ticked =
              call-IsTicked (Call.warmish digest) n s.memory _ (omega arith) v.bounded.warm_distinct
                v.ticked (unfold call in refl);
          detected = λ j e found. v.detected j e (warmish_kept digest s.memory j e found);
        }

  pub lock_preparation-Post :
      (digest : Bytes) (n end : ℕ) (s : Inner Component)
      → n ≤ end
      → Sound n s
      → Post (λ locked s'. Sound n s') (Sound end) (lock_preparation digest s)
  unfolding lock_preparation
  lock_preparation-Post digest n end s le v =
      Post-reject _ (Sound end) s.locks_poisoned _ s _ (Sound-mono n end s le v)
        λ healthy. record { bounded = v.bounded; ticked = v.ticked; detected = v.detected }

  pub store_warm-Post :
      (digest : Bytes) (c : PreparedComponent Component) (n end : ℕ) (s : Inner Component)
      → 0 < config.max_warm_components
      → n + 1 ≤ end
      → end < 2 ^ 64
      → IsDetected c
      → Sound n s
      → Post
          (λ stored s'. Sound (n + 1) s' × IsWarm digest c s')
          (Sound end)
          (store_warm digest c s)
  unfolding store_warm
  store_warm-Post digest c n end s room le lt detected v =
      let (next, inserted, bounded) = insert_warm-IsBounded config digest c s.memory v.bounded in
      let ticked =
        insert_warm-IsTicked digest c n s.memory next (omega arith) v.bounded.warm_distinct v.ticked
          inserted in
      let (next', inserted', there, count, e) =
        insert_warm_at config n digest c s.memory room (omega arith) v.bounded v.ticked in
      let same : next' ≡ next = ok-injective (sym inserted' ∙ inserted) in
      rw inserted (
        record {
          bounded = bounded;
          ticked = ticked;
          detected = λ j x found.
              inserted_detected IsDetected digest c s.memory next' v.detected detected e j x
                (rw same found);
        },
        subst (λ m. (Memory.warm digest m).0 ≡ some c) same there,
      )

  pub store_warmish-Post :
      (digest : Bytes) (aot : PreparedAot) (n end : ℕ) (s : Inner Component)
      → 2 * config.max_warmish_bytes < usize_end
      → n + 1 ≤ end
      → end < 2 ^ 64
      → Sound n s
      → Post (λ stored s'. Sound (n + 1) s') (Sound end) (store_warmish digest aot s)
  unfolding store_warmish
  store_warmish-Post digest aot n end s small le lt v =
      let (next, inserted, bounded) =
        insert_warmish-IsBounded config digest aot s.memory small v.bounded in
      let kept =
        insert_warmish-warm digest aot s.memory next (omega (arith, v.ticked.sequence)) inserted in
      rw inserted (record {
        bounded = bounded;
        ticked =
            call-IsTicked (Call.insert_warmish digest aot) n s.memory next (omega arith)
              v.bounded.warm_distinct v.ticked (unfold call in inserted);
        detected = λ j e found. v.detected j e (rw (← kept.0) found);
      })
