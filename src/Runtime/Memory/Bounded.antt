-- ===== src/Runtime/Memory/Bounded.antt =====
-- src/runtime.rs: the memory cache stays within its configured capacities.
use wasm_runtime.Base.{
  suc, ◌+◌, ◌-◌, ◌*◌, ◌≤◌, ◌<◌, ◌≡◌, refl, List, [], ◌∷◌, Bytes, length, arith, Bool-cases,
  Option-cases, ltb, inl, inr,
}
use wasm_runtime.Base.Maps.{
  HashMap, get, insert, Distinct, insert-Distinct, remove-Distinct, length-insert_present,
  length-remove_le, total, total-remove, total-insert_absent, total-insert_present,
}
use wasm_runtime.Config.{RuntimeConfig}
use wasm_runtime.Failure.{ok, usize_end}
use wasm_runtime.Runtime.Memory.{
  CacheEntry, PreparedComponent, PreparedAot, MemoryCache, saturating_add, next_tick, artifact_size,
  size_at, new, warm, warmish, insert_warm, insert_warmish, demote,
}
use wasm_runtime.Runtime.Memory.Calls.{Call, call, run}
use wasm_runtime.Runtime.Memory.Evicting.{evict_warm_lem, evict_warmish_lem}

-- The bytes of the other entries, beside the one that is inserted.
total_inserted :
    (digest : Bytes) (entry : CacheEntry PreparedAot) (m : HashMap (CacheEntry PreparedAot))
    → total artifact_size (insert digest entry m)
      ≡ total artifact_size m - size_at digest m + artifact_size entry
unfolding size_at
total_inserted digest entry m = elim (Option-cases (get digest m)) [
  | inl absent ↦ ground (arith, total-insert_absent artifact_size digest entry m)
  | inr (e, found) ↦ ground (
    arith,
    total-insert_present artifact_size digest entry m e,
    total-remove artifact_size digest m e found,
  )
]

module _ {Component : Type 0} (config : RuntimeConfig) where
  -- The cache holds each digest once in a tier, no more entries and bytes than configured, and its
  -- count of bytes is exact.
  pub record IsBounded (m : MemoryCache Component) : Type 0 where
    pub warm_distinct : Distinct m.warm
    pub warmish_distinct : Distinct m.warmish
    pub warm_count : length m.warm ≤ config.max_warm_components
    pub warmish_count : length m.warmish ≤ config.max_warmish_entries
    pub bytes_exact : m.warmish_bytes ≡ total artifact_size m.warmish
    pub bytes_count : m.warmish_bytes ≤ config.max_warmish_bytes
    pub max_warm_kept : m.max_warm ≡ config.max_warm_components
    pub max_warmish_kept : m.max_warmish ≡ config.max_warmish_entries
    pub max_warmish_bytes_kept : m.max_warmish_bytes ≡ config.max_warmish_bytes

  pub new-IsBounded : IsBounded (new config)
  unfolding new
  new-IsBounded = record {
    warm_distinct = tt;
    warmish_distinct = tt;
    warm_count = omega arith;
    warmish_count = omega arith;
    bytes_exact = refl;
    bytes_count = omega arith;
    max_warm_kept = refl;
    max_warmish_kept = refl;
    max_warmish_bytes_kept = refl;
  }

  pub warm-IsBounded :
      (digest : Bytes) (m : MemoryCache Component) → IsBounded m → IsBounded (warm digest m).1
  unfolding warm
  warm-IsBounded digest m v = elim (Option-cases (get digest m.warm)) [
    | inl absent ↦ ground arith
    | inr (e, found) ↦
        let e' = record e { last_used = next_tick m.sequence } in
        ground (
          arith,
          insert-Distinct digest e' m.warm v.warm_distinct,
          length-insert_present digest e' m.warm e found,
        )
  ]

  pub warmish-IsBounded :
      (digest : Bytes) (m : MemoryCache Component) → IsBounded m → IsBounded (warmish digest m).1
  unfolding warmish
  warmish-IsBounded digest m v = elim (Option-cases (get digest m.warmish)) [
    | inl absent ↦ ground arith
    | inr (e, found) ↦
        let e' = record e { last_used = next_tick m.sequence } in
        ground (
          arith,
          insert-Distinct digest e' m.warmish v.warmish_distinct,
          length-insert_present digest e' m.warmish e found,
          total-insert_present artifact_size digest e' m.warmish e found,
        )
  ]

  pub demote-IsBounded :
      (digest : Bytes) (m : MemoryCache Component) → IsBounded m → IsBounded (demote digest m)
  unfolding demote
  demote-IsBounded digest m v =
      ground (arith, remove-Distinct digest m.warm v.warm_distinct, length-remove_le digest m.warm)

  pub insert_warm-IsBounded :
      (digest : Bytes) (component : PreparedComponent Component) (m : MemoryCache Component)
      → IsBounded m
      → (next : MemoryCache Component) × (insert_warm digest component m ≡ ok next) × IsBounded next
  unfolding insert_warm
  insert_warm-IsBounded digest component m v =
      let entry : CacheEntry (PreparedComponent Component) = record {
        entry = component;
        last_used = next_tick m.sequence;
      } in
      let entries = insert digest entry m.warm in
      let (kept, done, e, bound) =
        evict_warm_lem (suc (length entries)) m.max_warm entries
          (insert-Distinct digest entry m.warm v.warm_distinct) (omega arith) in
      (
        record m { sequence = next_tick m.sequence; warm = kept },
        rw done refl,
        ground (arith, bound, e.distinct),
      )

  pub insert_warmish-IsBounded :
      (digest : Bytes) (aot : PreparedAot) (m : MemoryCache Component)
      → 2 * config.max_warmish_bytes < usize_end
      → IsBounded m
      → (next : MemoryCache Component) × (insert_warmish digest aot m ≡ ok next) × IsBounded next
  unfolding insert_warmish
  insert_warmish-IsBounded digest aot m small v =
      elim (Bool-cases (ltb m.max_warmish_bytes (length aot.bytes))) [
        | inl large ↦ (m, rw large refl, v)
        | inr fits ↦
            let entry : CacheEntry PreparedAot = record {
              entry = aot;
              last_used = next_tick m.sequence;
            } in
            let entries = insert digest entry m.warmish in
            let sum =
              saturating_add (m.warmish_bytes - size_at digest m.warmish) (length aot.bytes) in
            let exact : sum ≡ total artifact_size entries =
              ground (arith, total_inserted digest entry m.warmish) in
            let (kept, done, e, exact', bound, bytes_bound) =
              evict_warmish_lem (suc (length entries)) m.max_warmish m.max_warmish_bytes entries sum
                (insert-Distinct digest entry m.warmish v.warmish_distinct) exact (omega arith) in
            (
              record m {
                sequence = next_tick m.sequence;
                warmish = kept.0;
                warmish_bytes = kept.1;
              },
              rw (fits, done) refl,
              ground (arith, bound, bytes_bound, exact', e.distinct),
            )
      ]

  pub call-IsBounded :
      (c : Call Component) (m : MemoryCache Component)
      → 2 * config.max_warmish_bytes < usize_end
      → IsBounded m
      → (next : MemoryCache Component) × (call c m ≡ ok next) × IsBounded next
  unfolding call
  call-IsBounded (Call.warm digest) m small v = ((warm digest m).1, refl, warm-IsBounded digest m v)
  call-IsBounded (Call.warmish digest) m small v =
      ((warmish digest m).1, refl, warmish-IsBounded digest m v)
  call-IsBounded (Call.demote digest) m small v =
      (demote digest m, refl, demote-IsBounded digest m v)
  call-IsBounded (Call.insert_warm digest component) m small v =
      insert_warm-IsBounded digest component m v
  call-IsBounded (Call.insert_warmish digest aot) m small v =
      insert_warmish-IsBounded digest aot m small v

  run_from-IsBounded :
      (calls : List (Call Component)) (m : MemoryCache Component)
      → 2 * config.max_warmish_bytes < usize_end
      → IsBounded m
      → (last : MemoryCache Component) × (run calls m ≡ ok last) × IsBounded last
  unfolding run
  run_from-IsBounded [] m small v = (m, refl, v)
  run_from-IsBounded (c ∷ calls) m small v =
      let (next, done, v') = call-IsBounded c m small v in
      let (last, rest, v'') = run_from-IsBounded calls next small v' in (last, rw done rest, v'')

  -- Any sequence of calls on a new memory cache returns, and leaves each tier with distinct digests
  -- and within its configured number of entries, and the native code within its configured bytes,
  -- counted exactly, if twice that limit fits a `usize`.
  pub run-IsBounded :
      (calls : List (Call Component))
      → 2 * config.max_warmish_bytes < usize_end
      → (last : MemoryCache Component) × (run calls (new config) ≡ ok last) × IsBounded last
  run-IsBounded calls small = run_from-IsBounded calls (new config) small new-IsBounded
