-- ===== src/Runtime/Memory/Recent.antt =====
-- src/runtime.rs: what a memory cache keeps when a compiled component is inserted.
use wasm_runtime.Base.{
  ℕ, ◌+◌, ◌^◌, ◌<◌, min, ◌≡◌, refl, sym, ◌∙◌, false, some, [], ◌∷◌, Bytes, length, arith,
  Option-cases, equal, inl, inr,
}
use wasm_runtime.Base.Maps.{HashMap, get, insert, equal_iff, get-insert, get-insert_self}
use wasm_runtime.Config.{RuntimeConfig}
use wasm_runtime.Failure.{ok}
use wasm_runtime.Runtime.Memory.{
  CacheEntry, PreparedComponent, MemoryCache, next_tick, warm, insert_warm,
}
use wasm_runtime.Runtime.Memory.Bounded.{IsBounded}
use wasm_runtime.Runtime.Memory.Evicting.{Evicted}
use wasm_runtime.Runtime.Memory.Ticked.{IsTicked, next_tick_suc, insert_warm-stored}

get_nonempty {ℓ} :
    {V : Type ℓ} (key : Bytes) (m : HashMap V) {value : V} → get key m ≡ some value → 0 < length m
unfolding get
get_nonempty key [] h = cc
get_nonempty key (e ∷ m) h = omega arith

module _ {Component : Type 0} where
  -- The entry that was used last survives an eviction that keeps any entry.
  newest_survives :
      (key : Bytes) (entry : CacheEntry (PreparedComponent Component))
      (entries kept : HashMap (CacheEntry (PreparedComponent Component)))
      → Evicted entries kept
      → get key entries ≡ some entry
      → ((j : Bytes) (e : CacheEntry (PreparedComponent Component))
          → get j entries ≡ some e
          → equal key j ≡ false
          → e.last_used < entry.last_used)
      → 0 < length kept
      → get key kept ≡ some entry
  newest_survives key entry entries [] v at newest h = absurd (omega arith)
  newest_survives key entry entries ((j, e) ∷ kept) v at newest h =
      let first : get j ((j, e) ∷ kept) ≡ some e = unfold get in rw ((equal_iff j j).1 refl) refl in
      elim (Option-cases (get key ((j, e) ∷ kept))) [
        | inr (x, found) ↦ found ∙ (sym (v.stored key x found) ∙ at)
        | inl gone ↦ ground (
          arith,
          v.oldest_first key j entry e at gone first,
          newest j e (v.stored j e first),
          equal_iff key j,
          first,
        )
      ]

  -- What an inserted component finds and leaves, at any state within the invariants.
  pub insert_warm_at :
      (config : RuntimeConfig) (n : ℕ) (digest : Bytes) (c : PreparedComponent Component)
      (m : MemoryCache Component)
      → 0 < config.max_warm_components
      → n + 1 < 2 ^ 64
      → IsBounded config m
      → IsTicked n m
      → let entries =
          insert digest (record { entry = c; last_used = next_tick m.sequence }) m.warm in
        (next : MemoryCache Component) × (insert_warm digest c m ≡ ok next)
        × ((warm digest next).0 ≡ some c)
        × (length next.warm ≡ min config.max_warm_components (length entries))
        × Evicted entries next.warm
  insert_warm_at config n digest c m room few v t =
      let entry : CacheEntry (PreparedComponent Component) = record {
        entry = c;
        last_used = next_tick m.sequence;
      } in
      let ticked = next_tick_suc m.sequence (omega (arith, t.sequence)) in
      let (kept, done, e, count) = insert_warm-stored digest c m v.warm_distinct in
      let self = get-insert_self digest entry m.warm in
      let there =
        newest_survives digest entry (insert digest entry m.warm) kept e self
          (λ j x found other. ground (arith, ticked, get-insert digest j entry m.warm, t.used j x))
          (ground (
            arith,
            count,
            v.max_warm_kept,
            get_nonempty digest (insert digest entry m.warm) self,
          )) in
      (
        record m { sequence = next_tick m.sequence; warm = kept },
        done,
        unfold warm in ground (arith, there),
        omega (arith, count, v.max_warm_kept),
        e,
      )
