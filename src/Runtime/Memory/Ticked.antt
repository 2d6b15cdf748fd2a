-- ===== src/Runtime/Memory/Ticked.antt =====
-- src/runtime.rs: the last uses of the warm entries, while the count of calls does not wrap.
use wasm_runtime.Base.{
  ℕ, suc, ◌+◌, ◌*◌, ◌^◌, ◌≤◌, ◌<◌, min, ◌≡◌, refl, some, List, [], ◌∷◌, Bytes, length, arith,
  Option-cases, inl, inr,
}
use wasm_runtime.Base.Maps.{HashMap, get, insert, Distinct, get-insert, get-remove, insert-Distinct}
use wasm_runtime.Config.{RuntimeConfig}
use wasm_runtime.Failure.{ok, usize_end}
use wasm_runtime.Runtime.Memory.{
  CacheEntry, PreparedComponent, PreparedAot, MemoryCache, next_tick, new, warm, warmish,
  insert_warm, insert_warmish, demote,
}
use wasm_runtime.Runtime.Memory.Calls.{Call, call, run}
use wasm_runtime.Runtime.Memory.Bounded.{IsBounded, call-IsBounded}
use wasm_runtime.Runtime.Memory.Evicting.{Evicted, evict_warm_lem}

pub next_tick_suc : (sequence : ℕ) → sequence + 1 < 2 ^ 64 → next_tick sequence ≡ sequence + 1
unfolding next_tick
next_tick_suc sequence h = ground arith

module _ {Component : Type 0} where
  -- After at most `n` calls, no warm entry was used after the last tick.
  pub record IsTicked (n : ℕ) (m : MemoryCache Component) : Type 0 where
    pub sequence : m.sequence ≤ n
    pub used :
        (j : Bytes) (e : CacheEntry (PreparedComponent Component))
        → get j m.warm ≡ some e
        → e.last_used ≤ m.sequence

  pub new-IsTicked : (config : RuntimeConfig) → IsTicked 0 (new config)
  unfolding new get
  new-IsTicked config = record { sequence = omega arith; used = λ j e found. absurd (cc) }

  used_insert :
      (digest : Bytes) (c : PreparedComponent Component) (n : ℕ) (m : MemoryCache Component)
      → IsTicked n m
      → (j : Bytes) (e : CacheEntry (PreparedComponent Component))
      → get j (insert digest (record { entry = c; last_used = m.sequence + 1 }) m.warm) ≡ some e
      → e.last_used ≤ m.sequence + 1
  used_insert digest c n m t j e found = ground (
    arith,
    get-insert digest j (record { entry = c; last_used = m.sequence + 1 }) m.warm,
    t.used j e,
  )

  pub insert_warm-stored :
      (digest : Bytes) (c : PreparedComponent Component) (m : MemoryCache Component)
      → Distinct m.warm
      → (kept : HashMap (CacheEntry (PreparedComponent Component))) × (insert_warm digest c m
          ≡ ok (record m { sequence = next_tick m.sequence; warm = kept }))
        × Evicted
            (insert digest (record { entry = c; last_used = next_tick m.sequence }) m.warm)
            kept
        × (length kept
            ≡ min m.max_warm (
                length
                  (insert digest (record { entry = c; last_used = next_tick m.sequence }) m.warm)))
  unfolding insert_warm
  insert_warm-stored digest c m d =
      let entry : CacheEntry (PreparedComponent Component) = record {
        entry = c;
        last_used = next_tick m.sequence;
      } in
      let entries = insert digest entry m.warm in
      let (kept, done, e, count) =
        evict_warm_lem (suc (length entries)) m.max_warm entries
          (insert-Distinct digest entry m.warm d) (omega arith) in
      (kept, rw done refl, e, count)

  pub insert_warm-IsTicked :
      (digest : Bytes) (c : PreparedComponent Component) (n : ℕ) (m next : MemoryCache Component)
      → n + 1 < 2 ^ 64
      → Distinct m.warm
      → IsTicked n m
      → insert_warm digest c m ≡ ok next
      → IsTicked (n + 1) next
  insert_warm-IsTicked digest c n m next small d t h =
      let (kept, done, e, count) = insert_warm-stored digest c m d in
      let ticked = next_tick_suc m.sequence (omega (arith, t.sequence)) in
      let same : next ≡ record m { sequence = next_tick m.sequence; warm = kept } = cc in
      rw same (record {
        sequence = omega (arith, ticked, t.sequence);
        used =
            λ j x found. ground (arith, ticked, used_insert digest c n m t j x, e.stored j x found);
      })

  IsTicked-sub :
      (n : ℕ) (m next : MemoryCache Component)
      → m.sequence ≤ next.sequence
      → next.sequence ≤ m.sequence + 1
      → ((j : Bytes) (e : CacheEntry (PreparedComponent Component))
          → get j next.warm ≡ some e
          → get j m.warm ≡ some e)
      → IsTicked n m
      → IsTicked (n + 1) next
  IsTicked-sub n m next low high sub t = record {
    sequence = omega (arith, t.sequence);
    used = λ j e found. omega (arith, t.used j e (sub j e found));
  }

  pub insert_warmish-warm :
      (digest : Bytes) (aot : PreparedAot) (m next : MemoryCache Component)
      → m.sequence + 1 < 2 ^ 64
      → insert_warmish digest aot m ≡ ok next
      → (next.warm ≡ m.warm) × (m.sequence ≤ next.sequence) × (next.sequence ≤ m.sequence + 1)
  unfolding insert_warmish
  insert_warmish-warm digest aot m next small h = ground (arith, next_tick_suc m.sequence)

  pub warm-IsTicked :
      (digest : Bytes) (n : ℕ) (m : MemoryCache Component)
      → n + 1 < 2 ^ 64
      → IsTicked n m
      → IsTicked (n + 1) (warm digest m).1
  unfolding warm
  warm-IsTicked digest n m small t =
      let ticked = next_tick_suc m.sequence (omega (arith, t.sequence)) in
      elim (Option-cases (get digest m.warm)) [
        | inl absent ↦
            IsTicked-sub n m _ (ground arith) (ground arith) (λ j e found. ground arith) t
        | inr (old, stored) ↦ record {
          sequence = ground (arith, t.sequence);
          used = λ j e found. ground (arith, used_insert digest old.entry n m t j e, ticked);
        }
      ]

  pub call-IsTicked :
      (c : Call Component) (n : ℕ) (m next : MemoryCache Component)
      → n + 1 < 2 ^ 64
      → Distinct m.warm
      → IsTicked n m
      → call c m ≡ ok next
      → IsTicked (n + 1) next
  unfolding call
  call-IsTicked (Call.warm digest) n m next small d t h =
      let same : next ≡ (warm digest m).1 = cc in rw same (warm-IsTicked digest n m small t)
  call-IsTicked (Call.warmish digest) n m next small d t h =
      let ticked = next_tick_suc m.sequence (omega (arith, t.sequence)) in
      IsTicked-sub n m next (unfold warmish in ground arith) (unfold warmish in ground arith)
        (λ j e found. unfold warmish in ground arith) t
  call-IsTicked (Call.demote digest) n m next small d t h =
      IsTicked-sub n m next (unfold demote in ground arith) (unfold demote in ground arith)
        (λ j e found. unfold demote in ground (arith, get-remove digest j m.warm d)) t
  call-IsTicked (Call.insert_warm digest component) n m next small d t h =
      insert_warm-IsTicked digest component n m next small d t h
  call-IsTicked (Call.insert_warmish digest aot) n m next small d t h =
      let kept = insert_warmish-warm digest aot m next (omega (arith, t.sequence)) h in
      IsTicked-sub n m next kept.1 kept.2 (λ j e found. rw (← kept.0) found) t

  pub run_from-IsTicked :
      (config : RuntimeConfig) (calls : List (Call Component)) (n k : ℕ)
      (m last : MemoryCache Component)
      → 2 * config.max_warmish_bytes < usize_end
      → n + length calls ≤ k
      → k < 2 ^ 64
      → IsBounded config m
      → IsTicked n m
      → run calls m ≡ ok last
      → IsBounded config last × IsTicked k last
  unfolding run
  run_from-IsTicked config [] n k m last small few end v t h =
      let same : last ≡ m = cc in
      rw same (v, record { sequence = omega (arith, t.sequence); used = t.used })
  run_from-IsTicked config (c ∷ calls) n k m last small few end v t h =
      let (next, done, v') = call-IsBounded config c m small v in
      let t' = call-IsTicked c n m next (omega arith) v.warm_distinct t done in
      run_from-IsTicked config calls (n + 1) k next last small (omega arith) end v' t'
        (rw done at h)
