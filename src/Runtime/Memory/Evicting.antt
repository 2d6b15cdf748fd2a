-- ===== src/Runtime/Memory/Evicting.antt =====
-- src/runtime.rs: what the loops of `insert_warm` and `insert_warmish` evict and keep.
use wasm_runtime.Base.{
  ℕ, zero, suc, ◌-◌, ◌≤◌, ◌<◌, min, ◌≡◌, refl, true, none, some, [], ◌∷◌, Bytes, length, arith,
  equal, ltb, ◌||◌, Bool-cases, inl, inr,
}
use wasm_runtime.Base.Maps.{
  HashMap, get, remove, Distinct, equal_iff, get-remove, remove-Distinct, length-remove, total,
  total-remove,
}
use wasm_runtime.Failure.{ok}
use wasm_runtime.Runtime.Memory.{
  CacheEntry, PreparedAot, least_from, least_recent, without_least, evict_warm, evict_warmish,
  artifact_size, size_at,
}
use wasm_runtime.Runtime.Memory.Oldest.{least_recent_lem}

module _ {T : Type 0} where
  -- Evicting only removes entries, and those no later used than any that stays.
  pub record Evicted (m kept : HashMap (CacheEntry T)) : Type 0 where
    pub distinct : Distinct kept
    pub stored : (j : Bytes) (e : CacheEntry T) → get j kept ≡ some e → get j m ≡ some e
    pub oldest_first :
        (i j : Bytes) (gone here : CacheEntry T)
        → get i m ≡ some gone
        → get i kept ≡ none
        → get j kept ≡ some here
        → gone.last_used ≤ here.last_used

  Evicted-refl : (m : HashMap (CacheEntry T)) → Distinct m → Evicted m m
  Evicted-refl m d = record {
    distinct = d;
    stored = λ j e found. found;
    oldest_first = λ i j gone here before after found. absurd (cc);
  }

  Evicted-remove :
      (m kept : HashMap (CacheEntry T)) (key : Bytes) (oldest : CacheEntry T)
      → Distinct m
      → get key m ≡ some oldest
      → ((j : Bytes) (e : CacheEntry T) → get j m ≡ some e → oldest.last_used ≤ e.last_used)
      → Evicted (remove key m) kept
      → Evicted m kept
  Evicted-remove m kept key oldest d at least v =
      let stored : (j : Bytes) (e : CacheEntry T) → get j kept ≡ some e → get j m ≡ some e =
        λ j e found. ground (arith, v.stored j e found, get-remove key j m d) in
      record {
        distinct = v.distinct;
        stored = stored;
        oldest_first = λ i j gone here before after found. elim (Bool-cases (equal key i)) [
          | inl same ↦ ground (arith, (equal_iff key i).0 same, least j here (stored j here found))
          | inr other ↦
              v.oldest_first i j gone here (ground (arith, get-remove key i m d)) after found
        ];
      }

  -- A map that is not empty has an oldest entry.
  oldest_of :
      (m : HashMap (CacheEntry T))
      → Distinct m
      → 0 < length m
      → (key : Bytes) × (least_recent m ≡ some key)
        × (oldest : CacheEntry T) × (get key m ≡ some oldest)
        × ((j : Bytes) (e : CacheEntry T) → get j m ≡ some e → oldest.last_used ≤ e.last_used)
  oldest_of [] d h = absurd (omega arith)
  oldest_of (b ∷ m) d h =
      let named : least_recent (b ∷ m) ≡ some (least_from b m).0 = unfold least_recent in refl in
      let (oldest, at, least) = least_recent_lem (b ∷ m) (least_from b m).0 d named in
      ((least_from b m).0, named, oldest, at, least)

  without_least-remove :
      (m : HashMap (CacheEntry T)) (key : Bytes)
      → least_recent m ≡ some key
      → without_least m ≡ remove key m
  unfolding without_least
  without_least-remove m key named = ground arith

  pub evict_warm_lem :
      (fuel limit : ℕ) (m : HashMap (CacheEntry T))
      → Distinct m
      → length m < fuel
      → (kept : HashMap (CacheEntry T)) × (evict_warm fuel limit m ≡ ok kept)
        × Evicted m kept
        × (length kept ≡ min limit (length m))
  unfolding evict_warm
  evict_warm_lem zero limit m d h = absurd (omega arith)
  evict_warm_lem (suc fuel) limit m d h = elim (Bool-cases (ltb limit (length m))) [
    | inr fits ↦ (m, rw fits refl, Evicted-refl m d, ground arith)
    | inl more ↦
        let (key, named, oldest, at, least) = oldest_of m d (ground arith) in
        let (kept, run, v, bound) =
          evict_warm_lem fuel limit (remove key m) (remove-Distinct key m d)
            (omega (arith, length-remove key m oldest at)) in
        (
          kept,
          rw (more, without_least-remove m key named) run,
          Evicted-remove m kept key oldest d at least v,
          ground (arith, bound, length-remove key m oldest at),
        )
  ]

pub size_at_found :
    (key : Bytes) (m : HashMap (CacheEntry PreparedAot)) (e : CacheEntry PreparedAot)
    → get key m ≡ some e
    → size_at key m ≡ artifact_size e
unfolding size_at
size_at_found key m e h = ground arith

pub evict_warmish_lem :
    (fuel limit bytes_limit : ℕ) (m : HashMap (CacheEntry PreparedAot)) (bytes : ℕ)
    → Distinct m
    → bytes ≡ total artifact_size m
    → length m < fuel
    → (kept : HashMap (CacheEntry PreparedAot) × ℕ) × (evict_warmish fuel limit bytes_limit m bytes
        ≡ ok kept)
      × Evicted m kept.0
      × (kept.1 ≡ total artifact_size kept.0)
      × (length kept.0 ≤ limit)
      × (kept.1 ≤ bytes_limit)
unfolding evict_warmish
evict_warmish_lem zero limit bytes_limit m bytes d sum h = absurd (omega arith)
evict_warmish_lem (suc fuel) limit bytes_limit m bytes d sum h =
    elim (Bool-cases (ltb limit (length m) || ltb bytes_limit bytes)) [
      | inr fits ↦ ((m, bytes), rw fits refl, Evicted-refl m d, sum, ground arith, ground arith)
      | inl more ↦
          let (key, named, oldest, at, least) = oldest_of m d (nonempty m more sum) in
          let (kept, run, v, sum', bound, bytes_bound) =
            evict_warmish_lem fuel limit bytes_limit (remove key m) (bytes - size_at key m)
              (remove-Distinct key m d)
              (omega
                (arith, total-remove artifact_size key m oldest at, size_at_found key m oldest at))
              (omega (arith, length-remove key m oldest at)) in
          (
            kept,
            ground (arith, more, named, run),
            Evicted-remove m kept.0 key oldest d at least v,
            sum',
            bound,
            bytes_bound,
          )
    ]
  where
    nonempty :
        (n : HashMap (CacheEntry PreparedAot))
        → (ltb limit (length n) || ltb bytes_limit bytes) ≡ true
        → bytes ≡ total artifact_size n
        → 0 < length n
    nonempty [] more sum = ground arith
    nonempty (e ∷ n) more sum = omega arith
