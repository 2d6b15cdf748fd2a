-- ===== src/Runtime/Memory.antt =====
-- src/runtime.rs: the in-memory cache of compiled components and of native code, with its eviction
-- by last use.
pub mod Oldest
pub mod Evicting
pub mod Calls
pub mod Bounded
pub mod Ticked
pub mod Recent
use wasm_runtime.Base.{
  ℕ, zero, suc, ◌+◌, ◌-◌, ◌%◌, ◌^◌, min, Bool, true, false, ◌&&◌, ◌||◌, Option, none, some, List,
  [], ◌∷◌, Bytes, length, ltb, ◌==◌, if◌then◌else◌,
}
use wasm_runtime.Base.Maps.{HashMap, get, insert, remove}
use wasm_runtime.Environment.Fields.{lex_lt}
use wasm_runtime.Failure.{Result, ok, stuck, ◌>>=◌, usize_end}
use wasm_runtime.Config.{RuntimeConfig}
use wasm_runtime.Profiles.{WasiProfile}

-- `PreparedComponent`, for a type of Wasmtime's compiled components.
pub record PreparedComponent (Component : Type 0) : Type 0 where
  pub component : Component
  pub profile : WasiProfile

pub record PreparedAot : Type 0 where
  pub bytes : Bytes
  pub profile : WasiProfile

pub record CacheEntry (T : Type 0) : Type 0 where
  pub entry : T
  pub last_used : ℕ

pub record MemoryCache (Component : Type 0) : Type 0 where
  pub warm : HashMap (CacheEntry (PreparedComponent Component))
  pub warmish : HashMap (CacheEntry PreparedAot)
  pub warmish_bytes : ℕ
  pub sequence : ℕ
  pub max_warm : ℕ
  pub max_warmish : ℕ
  pub max_warmish_bytes : ℕ

-- `MemoryCache::new`
unfoldable pub new : {Component : Type 0} → RuntimeConfig → MemoryCache Component
new config = record {
  warm = [];
  warmish = [];
  warmish_bytes = 0;
  sequence = 0;
  max_warm = config.max_warm_components;
  max_warmish = config.max_warmish_entries;
  max_warmish_bytes = config.max_warmish_bytes;
}

-- `usize::saturating_add`
abbrev pub saturating_add : ℕ → ℕ → ℕ
saturating_add a b = if ltb (a + b) usize_end then a + b else usize_end - 1

-- `tick`: `self.sequence.wrapping_add(1).max(1)` on a `u64`.
unfoldable pub next_tick : ℕ → ℕ
next_tick sequence = let wrapped = (sequence + 1) % 2 ^ 64 in if wrapped == 0 then 1 else wrapped

module _ {T : Type 0} where
  -- The order of the keys `(entry.last_used, key)`.
  abbrev pub older : Bytes × CacheEntry T → Bytes × CacheEntry T → Bool
  older (i, a) (j, b) = ltb a.last_used b.last_used || (a.last_used == b.last_used && lex_lt i j)

  -- One comparison of `min_by_key`.
  unfoldable pub elder : Bytes × CacheEntry T → Bytes × CacheEntry T → Bytes × CacheEntry T
  elder e best = if older e best then e else best

  unfoldable pub least_from : Bytes × CacheEntry T → HashMap (CacheEntry T) → Bytes × CacheEntry T
  least_from best [] = best
  least_from best (e ∷ entries) = least_from (elder e best) entries

  unfoldable pub least_recent : HashMap (CacheEntry T) → Option Bytes
  least_recent [] = none
  least_recent (e ∷ entries) = some (least_from e entries).0

  -- One round of the loop of `insert_warm`.
  unfoldable pub without_least : HashMap (CacheEntry T) → HashMap (CacheEntry T)
  without_least entries = elim (least_recent entries) [
    | none ↦ entries
    | some key ↦ remove key entries
  ]

  -- The `while` loop of `insert_warm`.
  unfoldable pub evict_warm : ℕ → ℕ → HashMap (CacheEntry T) → Result (HashMap (CacheEntry T))
  evict_warm zero limit entries = stuck
  evict_warm (suc fuel) limit entries =
      let rest = evict_warm fuel limit (without_least entries) in
      if ltb limit (length entries) then rest else ok entries

abbrev pub artifact_size : CacheEntry PreparedAot → ℕ
artifact_size e = length e.entry.bytes

-- The bytes of the entry that `insert` or `remove` hands back, 0 for none.
unfoldable pub size_at : Bytes → HashMap (CacheEntry PreparedAot) → ℕ
size_at key entries = elim (get key entries) [ none ↦ 0 | some e ↦ artifact_size e ]

-- The `while` loop of `insert_warmish`.
unfoldable pub evict_warmish :
    ℕ → ℕ → ℕ → HashMap (CacheEntry PreparedAot) → ℕ → Result (HashMap (CacheEntry PreparedAot) × ℕ)
evict_warmish zero limit bytes_limit entries bytes = stuck
evict_warmish (suc fuel) limit bytes_limit entries bytes =
    if ltb limit (length entries) || ltb bytes_limit bytes
    then elim (least_recent entries) [
      | none ↦ ok (entries, bytes)
      | some key ↦
          evict_warmish fuel limit bytes_limit (remove key entries) (bytes - size_at key entries)
    ]
    else ok (entries, bytes)

module _ {Component : Type 0} where
  abbrev pub tick : MemoryCache Component → MemoryCache Component
  tick m = record m { sequence = next_tick m.sequence }

  -- `MemoryCache::warm`
  unfoldable pub warm :
      Bytes → MemoryCache Component → Option (PreparedComponent Component) × MemoryCache Component
  unfolding next_tick
  warm digest m = elim (get digest m.warm) [
    | none ↦ (none, tick m)
    | some e ↦ (
      some e.entry,
      record m {
        sequence = next_tick m.sequence;
        warm = insert digest (record e { last_used = next_tick m.sequence }) m.warm;
      },
    )
  ]

  -- `MemoryCache::warmish`
  unfoldable pub warmish :
      Bytes → MemoryCache Component → Option PreparedAot × MemoryCache Component
  unfolding next_tick
  warmish digest m = elim (get digest m.warmish) [
    | none ↦ (none, tick m)
    | some e ↦ (
      some e.entry,
      record m {
        sequence = next_tick m.sequence;
        warmish = insert digest (record e { last_used = next_tick m.sequence }) m.warmish;
      },
    )
  ]

  unfoldable pub insert_warm :
      Bytes → PreparedComponent Component → MemoryCache Component → Result (MemoryCache Component)
  insert_warm digest component m = do
    let last_used = next_tick m.sequence
    let entries = insert digest (record { entry = component; last_used = last_used }) m.warm
    kept ← evict_warm (suc (length entries)) m.max_warm entries
    ok (record m { sequence = last_used; warm = kept })

  unfoldable pub insert_warmish :
      Bytes → PreparedAot → MemoryCache Component → Result (MemoryCache Component)
  insert_warmish digest aot m = if ltb m.max_warmish_bytes (length aot.bytes) then ok m else (do
    let last_used = next_tick m.sequence
    let entries = insert digest (record { entry = aot; last_used = last_used }) m.warmish
    let others = m.warmish_bytes - size_at digest m.warmish
    kept ←
        evict_warmish (suc (length entries)) m.max_warmish m.max_warmish_bytes entries
          (saturating_add others (length aot.bytes))
    ok (record m { sequence = last_used; warmish = kept.0; warmish_bytes = kept.1 }))

  unfoldable pub demote : Bytes → MemoryCache Component → MemoryCache Component
  demote digest m = record m { warm = remove digest m.warm }
