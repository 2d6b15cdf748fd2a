-- ===== src/Config.antt =====
-- src/config.rs, the configuration of src/cache.rs, and `validate_config` of src/runtime.rs.
-- Durations are in nanoseconds.
use wasm_runtime.Base.{ℕ, ◌*◌, ◌≤◌, ◌<◌, ◌≡◌, ◌||◌, Option, none, [], ◌∷◌, Bytes, arith, ltb, ◌==◌}
use wasm_runtime.Failure.{text, configuration, Result, ok, reject}

pub record RuntimeLimits : Type 0 where
  pub max_input_bytes : ℕ
  pub max_output_bytes : ℕ
  pub max_memory_bytes : ℕ
  pub max_table_elements : ℕ
  pub max_instances : ℕ
  pub fuel : ℕ
  pub max_timeout : ℕ

-- The root directory is the text of its path.
pub record DiskCacheConfig : Type 0 where
  pub root : Bytes
  pub authentication_key : Bytes
  pub max_entry_bytes : ℕ

pub record RuntimeConfig : Type 0 where
  pub max_warm_components : ℕ
  pub max_warmish_entries : ℕ
  pub max_warmish_bytes : ℕ
  pub background_workers : ℕ
  pub paused_resident_ttl : ℕ
  pub epoch_interval : ℕ
  pub disk_cache : Option DiskCacheConfig
  pub limits : RuntimeLimits

abbrev seconds : ℕ → ℕ
seconds n = n * 1000000000

abbrev mebibytes : ℕ → ℕ
mebibytes n = n * 1024 * 1024

-- `RuntimeLimits::default`
unfoldable pub default_limits : RuntimeLimits
default_limits = record {
  max_input_bytes = mebibytes 16;
  max_output_bytes = mebibytes 16;
  max_memory_bytes = mebibytes 256;
  max_table_elements = 100000;
  max_instances = 100;
  fuel = 10000000000;
  max_timeout = seconds 300;
}

-- `RuntimeConfig::default`
unfoldable pub default_config : RuntimeConfig
unfolding default_limits
default_config = record {
  max_warm_components = 64;
  max_warmish_entries = 1024;
  max_warmish_bytes = mebibytes 512;
  background_workers = 2;
  paused_resident_ttl = seconds 30;
  epoch_interval = 10000000;
  disk_cache = none;
  limits = default_limits;
}

-- `DiskCacheConfig::new`
unfoldable pub new_disk_cache : Bytes → Bytes → DiskCacheConfig
new_disk_cache root authentication_key = record {
  root = root;
  authentication_key = authentication_key;
  max_entry_bytes = mebibytes 256;
}

unfoldable pub validate_config : RuntimeConfig → Result (Unit {0})
validate_config c =
    reject
      (c.max_warm_components == 0
        || ltb c.max_warmish_entries c.max_warm_components
        || c.max_warmish_bytes == 0
        || c.background_workers == 0
        || c.paused_resident_ttl == 0
        || c.epoch_interval == 0)
      (configuration (
        text
          "cache capacities, background workers, pause TTL, and epoch interval must be positive; warmish entries must cover warm entries"
        ∷ []))

-- What an accepted configuration promises.
pub record IsConfigured (c : RuntimeConfig) : Type 0 where
  pub warm_room : 0 < c.max_warm_components
  pub warmish_covers : c.max_warm_components ≤ c.max_warmish_entries
  pub warmish_bytes : 0 < c.max_warmish_bytes
  pub workers : 0 < c.background_workers
  pub ttl : 0 < c.paused_resident_ttl
  pub interval : 0 < c.epoch_interval

pub validate_config-IsConfigured : (c : RuntimeConfig) → validate_config c ≡ ok tt → IsConfigured c
unfolding validate_config
validate_config-IsConfigured c h = ground arith
