-- ===== src/Profiles.antt =====
-- src/types.rs: the WASI worlds, and the tiers of a package.
use wasm_runtime.Base.{Bool, true, false, List, [], ◌∷◌, Bytes, codes}

pub data WasiVersion : Type 0 where
  v0_3 v0_2 : WasiVersion

pub data WasiProfile : Type 0 where
  cli0_3 cli0_2 http0_3 http0_2 : WasiProfile

pub data PackageTier : Type 0 where
  cold disk_aot warmish warm : PackageTier

-- `WasiProfile::ALL`
abbrev pub all_profiles : List WasiProfile
all_profiles = cli0_3 ∷ cli0_2 ∷ http0_3 ∷ http0_2 ∷ []

unfoldable pub cache_id : WasiProfile → Bytes
cache_id cli0_3 = codes "wasi-cli-command-0.3.0"
cache_id cli0_2 = codes "wasi-cli-command-0.2"
cache_id http0_3 = codes "wasi-http-service-0.3.0"
cache_id http0_2 = codes "wasi-http-proxy-0.2"

unfoldable pub version : WasiProfile → WasiVersion
version cli0_3 = v0_3
version http0_3 = v0_3
version cli0_2 = v0_2
version http0_2 = v0_2

unfoldable pub is_command : WasiProfile → Bool
is_command cli0_3 = true
is_command cli0_2 = true
is_command http0_3 = false
is_command http0_2 = false

unfoldable pub is_http : WasiProfile → Bool
is_http http0_3 = true
is_http http0_2 = true
is_http cli0_3 = false
is_http cli0_2 = false

-- The derived `==`.
unfoldable pub profile_eq : WasiProfile → WasiProfile → Bool
profile_eq cli0_3 cli0_3 = true
profile_eq cli0_2 cli0_2 = true
profile_eq http0_3 http0_3 = true
profile_eq http0_2 http0_2 = true
profile_eq _ _ = false
