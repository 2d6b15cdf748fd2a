-- ===== src/Runtime/Detect.antt =====
-- src/runtime.rs: Wasmtime as the runtime uses it, and `detect_profile`.
pub mod Exports
use wasm_runtime.Base.{
  ℕ, Bool, true, false, Option, none, some, List, [], ◌∷◌, Bytes, codes, if◌then◌else◌,
}
use wasm_runtime.Base.Ascii.{starts_with}
use wasm_runtime.Environment.Fields.{lex_lt}
use wasm_runtime.Failure.{Message, text, unsupported_component, Result, ok, err}
use wasm_runtime.Profiles.{WasiProfile, cli0_3, cli0_2, http0_3, http0_2, cache_id, profile_eq}

-- An outcome of Wasmtime: a value, or the text of the error.
pub data Outcome (A : Type 0) : Type 0 where
  done : A → Outcome A
  failed : Message → Outcome A

-- Wasmtime's engine: a source is compiled, a component names its exports, and native code is
-- written and read back. A task that compiles may also end by a panic.
pub record Engine (Component : Type 0) : Type 0 where
  pub from_binary : Bytes → Outcome Component
  pub task_panic : Bytes → Option Message
  pub exports : Component → List Bytes
  pub serialize : Component → Outcome Bytes
  pub deserialize : Bytes → Outcome Component

-- The profile that one export stands for.
unfoldable pub profile_of : Bytes → Option WasiProfile
profile_of name =
    if starts_with (codes "wasi:cli/run@0.3.") name
    then some cli0_3
    else if starts_with (codes "wasi:cli/run@0.2.") name
    then some cli0_2
    else if starts_with (codes "wasi:http/handler@0.3.") name
    then some http0_3
    else if starts_with (codes "wasi:http/incoming-handler@0.2.") name
    then some http0_2
    else none

abbrev pub push : Option WasiProfile → List WasiProfile → List WasiProfile
push none profiles = profiles
push (some p) profiles = p ∷ profiles

-- The loop over the exports.
unfoldable pub profiles_of : List Bytes → List WasiProfile
profiles_of [] = []
profiles_of (name ∷ names) = push (profile_of name) (profiles_of names)

-- `sort_by_key`, which is stable: an element goes in front of the later ones that are not smaller.
unfoldable pub sort_insert : WasiProfile → List WasiProfile → List WasiProfile
sort_insert p [] = p ∷ []
sort_insert p (q ∷ profiles) =
    if lex_lt (cache_id q) (cache_id p) then q ∷ sort_insert p profiles else p ∷ (q ∷ profiles)

unfoldable pub sort_by_key : List WasiProfile → List WasiProfile
sort_by_key [] = []
sort_by_key (p ∷ profiles) = sort_insert p (sort_by_key profiles)

-- `dedup`: what equals the element kept before it is dropped.
unfoldable pub dedup_from : WasiProfile → List WasiProfile → List WasiProfile
dedup_from p [] = []
dedup_from p (q ∷ profiles) =
    let kept = dedup_from q profiles in
    let dropped = dedup_from p profiles in if profile_eq q p then dropped else q ∷ kept

unfoldable pub dedup : List WasiProfile → List WasiProfile
dedup [] = []
dedup (p ∷ profiles) = p ∷ dedup_from p profiles

-- The match on the slice.
unfoldable pub only_profile : List WasiProfile → Result WasiProfile
only_profile [] =
    err (unsupported_component (text "expected a standard WASI CLI or HTTP handler export" ∷ []))
only_profile (p ∷ []) = ok p
only_profile (p ∷ (q ∷ profiles)) =
    err (unsupported_component (text "component exports more than one supported WASI world" ∷ []))

unfoldable pub detect_profile :
    {Component : Type 0} → Engine Component → Component → Result WasiProfile
detect_profile engine component =
    only_profile (dedup (sort_by_key (profiles_of (engine.exports component))))
