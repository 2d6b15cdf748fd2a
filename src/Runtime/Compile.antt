-- ===== src/Runtime/Compile.antt =====
-- src/runtime.rs: compiled components from native code and from their source.
use wasm_runtime.Base.{List, not, Option, none, some, [], ◌∷◌, Bytes, ◌≡◌, arith}
use wasm_runtime.Failure.{
  Message, text, preparation, cache, Error, Result, ok, err, ◌>>=◌, ◌>>◌, reject, Returns,
  Returns-bind, reject-Returns,
}
use wasm_runtime.Profiles.{WasiProfile, profile_eq}
use wasm_runtime.Runtime.Detect.{
  Outcome, done, failed, Engine, only_profile, dedup, sort_by_key, profiles_of, detect_profile,
}
use wasm_runtime.Runtime.Memory.{PreparedComponent, PreparedAot}

abbrev pub outcome_or : {A : Type 0} → Outcome A → (Message → Error) → Result A
outcome_or (done a) to_error = ok a
outcome_or (failed m) to_error = err (to_error m)

-- A panic of the task that compiles.
abbrev pub task_error : Option Message → Result (Unit {0})
task_error none = ok tt
task_error (some m) = err (preparation (text "compiler task failed: " ∷ m))

module _ {Component : Type 0} (engine : Engine Component) where
  unfoldable pub deserialize_component : PreparedAot → Result (PreparedComponent Component)
  deserialize_component aot = do
    component ← outcome_or (engine.deserialize aot.bytes) preparation
    detected ← detect_profile engine component
    reject (not (profile_eq detected aot.profile))
        (cache (text "deserialized component profile mismatch" ∷ []))
    ok (record { component = component; profile = detected })

  -- The task that compiles, with the `??` behind it.
  unfoldable pub compile : Bytes → Result (PreparedComponent Component × Bytes)
  compile source = do
    task_error (engine.task_panic source)
    component ← outcome_or (engine.from_binary source) preparation
    profile ← detect_profile engine component
    bytes ← outcome_or (engine.serialize component) preparation
    ok (record { component = component; profile = profile }, bytes)

only_profile-Returns : (l : List WasiProfile) → Returns (only_profile l)
unfolding only_profile
only_profile-Returns [] = tt
only_profile-Returns (p ∷ []) = tt
only_profile-Returns (p ∷ (q ∷ l)) = tt

outcome_or-Returns : {A : Type 0} (o : Outcome A) (f : Message → Error) → Returns (outcome_or o f)
outcome_or-Returns (done a) f = tt
outcome_or-Returns (failed m) f = tt

task_error-Returns : (o : Option Message) → Returns (task_error o)
task_error-Returns none = tt
task_error-Returns (some m) = tt

module _ {Component : Type 0} (engine : Engine Component) where
  detect_profile-Returns : (c : Component) → Returns (detect_profile engine c)
  unfolding detect_profile
  detect_profile-Returns c =
      only_profile-Returns (dedup (sort_by_key (profiles_of (engine.exports c))))

  pub deserialize_component-Returns :
      (aot : PreparedAot) → Returns (deserialize_component engine aot)
  unfolding deserialize_component
  deserialize_component-Returns aot =
      Returns-bind _ _ (outcome_or-Returns (engine.deserialize aot.bytes) preparation)
        λ component e. Returns-bind _ _ (detect_profile-Returns component) λ detected e'.
          Returns-bind _ _ (reject-Returns (not (profile_eq detected aot.profile)) _) λ same e''. tt

  pub compile-Returns : (source : Bytes) → Returns (compile engine source)
  unfolding compile
  compile-Returns source =
      Returns-bind _ _ (task_error-Returns (engine.task_panic source)) λ passed e0.
        Returns-bind _ _ (outcome_or-Returns (engine.from_binary source) preparation)
          λ component e1. Returns-bind _ _ (detect_profile-Returns component) λ profile e2.
            Returns-bind _ _ (outcome_or-Returns (engine.serialize component) preparation)
              λ bytes e3. tt

  pub deserialize_component-detected :
      (aot : PreparedAot) (c : PreparedComponent Component)
      → deserialize_component engine aot ≡ ok c
      → detect_profile engine c.component ≡ ok c.profile
  unfolding deserialize_component
  deserialize_component-detected aot c h = ground arith

  pub compile-detected :
      (source bytes : Bytes) (c : PreparedComponent Component)
      → compile engine source ≡ ok (c, bytes)
      → detect_profile engine c.component ≡ ok c.profile
  unfolding compile
  compile-detected source bytes c h = ground arith
