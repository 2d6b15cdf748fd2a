-- ===== src/Runtime/Memory/Calls.antt =====
-- src/runtime.rs: sequences of calls of the memory cache, each made under its mutex.
use wasm_runtime.Base.{List, [], ◌∷◌, Bytes}
use wasm_runtime.Failure.{Result, ok, ◌>>=◌}
use wasm_runtime.Runtime.Memory
use wasm_runtime.Runtime.Memory.{PreparedComponent, PreparedAot, MemoryCache}

pub data Call (Component : Type 0) : Type 0 where
  warm warmish demote : Bytes → Call Component
  insert_warm : Bytes → PreparedComponent Component → Call Component
  insert_warmish : Bytes → PreparedAot → Call Component

module _ {Component : Type 0} where
  unfoldable pub call : Call Component → MemoryCache Component → Result (MemoryCache Component)
  call (warm digest) m = ok (Memory.warm digest m).1
  call (warmish digest) m = ok (Memory.warmish digest m).1
  call (demote digest) m = ok (Memory.demote digest m)
  call (insert_warm digest component) m = Memory.insert_warm digest component m
  call (insert_warmish digest aot) m = Memory.insert_warmish digest aot m

  unfoldable pub run :
      List (Call Component) → MemoryCache Component → Result (MemoryCache Component)
  run [] m = ok m
  run (c ∷ calls) m = do m' ← call c m; run calls m'
