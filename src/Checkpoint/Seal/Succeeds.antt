-- ===== src/Checkpoint/Seal/Succeeds.antt =====
-- src/checkpoint.rs: `prepare_seal` when its checks pass.
use wasm_runtime.Base.{
  ℕ, ◌+◌, ◌^◌, ◌≤◌, ◌<◌, ◌≡◌, refl, sym, ap, true, false, ◌||◌, none, some, List, [], ◌∷◌, ◌++◌,
  append-nil, append_assoc, arith, Bytes, length, length-append, ltb, leb, ◌==◌,
}
use wasm_runtime.Failure.{ok, checked_add, usize_end}
use wasm_runtime.Checkpoint.Binding.{WasixCheckpointBinding, validate, binding_eq_refl}
use wasm_runtime.Checkpoint.Metadata.{External, CheckpointMetadata, current, concat}
use wasm_runtime.Checkpoint.Journal.{scan_journal}
use wasm_runtime.Checkpoint.Codec.{WasixCheckpointCodec, validate_limit, validate_journal_length}
use wasm_runtime.Checkpoint.Codec.Header.{Fits}
use wasm_runtime.Checkpoint.Seal.{
  CapturedWasixJournal, FallibleBoundedVec, write_bounded, write_buffers, encode_metadata,
  prepare_seal,
}
use wasm_runtime.Checkpoint.Seal.Prepared.{prepared_as}

-- Every allocation succeeds.
abbrev pub HasMemory : External → Type 0
HasMemory x = (n : ℕ) → x.try_reserve_exact n ≡ none

module _ (x : External) (memory : HasMemory x) where
  write_bounded-fits :
      (v : FallibleBoundedVec) (bytes : Bytes)
      → v.maximum_bytes < usize_end
      → length v.bytes + length bytes ≤ v.maximum_bytes
      → write_bounded x v bytes ≡ (record v { bytes = v.bytes ++ bytes }, none)
  unfolding write_bounded checked_add
  write_bounded-fits v bytes m h = ground (arith, memory (length bytes))

  write_buffers-fits :
      (buffers : List Bytes) (v : FallibleBoundedVec)
      → v.maximum_bytes < usize_end
      → length v.bytes + length (concat buffers) ≤ v.maximum_bytes
      → write_buffers x v buffers ≡ (record v { bytes = v.bytes ++ concat buffers }, none)
  unfolding write_buffers
  write_buffers-fits [] v m h = ap (λ t. (record v { bytes = t }, none)) (sym (append-nil v.bytes))
  write_buffers-fits ([] ∷ rest) v m h = write_buffers-fits rest v m h
  write_buffers-fits ((b ∷ bs) ∷ rest) v m h =
      let size = length-append (b ∷ bs) (concat rest) in
      let e = write_bounded-fits v (b ∷ bs) m (omega arith) in
      let r =
        write_buffers-fits rest (record v { bytes = v.bytes ++ (b ∷ bs) }) m
          (omega (arith, length-append v.bytes (b ∷ bs))) in
      ground (arith, e, r, append_assoc v.bytes (b ∷ bs) (concat rest))

  pub encode_metadata-fits :
      (m : CheckpointMetadata)
      → length (concat (x.write_metadata m)) ≤ 16384
      → encode_metadata x m ≡ ok (concat (x.write_metadata m))
  encode_metadata-fits m h =
      let e =
        write_buffers-fits (x.write_metadata m) (record { bytes = []; maximum_bytes = 16384 })
          (omega arith) (omega (arith, h)) in
      ground (arith, e)

module _ (x : External) (codec : WasixCheckpointCodec) where
  limits :
      (m n : ℕ)
      → Fits codec m n
      → (validate_limit codec ≡ ok tt)
        × (validate_journal_length codec n ≡ ok tt)
        × ((m == 0 || ltb 16384 m) ≡ false)
        × (checked_add 22 m ≡ some (22 + m))
        × (checked_add (22 + m) n ≡ some (22 + m + n))
        × (checked_add (22 + m + n) 32 ≡ some (22 + m + n + 32))
        × (leb (2 ^ 32) m ≡ false)
        × (leb (2 ^ 64) n ≡ false)
  unfolding validate_limit validate_journal_length checked_add
  limits m n f = (
    ground arith,
    ground arith,
    ground arith,
    ground arith,
    ground arith,
    ground arith,
    ground arith,
    ground arith,
  )

  -- A capture with an explicit snapshot.
  abbrev pub captured_as : Bytes → WasixCheckpointBinding → Bytes → CapturedWasixJournal
  captured_as bytes binding worker = record {
    bytes = bytes;
    binding = binding;
    worker_build_sha256 = worker;
    explicit_snapshot = true;
  }

  pub prepare_seal-fits :
      (binding : WasixCheckpointBinding) (bytes worker metadata : Bytes)
      → validate binding ≡ ok tt
      → scan_journal bytes ≡ ok tt
      → encode_metadata x (current x binding worker bytes) ≡ ok metadata
      → Fits codec (length metadata) (length bytes)
      → prepare_seal x codec binding (captured_as bytes binding worker)
        ≡ ok (prepared_as x metadata bytes (22 + length metadata + length bytes + 32))
  unfolding prepare_seal
  prepare_seal-fits binding bytes worker metadata valid scanned encoded f =
      let (l1, l2, l3, l4, l5, l6, l7, l8) = limits (length metadata) (length bytes) f in
      rw (l1, valid, binding_eq_refl binding, l2, scanned, encoded, l3, l4, l5, l6, l7, l8) refl
