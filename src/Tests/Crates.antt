-- ===== src/Tests/Crates.antt =====
-- Stand-ins for the crates that checkpoint.rs uses, with the behaviour that their documentation
-- promises: a digest and a tag that depend on all bytes, and an encoding that reads back.
use wasm_runtime.Base.{
  ℕ, zero, suc, ◌+◌, ◌*◌, ◌/◌, ◌%◌, ◌<◌, ◌≡◌, refl, ap, true, none, List, [], ◌∷◌, ◌++◌, arith,
  Bytes, codes, length, take, drop, take-append_length, drop-append_length, all, ltb, if◌then◌else◌,
}
use wasm_runtime.Base.Words.{AllBytes}
use wasm_runtime.Checkpoint.Binding.{is_lower_hex}
use wasm_runtime.Checkpoint.Metadata.{External, IsDocumented, CheckpointMetadata, parsed, concat}

-- A decision on the range of a concrete buffer.
pub all→AllBytes : (bytes : Bytes) → all (λ b. ltb b 256) bytes ≡ true → AllBytes bytes
all→AllBytes [] h = tt
all→AllBytes (b ∷ bs) h = (ground arith, all→AllBytes bs (ground arith))

abbrev pub repeated : ℕ → ℕ → Bytes
repeated zero b = []
repeated (suc n) b = b ∷ repeated n b

length-repeated : (n b : ℕ) → length (repeated n b) ≡ n
length-repeated zero b = refl
length-repeated (suc n) b = ap suc (length-repeated n b)

abbrev checksum : Bytes → ℕ
checksum [] = 1
checksum (b ∷ bs) = (b + 3 * checksum bs) % 251

abbrev toy_sha256 : Bytes → Bytes
toy_sha256 message = checksum message ∷ repeated 31 (length message % 256)

abbrev toy_hmac_sha256 : Bytes → Bytes → Bytes
toy_hmac_sha256 key message = checksum (key ++ message) ∷ repeated 31 (checksum key)

abbrev digit : ℕ → ℕ
digit d = if ltb d 10 then 48 + d else 87 + d

abbrev toy_hex_encode : Bytes → Bytes
toy_hex_encode [] = []
toy_hex_encode (b ∷ bs) = digit (b / 16 % 16) ∷ digit (b % 16) ∷ toy_hex_encode bs

abbrev pub put : Bytes → Bytes
put bytes = length bytes ∷ bytes

abbrev fields : CheckpointMetadata → List Bytes
fields m =
    m.binding.environment_id
    ∷ m.binding.module_sha256
    ∷ m.binding.command
    ∷ m.binding.instance_id
    ∷ (m.binding.generation ∷ [])
    ∷ m.runtime_version
    ∷ (m.worker_protocol_version ∷ [])
    ∷ m.cohort_id
    ∷ m.worker_build_sha256
    ∷ m.engine_profile
    ∷ m.platform
    ∷ m.journal_format
    ∷ m.execution_abi
    ∷ m.isolation_policy
    ∷ m.snapshot_trigger
    ∷ m.journal_sha256
    ∷ []

abbrev pub put_all : List Bytes → List Bytes
put_all [] = []
put_all (f ∷ fs) = put f ∷ put_all fs

abbrev pub split : ℕ → Bytes → List Bytes
split zero bytes = []
split (suc k) [] = []
split (suc k) (n ∷ bytes) = take n bytes ∷ split k (drop n bytes)

pub split-put_all : (fs : List Bytes) → split (length fs) (concat (put_all fs)) ≡ fs
split-put_all [] = refl
split-put_all (f ∷ fs) =
    rw (take-append_length f (concat (put_all fs)), drop-append_length f (concat (put_all fs)))
      (ap (λ t. f ∷ t) (split-put_all fs))

abbrev pub field_at : ℕ → List Bytes → Bytes
field_at n [] = []
field_at zero (f ∷ fs) = f
field_at (suc n) (f ∷ fs) = field_at n fs

abbrev pub head_or_zero : Bytes → ℕ
head_or_zero [] = 0
head_or_zero (b ∷ bs) = b

abbrev of_fields : List Bytes → CheckpointMetadata
of_fields fs = record {
  binding = record {
    environment_id = field_at 0 fs;
    module_sha256 = field_at 1 fs;
    command = field_at 2 fs;
    instance_id = field_at 3 fs;
    generation = head_or_zero (field_at 4 fs);
  };
  runtime_version = field_at 5 fs;
  worker_protocol_version = head_or_zero (field_at 6 fs);
  cohort_id = field_at 7 fs;
  worker_build_sha256 = field_at 8 fs;
  engine_profile = field_at 9 fs;
  platform = field_at 10 fs;
  journal_format = field_at 11 fs;
  execution_abi = field_at 12 fs;
  isolation_policy = field_at 13 fs;
  snapshot_trigger = field_at 14 fs;
  journal_sha256 = field_at 15 fs;
}

abbrev pub toy : External
toy = record {
  runtime_version = codes "0.1.0";
  build_target = codes "x86_64-unknown-linux-gnu";
  little_endian = true;
  sha256 = toy_sha256;
  hmac_accepts = λ key. true;
  hmac_sha256 = toy_hmac_sha256;
  hex_encode = toy_hex_encode;
  write_metadata = λ m. put_all (fields m);
  parse_metadata = λ bytes. parsed (of_fields (split 16 bytes));
  try_reserve_exact = λ n. none;
}

digit-lower : (d : ℕ) → d < 16 → is_lower_hex (digit d) ≡ true
digit-lower d h = ground arith

length-toy_hex_encode : (bytes : Bytes) → length (toy_hex_encode bytes) ≡ 2 * length bytes
length-toy_hex_encode [] = refl
length-toy_hex_encode (b ∷ bs) = omega (arith, length-toy_hex_encode bs)

toy_hex_encode-lower : (bytes : Bytes) → all is_lower_hex (toy_hex_encode bytes) ≡ true
toy_hex_encode-lower [] = refl
toy_hex_encode-lower (b ∷ bs) =
    rw (digit-lower (b / 16 % 16) (omega arith), digit-lower (b % 16) (omega arith))
      (toy_hex_encode-lower bs)

pub toy-IsDocumented : IsDocumented toy
toy-IsDocumented = record {
  hmac_accepts_all = λ key. refl;
  length-hmac_sha256 = λ key message. ap suc (length-repeated 31 (checksum key));
  length-sha256 = λ message. ap suc (length-repeated 31 (length message % 256));
  length-hex_encode = length-toy_hex_encode;
  hex_encode_lower = toy_hex_encode-lower;
  parse-write = λ m. ap (λ fs. parsed (of_fields fs)) (split-put_all (fields m));
}
