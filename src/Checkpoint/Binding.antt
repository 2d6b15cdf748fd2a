-- ===== src/Checkpoint/Binding.antt =====
-- src/checkpoint.rs: the workload identity of a checkpoint, and the tests on its texts.
use wasm_runtime.Base.{
  ℕ, ◌≤◌, ◌<◌, ◌≡◌, ◌↔◌, Bool, true, not, ◌&&◌, ◌||◌, String, [], ◌∷◌, ◌++◌, arith, Bytes, codes,
  length, all, ltb, leb, ◌==◌, equal, equal→eq, ==_refl, equal_refl,
}
use wasm_runtime.Base.Ascii.{
  is_ascii_digit, is_ascii_graphic, strip_prefix, strip_prefix-eq-some, strip_prefix-append,
}
use wasm_runtime.Failure.{
  text, number, checkpoint, Result, ok, Returns, ◌>>=◌, ◌>>◌, reject, ok_or, >>=-eq-ok, >>-eq-ok,
  ok_or-eq-ok,
}

abbrev pub is_lower_hex : ℕ → Bool
is_lower_hex b = is_ascii_digit b || (leb b'a' b && leb b b'f')

unfoldable pub validate_sha256 : String → Bytes → Result (Unit {0})
validate_sha256 label value =
    reject (not (length value == 64) || not (all is_lower_hex value))
      (checkpoint (text label ∷ text " must be 64 lowercase hexadecimal characters" ∷ []))

unfoldable pub validate_prefixed_sha256 : String → Bytes → Result (Unit {0})
validate_prefixed_sha256 label value = do
  digest ←
      ok_or (strip_prefix (codes "sha256:") value)
        (checkpoint (text label ∷ text " must start with sha256:" ∷ []))
  validate_sha256 label digest

abbrev pub is_token_byte : ℕ → Bool
is_token_byte b = is_ascii_graphic b && not (b == b'\\') && not (b == b'"')

unfoldable pub validate_token : String → Bytes → ℕ → Result (Unit {0})
validate_token label value maximum_bytes =
    reject (length value == 0 || ltb maximum_bytes (length value) || not (all is_token_byte value))
      (checkpoint (
        text label
        ∷ text " must be a nonempty printable token of at most "
        ∷ number maximum_bytes
        ∷ text " bytes"
        ∷ []))

pub record WasixCheckpointBinding : Type 0 where
  pub environment_id : Bytes
  pub module_sha256 : Bytes
  pub command : Bytes
  pub instance_id : Bytes
  pub generation : ℕ

-- `WasixCheckpointBinding::validate`
unfoldable pub validate : WasixCheckpointBinding → Result (Unit {0})
validate b = do
  validate_prefixed_sha256 "checkpoint environment ID" b.environment_id
  validate_sha256 "checkpoint module digest" b.module_sha256
  validate_token "checkpoint command" b.command 256
  validate_token "checkpoint instance ID" b.instance_id 128
  reject (b.generation == 0) (checkpoint (text "checkpoint generation must be positive" ∷ []))

-- `WasixCheckpointBinding::new`
unfoldable pub new : Bytes → Bytes → Bytes → Bytes → ℕ → Result WasixCheckpointBinding
new environment_id module_sha256 command instance_id generation = do
  let binding : WasixCheckpointBinding = record {
    environment_id = environment_id;
    module_sha256 = module_sha256;
    command = command;
    instance_id = instance_id;
    generation = generation;
  }
  validate binding
  ok binding

-- The derived `==`.
unfoldable pub binding_eq : WasixCheckpointBinding → WasixCheckpointBinding → Bool
binding_eq a b =
    equal a.environment_id b.environment_id
    && equal a.module_sha256 b.module_sha256
    && equal a.command b.command
    && equal a.instance_id b.instance_id
    && a.generation == b.generation

-- A digest of 64 lowercase hexadecimal characters.
pub record IsSha256 (value : Bytes) : Type 0 where
  pub size : length value ≡ 64
  pub hex : all is_lower_hex value ≡ true

pub record IsToken (maximum_bytes : ℕ) (value : Bytes) : Type 0 where
  pub nonempty : 0 < length value
  pub bounded : length value ≤ maximum_bytes
  pub printable : all is_token_byte value ≡ true

-- The canonical bindings.
pub record IsCanonical (b : WasixCheckpointBinding) : Type 0 where
  pub digest : Bytes
  pub environment_id : b.environment_id ≡ codes "sha256:" ++ digest
  pub environment_digest : IsSha256 digest
  pub module_digest : IsSha256 b.module_sha256
  pub command : IsToken 256 b.command
  pub instance_id : IsToken 128 b.instance_id
  pub generation : 0 < b.generation

pub validate_sha256_iff :
    (label : String) (value : Bytes) → (validate_sha256 label value ≡ ok tt) ↔ IsSha256 value
unfolding validate_sha256
validate_sha256_iff label value = (λ h. ground arith, λ h. ground arith)

pub validate_token_iff :
    (label : String) (value : Bytes) (n : ℕ)
    → (validate_token label value n ≡ ok tt) ↔ IsToken n value
unfolding validate_token
validate_token_iff label value n = (λ h. ground arith, λ h. ground arith)

pub validate_prefixed_sha256_sound :
    (label : String) (value : Bytes)
    → validate_prefixed_sha256 label value ≡ ok tt
    → (digest : Bytes) × (value ≡ codes "sha256:" ++ digest) × IsSha256 digest
unfolding validate_prefixed_sha256
validate_prefixed_sha256_sound label value h =
    let (digest, found, valid) = >>=-eq-ok (ok_or (strip_prefix (codes "sha256:") value) _) _ h in
    (
      digest,
      strip_prefix-eq-some (codes "sha256:") value digest (ok_or-eq-ok _ _ found),
      (validate_sha256_iff label digest).0 valid,
    )

pub validate_prefixed_sha256_complete :
    (label : String) (digest : Bytes)
    → IsSha256 digest
    → validate_prefixed_sha256 label (codes "sha256:" ++ digest) ≡ ok tt
unfolding validate_prefixed_sha256
validate_prefixed_sha256_complete label digest h =
    rw (strip_prefix-append (codes "sha256:") digest) ((validate_sha256_iff label digest).1 h)

validate_sound : (b : WasixCheckpointBinding) → validate b ≡ ok tt → IsCanonical b
unfolding validate
validate_sound b h =
    let (e1, h1) = >>-eq-ok (validate_prefixed_sha256 _ b.environment_id) _ h in
    let (e2, h2) = >>-eq-ok (validate_sha256 _ b.module_sha256) _ h1 in
    let (e3, h3) = >>-eq-ok (validate_token _ b.command 256) _ h2 in
    let (e4, h4) = >>-eq-ok (validate_token _ b.instance_id 128) _ h3 in
    let (digest, prefixed, hex) = validate_prefixed_sha256_sound _ b.environment_id e1 in
    record {
      digest = digest;
      environment_id = prefixed;
      environment_digest = hex;
      module_digest = (validate_sha256_iff _ b.module_sha256).0 e2;
      command = (validate_token_iff _ b.command 256).0 e3;
      instance_id = (validate_token_iff _ b.instance_id 128).0 e4;
      generation = ground arith;
    }

validate_complete : (b : WasixCheckpointBinding) → IsCanonical b → validate b ≡ ok tt
unfolding validate
validate_complete b c =
    rw
      (
        c.environment_id,
        validate_prefixed_sha256_complete "checkpoint environment ID" c.digest c.environment_digest,
        (validate_sha256_iff "checkpoint module digest" b.module_sha256).1 c.module_digest,
        (validate_token_iff "checkpoint command" b.command 256).1 c.command,
        (validate_token_iff "checkpoint instance ID" b.instance_id 128).1 c.instance_id,
      )
      (ground arith)

-- A binding is valid exactly when its environment ID is `sha256:` and 64 lowercase hexadecimal digits,
-- its module digest is 64 of them, its command and instance ID are nonempty printable tokens of at
-- most 256 and 128 bytes, and its generation is positive.
pub validate_iff : (b : WasixCheckpointBinding) → (validate b ≡ ok tt) ↔ IsCanonical b
validate_iff b = (validate_sound b, validate_complete b)

pub binding_eq→eq : (a b : WasixCheckpointBinding) → binding_eq a b ≡ true → a ≡ b
unfolding binding_eq
binding_eq→eq a b h = ground (
  arith,
  equal→eq a.environment_id b.environment_id,
  equal→eq a.module_sha256 b.module_sha256,
  equal→eq a.command b.command,
  equal→eq a.instance_id b.instance_id,
)

pub binding_eq_refl : (b : WasixCheckpointBinding) → binding_eq b b ≡ true
unfolding binding_eq
binding_eq_refl b =
    rw
      (
        equal_refl b.environment_id,
        equal_refl b.module_sha256,
        equal_refl b.command,
        equal_refl b.instance_id,
      )
      (==_refl b.generation)

pub validate-Returns : (b : WasixCheckpointBinding) → Returns (validate b)
unfolding validate validate_prefixed_sha256 validate_sha256 validate_token
validate-Returns b = ground arith

pub validate_sha256-Returns :
    (label : String) (value : Bytes) → Returns (validate_sha256 label value)
unfolding validate_sha256
validate_sha256-Returns label value = ground arith
