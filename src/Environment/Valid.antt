-- ===== src/Environment/Valid.antt =====
-- src/environment.rs: the manifests that `validate` and `from_json` accept.
use mathlib.Core.Path.{ap₂, subst}
use wasm_runtime.Base.{
  Bool-cases, append_assoc, ◌≤◌, ◌≡◌, ◌⊎◌, inl, inr, refl, sym, ap, ◌∙◌, true, false, not, String,
  List, [], ◌∷◌, ◌++◌, All, arith, Bytes, codes, length, any, ltb, ◌==◌, equal, equal→eq,
  equal_refl,
}
use wasm_runtime.Base.Ascii.{starts_with}
use wasm_runtime.Failure.{
  ok, err, >>=-eq-ok, >>-eq-ok, reject-eq-ok, ok-injective, preparation, text,
}
use wasm_runtime.Environment.{
  EnvironmentManifest, EnvironmentFilesystem, Crates, json_or, identity_preimage, is_writable_path,
  validate_profile, validate_names, validate_filesystem, validate_identity_fields,
  calculate_environment_id, validate, from_json,
}
use wasm_runtime.Environment.Fields.{
  validate_text, validate_token, validate_prefixed_sha256, validate_sorted_tokens,
  validate_sorted_guest_paths, validate_each, contains, equal_lists,
}
use wasm_runtime.Environment.Ordered.{IsAscending, has_unordered-IsAscending}
use wasm_runtime.Environment.Preimage.{append-cancel}
use wasm_runtime.Environment.Identity.{IsEncodable, identity_preimage-injective}
use wasm_runtime.Environment.Paths.{IsInside, AllApart, validate_sorted_guest_paths-AllApart}

abbrev pub IsMember : Bytes → List Bytes → Type 0
IsMember v [] = ⊥
IsMember v (w ∷ ws) = (v ≡ w) ⊎ IsMember v ws

contains-IsMember : (v : Bytes) (vs : List Bytes) → contains v vs ≡ true → IsMember v vs
unfolding contains
contains-IsMember v [] h = cc
contains-IsMember v (w ∷ ws) h = elim (Bool-cases (equal v w)) [
  | inl same ↦ inl (equal→eq v w same)
  | inr other ↦ inr (contains-IsMember v ws (ground arith))
]

-- A path that is neither a directory nor inside it.
abbrev pub IsOutside : Bytes → Bytes → Type 0
IsOutside directory path = ¬ (path ≡ directory) × ¬ IsInside directory path

starts_with-append : (ps rest : Bytes) → starts_with ps (ps ++ rest) ≡ true
unfolding starts_with
starts_with-append [] rest = refl
starts_with-append (p ∷ ps) rest = ground (arith, starts_with-append ps rest)

outside :
    (directory path : Bytes)
    → equal path directory ≡ false
    → starts_with (directory ++ codes "/") path ≡ false
    → IsOutside directory path
outside directory path d s = (
  λ e.
      let same : equal path directory ≡ true =
        ap (λ p. equal p directory) e ∙ equal_refl directory in
      absurd (ground arith),
  λ inside.
      let below : starts_with (directory ++ codes "/") path ≡ true =
        ap (starts_with (directory ++ codes "/"))
          (inside.1 ∙ sym (append_assoc directory (codes "/") inside.0))
        ∙ starts_with-append (directory ++ codes "/") inside.0 in
      absurd (ground arith),
)

abbrev pub IsSealed : Bytes → Type 0
IsSealed path = IsOutside (codes "/tmp") path × IsOutside (codes "/work") path

All-IsSealed : (paths : List Bytes) → any is_writable_path paths ≡ false → All IsSealed paths
All-IsSealed [] h = tt
All-IsSealed (p ∷ ps) h = (
  (
    outside (codes "/tmp") p (ground arith) (ground arith),
    outside (codes "/work") p (ground arith) (ground arith),
  ),
  All-IsSealed ps (ground arith),
)

equal_lists→eq : (vs ws : List Bytes) → equal_lists vs ws ≡ true → vs ≡ ws
unfolding equal_lists
equal_lists→eq [] [] h = refl
equal_lists→eq [] (w ∷ ws) h = cc
equal_lists→eq (v ∷ vs) [] h = cc
equal_lists→eq (v ∷ vs) (w ∷ ws) h = ground (arith, equal→eq v w, equal_lists→eq vs ws)

sorted_tokens-IsAscending :
    (label : String) (vs : List Bytes) → validate_sorted_tokens label vs ≡ ok tt → IsAscending vs
unfolding validate_sorted_tokens
sorted_tokens-IsAscending label vs e =
    let (e1, h1) = reject-eq-ok (ltb 256 (length vs)) _ _ e in
    let (e2, h2) = >>-eq-ok (validate_each (validate_token label) vs) _ h1 in
    has_unordered-IsAscending vs (ground arith)

pub record IsSealedFilesystem (f : EnvironmentFilesystem) : Type 0 where
  pub writable : f.writable ≡ codes "/tmp" ∷ codes "/work" ∷ []
  pub sealed : All IsSealed f.immutable
  pub ascending : IsAscending f.immutable
  pub apart : AllApart f.immutable

filesystem-IsSealedFilesystem :
    (f : EnvironmentFilesystem) → validate_filesystem f ≡ ok tt → IsSealedFilesystem f
unfolding validate_filesystem
filesystem-IsSealedFilesystem f e =
    let (e1, h1) = >>-eq-ok (validate_sorted_guest_paths "immutable guest paths" f.immutable) _ e in
    let (e2, h2) =
      reject-eq-ok (not (equal_lists f.writable (codes "/tmp" ∷ codes "/work" ∷ []))) _ _ h1 in
    let (n, each, ascending, apart) =
      validate_sorted_guest_paths-AllApart "immutable guest paths" f.immutable e1 in
    record {
      writable = equal_lists→eq f.writable _ (ground arith);
      sealed = All-IsSealed f.immutable (ground arith);
      ascending = ascending;
      apart = apart;
    }

pub record HasProfile (m : EnvironmentManifest) : Type 0 where
  pub schema : m.schema_version ≡ 1
  pub profile : m.execution_profile ≡ codes "wasix32-v1"
  pub format : m.artifact.format ≡ codes "webc"
  pub path : m.artifact.path ≡ codes "environment.webc"

profiled : (m : EnvironmentManifest) → validate_profile m ≡ ok tt → HasProfile m
unfolding validate_profile
profiled m e =
    let (e1, h1) = reject-eq-ok (not (m.schema_version == 1)) _ _ e in
    let (e2, h2) = reject-eq-ok (not (equal m.execution_profile (codes "wasix32-v1"))) _ _ h1 in
    let (e3, h3) = reject-eq-ok (not (equal m.artifact.format (codes "webc"))) _ _ h2 in
    let (e4, h4) = reject-eq-ok (not (equal m.artifact.path (codes "environment.webc"))) _ _ h3 in
    record {
      schema = ground arith;
      profile = equal→eq m.execution_profile _ (ground arith);
      format = equal→eq m.artifact.format _ (ground arith);
      path = equal→eq m.artifact.path _ (ground arith);
    }

pub record HasNames (m : EnvironmentManifest) : Type 0 where
  pub features : IsAscending m.required_wasm_features
  pub commands : IsAscending m.commands.available
  pub default : IsMember m.commands.default m.commands.available

named : (m : EnvironmentManifest) → validate_names m ≡ ok tt → HasNames m
unfolding validate_names
named m e =
    let (e1, h1) = >>-eq-ok (validate_text "language name" m.language.name) _ e in
    let (e2, h2) = >>-eq-ok (validate_text "language version" m.language.version) _ h1 in
    let (e3, h3) =
      >>-eq-ok (validate_text "language implementation" m.language.implementation) _ h2 in
    let (e4, h4) = >>-eq-ok (validate_token "toolchain ID" m.build.toolchain_id) _ h3 in
    let (e5, h5) = >>-eq-ok (validate_prefixed_sha256 "source digest" m.build.source_digest) _ h4 in
    let (e6, h6) = >>-eq-ok (validate_prefixed_sha256 "lock digest" m.build.lock_digest) _ h5 in
    let (e7, h7) =
      >>-eq-ok (validate_sorted_tokens "required WebAssembly features" m.required_wasm_features) _
        h6 in
    let (e8, h8) = >>-eq-ok (validate_token "default command" m.commands.default) _ h7 in
    let (e9, h9) =
      >>-eq-ok (validate_sorted_tokens "available commands" m.commands.available) _ h8 in
    record {
      features = sorted_tokens-IsAscending _ m.required_wasm_features e7;
      commands = sorted_tokens-IsAscending _ m.commands.available e9;
      default = contains-IsMember m.commands.default m.commands.available (ground arith);
    }

-- The manifests of schema version 1 whose ID is the hash of their content.
pub record IsManifest (crates : Crates) (m : EnvironmentManifest) : Type 0 where
  pub profile : HasProfile m
  pub names : HasNames m
  pub filesystem : IsSealedFilesystem m.filesystem
  pub identity :
      m.environment_id ≡ codes "sha256:" ++ crates.hex_encode (crates.sha256 (identity_preimage m))

validate-IsManifest :
    (crates : Crates) (m : EnvironmentManifest) → validate crates m ≡ ok tt → IsManifest crates m
unfolding validate validate_identity_fields calculate_environment_id
validate-IsManifest crates m e =
    let (e1, h1) = >>-eq-ok (validate_identity_fields crates m) _ e in
    let (e2, h2) = >>-eq-ok (validate_prefixed_sha256 "environment ID" m.environment_id) _ h1 in
    let (id, e3, h3) = >>=-eq-ok (calculate_environment_id crates m) _ h2 in
    let (c1, c2) = >>-eq-ok (validate_identity_fields crates m) _ e3 in
    let (p1, q1) = >>-eq-ok (validate_profile m) _ e1 in
    let (p2, q2) = >>-eq-ok (validate_names m) _ q1 in
    let (p3, q3) = >>-eq-ok (validate_filesystem m.filesystem) _ q2 in
    record {
      profile = profiled m p1;
      names = named m p2;
      filesystem = filesystem-IsSealedFilesystem m.filesystem p3;
      identity = equal→eq m.environment_id id (ground arith) ∙ sym (ok-injective c2);
    }

-- A manifest that `from_json` returns comes from at most 64 KiB of JSON and has schema version 1 and
-- the fixed profile and artifact; its features and commands are strictly ascending and the default
-- command is one of the commands; `/tmp` and `/work` are its writable directories, and its immutable
-- paths are strictly ascending, lie outside these two and are not nested; and its ID is the hash of
-- its content.
pub from_json-IsManifest :
    (crates : Crates) (json : Bytes) (m : EnvironmentManifest)
    → from_json crates json ≡ ok m
    → IsManifest crates m × (length json ≤ 65536)
unfolding from_json
from_json-IsManifest crates json m e =
    let (e1, h1) = reject-eq-ok (ltb 65536 (length json)) _ _ e in
    let (v, e2, h2) =
      >>=-eq-ok
        (json_or (crates.schema_version json)
          (λ t. err (preparation (text "invalid environment manifest: " ∷ t))))
        _ h1 in
    let (e3, h3) = reject-eq-ok (not (v == 1)) _ _ h2 in
    let (n, e4, h4) =
      >>=-eq-ok
        (json_or (crates.manifest json)
          (λ t. err (preparation (text "invalid environment manifest: " ∷ t))))
        _ h3 in
    let (e5, h5) = >>-eq-ok (validate crates n) _ h4 in
    (
      validate-IsManifest crates m (subst (λ k. validate crates k ≡ ok tt) (ok-injective h5) e5),
      ground arith,
    )

-- Two valid manifests with one environment ID are the same manifest, unless their hash preimages
-- collide under SHA-256; when `hex::encode` does not confuse
-- their digests, lengths are `u64` and the schema version
-- is a `u32`.
pub validate-same_id :
    (crates : Crates) (m n : EnvironmentManifest)
    → IsEncodable m
    → IsEncodable n
    → (crates.hex_encode (crates.sha256 (identity_preimage m))
          ≡ crates.hex_encode (crates.sha256 (identity_preimage n))
        → crates.sha256 (identity_preimage m) ≡ crates.sha256 (identity_preimage n))
    → (crates.sha256 (identity_preimage m) ≡ crates.sha256 (identity_preimage n)
        → identity_preimage m ≡ identity_preimage n)
    → validate crates m ≡ ok tt
    → validate crates n ≡ ok tt
    → m.environment_id ≡ n.environment_id
    → m ≡ n
validate-same_id crates m n hm hn hex collision vm vn same =
    let im = validate-IsManifest crates m vm in
    let inn = validate-IsManifest crates n vn in
    let (prefix, digests) =
      append-cancel (codes "sha256:") (codes "sha256:") refl
        (sym im.identity ∙ same ∙ inn.identity) in
    let content = identity_preimage-injective m n hm hn (collision (hex digests)) in
    ap₂ (λ (id : Bytes) (k : EnvironmentManifest). record k { environment_id = id }) same content
