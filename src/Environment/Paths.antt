-- ===== src/Environment/Paths.antt =====
-- src/environment.rs: the tests on guest paths.
use wasm_runtime.Base.{
  ◌≤◌, ◌≡◌, refl, ap, ◌∙◌, true, false, some, String, List, [], ◌∷◌, ◌++◌, All, arith, Bytes, codes,
  length, any, ltb,
}
use wasm_runtime.Base.Ascii.{strip_prefix, strip_prefix-append, starts_with}
use wasm_runtime.Failure.{ok, >>-eq-ok, reject-eq-ok}
use wasm_runtime.Environment.Fields.{
  lex_lt, has_unordered, has_overlap, is_below, validate_each, validate_guest_path,
  validate_sorted_guest_paths,
}
use wasm_runtime.Environment.Ordered.{
  IsAscending, has_unordered-IsAscending, lex_lt-append, lex_lt_trans, lex_lt_irrefl,
}

-- The candidate is a path inside the ancestor.
abbrev pub IsInside : Bytes → Bytes → Type 0
IsInside ancestor candidate = (rest : Bytes) × (candidate ≡ ancestor ++ (b'/' ∷ rest))

is_below_suffix :
    (a c suffix : Bytes)
    → strip_prefix a c ≡ some suffix
    → starts_with (codes "/") suffix ≡ true
    → is_below a c ≡ true
unfolding is_below
is_below_suffix a c suffix e h = ground arith

is_below-inside : (a c : Bytes) → IsInside a c → is_below a c ≡ true
unfolding starts_with
is_below-inside a c (rest, e) =
    is_below_suffix a c (b'/' ∷ rest) (ap (strip_prefix a) e ∙ strip_prefix-append a (b'/' ∷ rest))
      refl

inside-less : (a c : Bytes) → IsInside a c → lex_lt a c ≡ true
inside-less a c (rest, e) = rw e (lex_lt-append a b'/' rest)

-- Whether two members, in either order, are nested.
abbrev pub Apart : Bytes → List Bytes → Type 0
Apart v vs = All (λ w. ¬ IsInside v w × ¬ IsInside w v) vs

abbrev pub AllApart : List Bytes → Type 0
AllApart [] = Unit {0}
AllApart (v ∷ vs) = Apart v vs × AllApart vs

apart :
    (v : Bytes) (vs : List Bytes)
    → any (is_below v) vs ≡ false
    → All (λ w. lex_lt v w ≡ true) vs
    → Apart v vs
apart v [] h k = tt
apart v (w ∷ vs) h k = (
  (
    λ i. absurd (ground (arith, is_below-inside v w i)),
    λ i. absurd (ground (arith, lex_lt_trans v w v k.0 (inside-less w v i), lex_lt_irrefl v)),
  ),
  apart v vs (ground arith) k.1,
)

all_apart : (vs : List Bytes) → has_overlap vs ≡ false → IsAscending vs → AllApart vs
unfolding has_overlap
all_apart [] h a = tt
all_apart (v ∷ vs) h a = (apart v vs (ground arith) a.0, all_apart vs (ground arith) a.1)

each_ok :
    (label : String) (vs : List Bytes)
    → validate_each (validate_guest_path label) vs ≡ ok tt
    → All (λ v. validate_guest_path label v ≡ ok tt) vs
unfolding validate_each
each_ok label [] e = tt
each_ok label (v ∷ vs) e =
    let (first, rest) = >>-eq-ok (validate_guest_path label v) _ e in (first, each_ok label vs rest)

-- Paths that are accepted are at most 256 canonical ones in strictly ascending order, and no path is
-- inside another one, in whichever order the two stand.
pub validate_sorted_guest_paths-AllApart :
    (label : String) (vs : List Bytes)
    → validate_sorted_guest_paths label vs ≡ ok tt
    → (length vs ≤ 256)
      × All (λ v. validate_guest_path label v ≡ ok tt) vs
      × IsAscending vs
      × AllApart vs
unfolding validate_sorted_guest_paths
validate_sorted_guest_paths-AllApart label vs e =
    let (e1, h1) = reject-eq-ok (ltb 256 (length vs)) _ _ e in
    let (e2, h2) = >>-eq-ok (validate_each (validate_guest_path label) vs) _ h1 in
    let (e3, h3) = reject-eq-ok (has_unordered vs) _ _ h2 in
    let ascending = has_unordered-IsAscending vs e3 in
    (ground arith, each_ok label vs e2, ascending, all_apart vs (ground arith) ascending)
