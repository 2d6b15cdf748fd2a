-- ===== src/Environment/Ordered.antt =====
-- src/environment.rs: the order of names and paths.
use wasm_runtime.Base.{ℕ, ◌≡◌, refl, true, false, List, [], ◌∷◌, ◌++◌, All, arith, Bytes}
use wasm_runtime.Environment.Fields.{lex_lt, has_unordered}

pub lex_lt_trans :
    (xs ys zs : Bytes) → lex_lt xs ys ≡ true → lex_lt ys zs ≡ true → lex_lt xs zs ≡ true
unfolding lex_lt
lex_lt_trans xs [] zs h k = cc
lex_lt_trans xs (y ∷ ys) [] h k = cc
lex_lt_trans [] (y ∷ ys) (z ∷ zs) h k = refl
lex_lt_trans (x ∷ xs) (y ∷ ys) (z ∷ zs) h k = ground (arith, lex_lt_trans xs ys zs)

pub lex_lt_irrefl : (xs : Bytes) → lex_lt xs xs ≡ false
unfolding lex_lt
lex_lt_irrefl [] = refl
lex_lt_irrefl (x ∷ xs) = ground (arith, lex_lt_irrefl xs)

-- A text is less than one that continues it.
pub lex_lt-append : (xs : Bytes) (y : ℕ) (ys : Bytes) → lex_lt xs (xs ++ (y ∷ ys)) ≡ true
unfolding lex_lt
lex_lt-append [] y ys = refl
lex_lt-append (x ∷ xs) y ys = ground (arith, lex_lt-append xs y ys)

-- Every entry is less than all that follow it.
abbrev pub IsAscending : List Bytes → Type 0
IsAscending [] = Unit {0}
IsAscending (v ∷ vs) = All (λ w. lex_lt v w ≡ true) vs × IsAscending vs

below-All :
    (v w : Bytes) (vs : List Bytes)
    → lex_lt v w ≡ true
    → All (λ u. lex_lt w u ≡ true) vs
    → All (λ u. lex_lt v u ≡ true) vs
below-All v w [] h k = tt
below-All v w (u ∷ vs) h k = (lex_lt_trans v w u h k.0, below-All v w vs h k.1)

pub has_unordered-IsAscending : (vs : List Bytes) → has_unordered vs ≡ false → IsAscending vs
unfolding has_unordered
has_unordered-IsAscending [] h = tt
has_unordered-IsAscending (v ∷ []) h = (tt, tt)
has_unordered-IsAscending (v ∷ (w ∷ vs)) h =
    let rest = has_unordered-IsAscending (w ∷ vs) (ground arith) in
    let less : lex_lt v w ≡ true = ground arith in ((less, below-All v w vs less rest.0), rest)
