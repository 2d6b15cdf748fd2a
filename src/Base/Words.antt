-- ===== src/Base/Words.antt =====
-- Fixed-width big-endian numbers: Rust's `to_be_bytes` and `from_be_bytes`.
use Prim.Native.Nat.{ℕ, zero, suc, ◌+◌, ◌*◌, ◌/◌, ◌%◌, ◌^◌, ◌<◌}
use mathlib.Core.Path.{◌≡◌, refl, subst}
use mathlib.Core.List.{[], ◌∷◌, ◌++◌}
use native.Mathlib.Omega.{arith}
use native.Mathlib.Nat.{pow-suc}
use wasm_runtime.Base.Lists.{Bytes, length, length-append, All}

abbrev pub IsByte : ℕ → Type 0
IsByte b = b < 256

abbrev pub AllBytes : Bytes → Type 0
AllBytes = All IsByte

-- `v.to_be_bytes()` of a number of `k` bytes.
unfoldable pub to_be_bytes : ℕ → ℕ → Bytes
to_be_bytes zero v = []
to_be_bytes (suc k) v = to_be_bytes k (v / 256) ++ (v % 256 ∷ [])

unfoldable pub from_be_onto : ℕ → Bytes → ℕ
from_be_onto acc [] = acc
from_be_onto acc (b ∷ bs) = from_be_onto (acc * 256 + b) bs

-- `from_be_bytes`.
unfoldable pub from_be_bytes : Bytes → ℕ
unfolding from_be_onto
from_be_bytes bs = from_be_onto 0 bs

pub AllBytes-append :
    (front back : Bytes) → AllBytes front → AllBytes back → AllBytes (front ++ back)
AllBytes-append [] back f b = b
AllBytes-append (y ∷ front) back f b = (f.0, AllBytes-append front back f.1 b)

pub AllBytes-append_left : (front back : Bytes) → AllBytes (front ++ back) → AllBytes front
AllBytes-append_left [] back both = tt
AllBytes-append_left (y ∷ front) back both = (both.0, AllBytes-append_left front back both.1)

pub AllBytes-append_right : (front back : Bytes) → AllBytes (front ++ back) → AllBytes back
AllBytes-append_right [] back both = both
AllBytes-append_right (y ∷ front) back both = AllBytes-append_right front back both.1

pub length-to_be_bytes : (k v : ℕ) → length (to_be_bytes k v) ≡ k
unfolding to_be_bytes
length-to_be_bytes zero v = refl
length-to_be_bytes (suc k) v =
    omega (
      arith,
      length-append (to_be_bytes k (v / 256)) (v % 256 ∷ []),
      length-to_be_bytes k (v / 256),
    )

pub AllBytes-to_be_bytes : (k v : ℕ) → AllBytes (to_be_bytes k v)
unfolding to_be_bytes
AllBytes-to_be_bytes zero v = tt
AllBytes-to_be_bytes (suc k) v =
    AllBytes-append (to_be_bytes k (v / 256)) (v % 256 ∷ []) (AllBytes-to_be_bytes k (v / 256))
      (omega arith)

lt-div : (k v : ℕ) → v < 256 ^ suc k → v / 256 < 256 ^ k
lt-div k v h = omega (arith, pow-suc 256 k)

from_be_onto-append :
    (xs ys : Bytes) (acc : ℕ) → from_be_onto acc (xs ++ ys) ≡ from_be_onto (from_be_onto acc xs) ys
unfolding from_be_onto
from_be_onto-append [] ys acc = refl
from_be_onto-append (x ∷ xs) ys acc = from_be_onto-append xs ys (acc * 256 + x)

from_be_onto-to_be_bytes : (k v : ℕ) → v < 256 ^ k → from_be_onto 0 (to_be_bytes k v) ≡ v
unfolding from_be_onto to_be_bytes
from_be_onto-to_be_bytes zero v h = omega arith
from_be_onto-to_be_bytes (suc k) v h = omega (
  arith,
  from_be_onto-append (to_be_bytes k (v / 256)) (v % 256 ∷ []) 0,
  from_be_onto-to_be_bytes k (v / 256) (lt-div k v h),
)

-- A number that fits its width survives the encoding.
pub from_be-to_be : (k v : ℕ) → v < 256 ^ k → from_be_bytes (to_be_bytes k v) ≡ v
unfolding from_be_bytes
from_be-to_be k v h = from_be_onto-to_be_bytes k v h

from_be_onto-injective :
    (xs ys : Bytes) (a b : ℕ)
    → length xs ≡ length ys
    → AllBytes xs
    → AllBytes ys
    → from_be_onto a xs ≡ from_be_onto b ys
    → (a ≡ b) × (xs ≡ ys)
unfolding from_be_onto
from_be_onto-injective [] [] a b l hx hy e = (e, refl)
from_be_onto-injective [] (y ∷ ys) a b l hx hy e = absurd (omega arith)
from_be_onto-injective (x ∷ xs) [] a b l hx hy e = absurd (omega arith)
from_be_onto-injective (x ∷ xs) (y ∷ ys) a b l hx hy e =
    ground
      (arith, from_be_onto-injective xs ys (a * 256 + x) (b * 256 + y) (omega arith) hx.1 hy.1 e)

next_digit : (r a x m : ℕ) → x < 256 → r < (a * 256 + x + 1) * m → r < (a + 1) * (m * 256)
next_digit r a x m h lt = grind arith

from_be_onto-lt : (xs : Bytes) (a : ℕ) → AllBytes xs → from_be_onto a xs < (a + 1) * 256 ^ length xs
unfolding from_be_onto
from_be_onto-lt [] a h = omega arith
from_be_onto-lt (x ∷ xs) a h =
    rw pow-suc (next_digit _ a x (256 ^ length xs) h.0 (from_be_onto-lt xs (a * 256 + x) h.1))

pub from_be_bytes-lt : (xs : Bytes) → AllBytes xs → from_be_bytes xs < 256 ^ length xs
unfolding from_be_bytes
from_be_bytes-lt xs h = omega (arith, from_be_onto-lt xs 0 h)

-- Bytes are the encoding of the number that they spell.
pub to_be-from_be : (xs : Bytes) → AllBytes xs → to_be_bytes (length xs) (from_be_bytes xs) ≡ xs
unfolding from_be_bytes
to_be-from_be xs h =
    (from_be_onto-injective (to_be_bytes (length xs) (from_be_bytes xs)) xs 0 0
      (length-to_be_bytes (length xs) _) (AllBytes-to_be_bytes (length xs) _) h
      (from_be_onto-to_be_bytes (length xs) _ (from_be_bytes-lt xs h))).1

-- Leading zero bytes change nothing.
pub from_be_bytes_zeros : (bs : Bytes) → from_be_bytes (0 ∷ 0 ∷ bs) ≡ from_be_bytes bs
unfolding from_be_bytes
from_be_bytes_zeros bs = refl

pub to_be-from_be_at :
    (k : ℕ) (xs : Bytes) → length xs ≡ k → AllBytes xs → to_be_bytes k (from_be_bytes xs) ≡ xs
to_be-from_be_at k xs e h = rw (← e) (to_be-from_be xs h)

pub from_be_bytes-lt_at :
    (k : ℕ) (xs : Bytes) → length xs ≡ k → AllBytes xs → from_be_bytes xs < 256 ^ k
from_be_bytes-lt_at k xs e h = subst (λ n. from_be_bytes xs < 256 ^ n) e (from_be_bytes-lt xs h)
