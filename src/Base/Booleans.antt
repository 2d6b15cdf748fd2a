-- ===== src/Base/Booleans.antt =====
-- Boolean tests on the native numbers and on byte strings, and the conditional.
use Prim.Native.Nat.{ℕ, ◌≤◌, ◌<◌, compare, Ordering}
use mathlib.Core.Path.{◌≡◌, refl}
use mathlib.Core.Logic.{◌↔◌, ◌⊎◌, inl, inr}
use mathlib.Core.Bool.{Bool, true, false, ◌&&◌}
use mathlib.Core.Option.{Option, none, some}
use mathlib.Core.List.{List, [], ◌∷◌}
use native.Mathlib.Omega.{arith}

abbrev pub ltb : ℕ → ℕ → Bool
ltb a b = elim (compare a b) [ Ordering.lt ↦ true | _ ↦ false ]

abbrev pub leb : ℕ → ℕ → Bool
leb a b = elim (compare a b) [ Ordering.gt ↦ false | _ ↦ true ]

infix 50 ◌==◌
abbrev pub ◌==◌ : ℕ → ℕ → Bool
a == b = elim (compare a b) [ Ordering.eq ↦ true | _ ↦ false ]

infix 1 if◌then◌else◌
abbrev pub if◌then◌else◌ {ℓ} : {A : Type ℓ} → Bool → A → A → A
if true then x else y = x
if false then x else y = y

pub ltb→lt : (a b : ℕ) → ltb a b ≡ true → a < b
ltb→lt a b h = ground arith

pub lt→ltb : (a b : ℕ) → a < b → ltb a b ≡ true
lt→ltb a b h = ground arith

pub ltb→le : (a b : ℕ) → ltb a b ≡ false → b ≤ a
ltb→le a b h = ground arith

pub le→ltb : (a b : ℕ) → b ≤ a → ltb a b ≡ false
le→ltb a b h = ground arith

pub ==_iff : (a b : ℕ) → ((a == b) ≡ true) ↔ (a ≡ b)
==_iff a b = ground arith

pub ==_refl : (a : ℕ) → (a == a) ≡ true
==_refl a = (==_iff a a).1 refl

-- To split on a computed value and keep the equation.
pub if_holds {ℓ κ} :
    {A : Type ℓ} (P : A → Type κ) (b : Bool) {x y : A}
    → (b ≡ true → P x)
    → (b ≡ false → P y)
    → P (if b then x else y)
if_holds P true taken skipped = taken refl
if_holds P false taken skipped = skipped refl

pub Bool-cases : (b : Bool) → (b ≡ true) ⊎ (b ≡ false)
Bool-cases true = inl refl
Bool-cases false = inr refl

pub Option-cases {ℓ} : {A : Type ℓ} (o : Option A) → (o ≡ none) ⊎ ((a : A) × (o ≡ some a))
Option-cases none = inl refl
Option-cases (some a) = inr (a, refl)

-- `==` of byte strings.
unfoldable pub equal : List ℕ → List ℕ → Bool
equal [] [] = true
equal [] (y ∷ ys) = false
equal (x ∷ xs) [] = false
equal (x ∷ xs) (y ∷ ys) = x == y && equal xs ys

pub equal→eq : (xs ys : List ℕ) → equal xs ys ≡ true → xs ≡ ys
unfolding equal
equal→eq [] [] h = refl
equal→eq [] (y ∷ ys) h = cc
equal→eq (x ∷ xs) [] h = cc
equal→eq (x ∷ xs) (y ∷ ys) h = ground (arith, equal→eq xs ys)

pub equal_refl : (xs : List ℕ) → equal xs xs ≡ true
unfolding equal
equal_refl [] = refl
equal_refl (x ∷ xs) = ground (arith, equal_refl xs)
