-- ===== src/Base/Maps.antt =====
-- Rust's `HashMap` with text keys, as an association list.
use Prim.Native.Nat.{ℕ, ◌+◌, ◌≤◌}
use mathlib.Core.Path.{◌≡◌, refl, subst}
use mathlib.Core.Logic.{◌↔◌, inl, inr}
use mathlib.Core.Bool.{true, false}
use mathlib.Core.Option.{Option, none, some}
use mathlib.Core.List.{List, [], ◌∷◌}
use native.Mathlib.Omega.{arith}
use wasm_runtime.Base.Booleans.{if◌then◌else◌, Bool-cases, equal, equal→eq, equal_refl}
use wasm_runtime.Base.Lists.{Bytes, length, All}

abbrev pub HashMap {ℓ} : Type ℓ → Type ℓ
HashMap V = List (Bytes × V)

pub equal_iff : (a b : Bytes) → (equal a b ≡ true) ↔ (a ≡ b)
equal_iff a b = (equal→eq a b, λ e. rw e (equal_refl b))

pub equal-false : (a b : Bytes) → (a ≡ b → ⊥) → equal a b ≡ false
equal-false a b h = elim (Bool-cases (equal a b)) [
  | inl same ↦ absurd (h (equal→eq a b same))
  | inr apart ↦ apart
]

module _ {ℓ} {V : Type ℓ} where
  unfoldable pub get : Bytes → HashMap V → Option V
  get key [] = none
  get key ((k, v) ∷ m) = if equal k key then some v else get key m

  -- The value under a key that is there is replaced.
  unfoldable pub insert : Bytes → V → HashMap V → HashMap V
  insert key value [] = (key, value) ∷ []
  insert key value ((k, v) ∷ m) =
      if equal k key then (key, value) ∷ m else (k, v) ∷ insert key value m

  unfoldable pub remove : Bytes → HashMap V → HashMap V
  remove key [] = []
  remove key ((k, v) ∷ m) = if equal k key then m else (k, v) ∷ remove key m

  -- No key stands twice.
  abbrev pub Distinct : HashMap V → Type ℓ
  Distinct [] = Unit {ℓ}
  Distinct ((k, v) ∷ m) = (get k m ≡ none) × Distinct m

  pub get-insert :
      (key j : Bytes) (value : V) (m : HashMap V)
      → get j (insert key value m) ≡ (if equal key j then some value else get j m)
  unfolding get insert
  get-insert key j value [] = refl
  get-insert key j value ((k, v) ∷ m) =
      ground (arith, equal_iff key j, equal_iff k key, equal_iff k j, get-insert key j value m)

  pub get-insert_self :
      (key : Bytes) (value : V) (m : HashMap V) → get key (insert key value m) ≡ some value
  get-insert_self key value m = rw (get-insert key key value m) (rw (equal_refl key) refl)

  pub insert-Distinct :
      (key : Bytes) (value : V) (m : HashMap V) → Distinct m → Distinct (insert key value m)
  unfolding insert get
  insert-Distinct key value [] d = (refl, tt)
  insert-Distinct key value ((k, v) ∷ m) d = ground (
    arith,
    equal_iff k key,
    equal_iff key k,
    get-insert key k value m,
    insert-Distinct key value m d.1,
  )

  pub get-remove :
      (key j : Bytes) (m : HashMap V)
      → Distinct m
      → get j (remove key m) ≡ (if equal key j then none else get j m)
  unfolding get remove
  get-remove key j [] d = ground arith
  get-remove key j ((k, v) ∷ m) d =
      ground (arith, equal_iff key j, equal_iff k key, equal_iff k j, get-remove key j m d.1)

  pub remove-Distinct : (key : Bytes) (m : HashMap V) → Distinct m → Distinct (remove key m)
  unfolding remove get
  remove-Distinct key [] d = tt
  remove-Distinct key ((k, v) ∷ m) d =
      ground (arith, get-remove key k m d.1, remove-Distinct key m d.1)

  pub length-insert_present :
      (key : Bytes) (value : V) (m : HashMap V) (old : V)
      → get key m ≡ some old
      → length (insert key value m) ≡ length m
  unfolding get insert
  length-insert_present key value [] old h = cc
  length-insert_present key value ((k, v) ∷ m) old h =
      ground (arith, length-insert_present key value m old)

  pub length-remove :
      (key : Bytes) (m : HashMap V) (old : V)
      → get key m ≡ some old
      → length m ≡ length (remove key m) + 1
  unfolding get remove
  length-remove key [] old h = cc
  length-remove key ((k, v) ∷ m) old h = ground (arith, length-remove key m old)

  pub length-remove_le : (key : Bytes) (m : HashMap V) → length (remove key m) ≤ length m
  unfolding remove
  length-remove_le key [] = omega arith
  length-remove_le key ((k, v) ∷ m) = ground (arith, length-remove_le key m)

  -- The sum of a measure over the values.
  module _ (size : V → ℕ) where
    abbrev pub total : HashMap V → ℕ
    total [] = 0
    total ((k, v) ∷ m) = size v + total m

    pub total-insert_absent :
        (key : Bytes) (value : V) (m : HashMap V)
        → get key m ≡ none
        → total (insert key value m) ≡ total m + size value
    unfolding get insert
    total-insert_absent key value [] h = omega arith
    total-insert_absent key value ((k, v) ∷ m) h = ground (arith, total-insert_absent key value m)

    pub total-insert_present :
        (key : Bytes) (value : V) (m : HashMap V) (old : V)
        → get key m ≡ some old
        → total (insert key value m) + size old ≡ total m + size value
    unfolding get insert
    total-insert_present key value [] old h = cc
    total-insert_present key value ((k, v) ∷ m) old h =
        ground (arith, total-insert_present key value m old)

    pub total-remove :
        (key : Bytes) (m : HashMap V) (old : V)
        → get key m ≡ some old
        → total m ≡ total (remove key m) + size old
    unfolding get remove
    total-remove key [] old h = cc
    total-remove key ((k, v) ∷ m) old h = ground (arith, total-remove key m old)

  module _ {κ} (P : Bytes × V → Type κ) where
    pub All-insert :
        (key : Bytes) (value : V) (m : HashMap V)
        → P (key, value)
        → All P m
        → All P (insert key value m)
    unfolding insert
    All-insert key value [] p h = (p, tt)
    All-insert key value ((k, v) ∷ m) p h = ground (arith, All-insert key value m p h.1)

    pub All-remove : (key : Bytes) (m : HashMap V) → All P m → All P (remove key m)
    unfolding remove
    All-remove key [] h = tt
    All-remove key ((k, v) ∷ m) h = ground (arith, All-remove key m h.1)

  pub All-get {κ} :
      (Q : V → Type κ) (key : Bytes) (value : V) (m : HashMap V)
      → All (λ e. Q e.1) m
      → get key m ≡ some value
      → Q value
  unfolding get
  All-get Q key value [] h found = cc
  All-get Q key value ((k, v) ∷ m) h found = elim (Bool-cases (equal k key)) [
    | inl here ↦ subst Q (ground arith) h.0
    | inr there ↦ All-get Q key value m h.1 (ground arith)
  ]
