-- ===== src/Environment/Items.antt =====
-- src/environment.rs: the identity fields as a list of texts and lists of texts.
use mathlib.Core.Path.{ap₂}
use wasm_runtime.Base.{ℕ, zero, suc, ◌^◌, ◌<◌, ◌≡◌, refl, List, [], ◌∷◌, ◌++◌, All, Bytes, length}
use wasm_runtime.Environment.Preimage.{
  string_code, strings_code, string_code-cancel, strings_code-cancel, IsCounted,
}

pub data Item : Type 0 where
  one : Bytes → Item
  many : List Bytes → Item

abbrev pub item_code : Item → Bytes
item_code (one v) = string_code v
item_code (many vs) = strings_code vs

abbrev pub items_code : List Item → Bytes
items_code [] = []
items_code (item ∷ items) = item_code item ++ items_code items

-- A `u64` counts every length.
abbrev pub IsCountedItem : Item → Type 0
IsCountedItem (one v) = IsCounted v
IsCountedItem (many vs) = (length vs < 256 ^ 8) × All IsCounted vs

abbrev pub SameShape : List Item → List Item → Type 0
SameShape [] [] = Unit {0}
SameShape (one v ∷ is) (one w ∷ js) = SameShape is js
SameShape (many vs ∷ is) (many ws ∷ js) = SameShape is js
SameShape is js = ⊥

-- Lists of one shape have equal codes only if they are equal.
pub items_code-injective :
    (is js : List Item)
    → SameShape is js
    → All IsCountedItem is
    → All IsCountedItem js
    → items_code is ≡ items_code js
    → is ≡ js
items_code-injective [] [] s hi hj e = refl
items_code-injective [] (j ∷ js) s hi hj e = absurd s
items_code-injective (one v ∷ is) [] s hi hj e = absurd s
items_code-injective (many vs ∷ is) [] s hi hj e = absurd s
items_code-injective (one v ∷ is) (many ws ∷ js) s hi hj e = absurd s
items_code-injective (many vs ∷ is) (one w ∷ js) s hi hj e = absurd s
items_code-injective (one v ∷ is) (one w ∷ js) s hi hj e =
    let (head, rest) = string_code-cancel v w hi.0 hj.0 e in
    ap₂ (λ x xs. one x ∷ xs) head (items_code-injective is js s hi.1 hj.1 rest)
items_code-injective (many vs ∷ is) (many ws ∷ js) s hi hj e =
    let ((nv, hv), his) = hi in
    let ((nw, hw), hjs) = hj in
    let (head, rest) = strings_code-cancel vs ws nv nw hv hw e in
    ap₂ (λ x xs. many x ∷ xs) head (items_code-injective is js s his hjs rest)

-- The text, or the list of texts, at a place.
abbrev pub one_at : ℕ → List Item → Bytes
one_at n [] = []
one_at zero (one v ∷ items) = v
one_at zero (many vs ∷ items) = []
one_at (suc n) (item ∷ items) = one_at n items

abbrev pub many_at : ℕ → List Item → List Bytes
many_at n [] = []
many_at zero (one v ∷ items) = []
many_at zero (many vs ∷ items) = vs
many_at (suc n) (item ∷ items) = many_at n items
