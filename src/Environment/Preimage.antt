-- ===== src/Environment/Preimage.antt =====
-- src/environment.rs: the encoding of texts and lists in the hash preimage.
use mathlib.Core.Path.{ap₂}
use wasm_runtime.Base.{
  ℕ, ◌^◌, ◌<◌, ◌≡◌, refl, sym, ap, ◌∙◌, List, [], ◌∷◌, ◌++◌, append_assoc, append-nil, arith, Bytes,
  length, take, drop, take-append_at, drop-append_at, All,
}
use wasm_runtime.Base.Words.{to_be_bytes, from_be_bytes, from_be-to_be, length-to_be_bytes}
use wasm_runtime.Environment.{hash_string, hash_each, hash_strings}

-- The encoding of one string, and of a list of them, without the hash before them.
abbrev pub string_code : Bytes → Bytes
string_code value = to_be_bytes 8 (length value) ++ value

abbrev pub each_code : List Bytes → Bytes
each_code [] = []
each_code (value ∷ values) = string_code value ++ each_code values

abbrev pub strings_code : List Bytes → Bytes
strings_code values = to_be_bytes 8 (length values) ++ each_code values

pub hash_string-string_code : (hash v : Bytes) → hash_string hash v ≡ hash ++ string_code v
unfolding hash_string
hash_string-string_code hash v = append_assoc hash (to_be_bytes 8 (length v)) v

hash_each-each_code : (vs : List Bytes) (hash : Bytes) → hash_each hash vs ≡ hash ++ each_code vs
unfolding hash_each
hash_each-each_code [] hash = sym (append-nil hash)
hash_each-each_code (v ∷ vs) hash =
    hash_each-each_code vs (hash_string hash v)
    ∙ ap (λ h. h ++ each_code vs) (hash_string-string_code hash v)
    ∙ append_assoc hash (string_code v) (each_code vs)

pub hash_strings-strings_code :
    (hash : Bytes) (vs : List Bytes) → hash_strings hash vs ≡ hash ++ strings_code vs
unfolding hash_strings
hash_strings-strings_code hash vs =
    hash_each-each_code vs (hash ++ to_be_bytes 8 (length vs))
    ∙ append_assoc hash (to_be_bytes 8 (length vs)) (each_code vs)

-- Equal concatenations whose first parts have one length.
pub append-cancel :
    (xs ys : Bytes) {ps qs : Bytes}
    → length xs ≡ length ys
    → xs ++ ps ≡ ys ++ qs
    → (xs ≡ ys) × (ps ≡ qs)
append-cancel xs ys {ps = ps} {qs = qs} n e = (
  sym (take-append_at (length xs) xs ps refl)
      ∙ ap (take (length xs)) e
      ∙ take-append_at (length xs) ys qs n,
  sym (drop-append_at (length xs) xs ps refl)
      ∙ ap (drop (length xs)) e
      ∙ drop-append_at (length xs) ys qs n,
)

-- A number of fixed width in front.
pub number-cancel :
    (k m n : ℕ) {ps qs : Bytes}
    → m < 256 ^ k
    → n < 256 ^ k
    → to_be_bytes k m ++ ps ≡ to_be_bytes k n ++ qs
    → (m ≡ n) × (ps ≡ qs)
number-cancel k m n hm hn e =
    let (front, back) =
      append-cancel (to_be_bytes k m) (to_be_bytes k n)
        (length-to_be_bytes k m ∙ sym (length-to_be_bytes k n)) e in
    (sym (from_be-to_be k m hm) ∙ ap from_be_bytes front ∙ from_be-to_be k n hn, back)

-- The length of a text fits eight bytes.
abbrev pub IsCounted : Bytes → Type 0
IsCounted v = length v < 256 ^ 8

pub string_code-cancel :
    (v w : Bytes) {ps qs : Bytes}
    → IsCounted v
    → IsCounted w
    → string_code v ++ ps ≡ string_code w ++ qs
    → (v ≡ w) × (ps ≡ qs)
string_code-cancel v w {ps = ps} {qs = qs} hv hw e =
    let (n, rest) = number-cancel 8 (length v) (length w) {ps = v ++ ps} {qs = w ++ qs} hv hw (
      sym (append_assoc (to_be_bytes 8 (length v)) v ps)
      ∙ e
      ∙ append_assoc (to_be_bytes 8 (length w)) w qs) in
    append-cancel v w n rest

each_code-cancel :
    (vs ws : List Bytes) {ps qs : Bytes}
    → All IsCounted vs
    → All IsCounted ws
    → length vs ≡ length ws
    → each_code vs ++ ps ≡ each_code ws ++ qs
    → (vs ≡ ws) × (ps ≡ qs)
each_code-cancel [] [] hv hw n e = (refl, e)
each_code-cancel [] (w ∷ ws) hv hw n e = absurd (omega arith)
each_code-cancel (v ∷ vs) [] hv hw n e = absurd (omega arith)
each_code-cancel (v ∷ vs) (w ∷ ws) {ps = ps} {qs = qs} hv hw n e =
    let (head, rest) =
      string_code-cancel v w {ps = each_code vs ++ ps} {qs = each_code ws ++ qs} hv.0 hw.0 (
        sym (append_assoc (string_code v) (each_code vs) ps)
        ∙ e
        ∙ append_assoc (string_code w) (each_code ws) qs) in
    let (tail, last) = each_code-cancel vs ws hv.1 hw.1 (omega arith) rest in
    (ap₂ (λ x xs. x ∷ xs) head tail, last)

pub strings_code-cancel :
    (vs ws : List Bytes) {ps qs : Bytes}
    → length vs < 256 ^ 8
    → length ws < 256 ^ 8
    → All IsCounted vs
    → All IsCounted ws
    → strings_code vs ++ ps ≡ strings_code ws ++ qs
    → (vs ≡ ws) × (ps ≡ qs)
strings_code-cancel vs ws {ps = ps} {qs = qs} nv nw hv hw e =
    let (n, rest) =
      number-cancel 8 (length vs) (length ws) {ps = each_code vs ++ ps} {qs = each_code ws ++ qs} nv
        nw
        (sym (append_assoc (to_be_bytes 8 (length vs)) (each_code vs) ps)
          ∙ e
          ∙ append_assoc (to_be_bytes 8 (length ws)) (each_code ws) qs) in
    each_code-cancel vs ws hv hw n rest
