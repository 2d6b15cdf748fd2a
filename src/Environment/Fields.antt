-- ===== src/Environment/Fields.antt =====
-- src/environment.rs: the tests on single fields and on lists of them.
use wasm_runtime.Base.{
  ℕ, Bool, true, false, not, ◌&&◌, ◌||◌, none, some, String, List, [], ◌∷◌, Bytes, codes, length,
  all, any, ltb, ◌==◌, if◌then◌else◌, equal, drop,
}
use wasm_runtime.Base.Ascii.{
  is_ascii, is_ascii_control, is_ascii_alphanumeric, is_ascii_hexdigit, is_ascii_uppercase,
  strip_prefix, starts_with,
}
use wasm_runtime.Failure.{text, preparation, Result, ok, ◌>>=◌, ◌>>◌, reject, ok_or}

abbrev pub max_list_entries : ℕ
max_list_entries = 256

abbrev pub max_token_bytes : ℕ
max_token_bytes = 256

abbrev pub is_hex_byte : ℕ → Bool
is_hex_byte b = is_ascii_hexdigit b && not (is_ascii_uppercase b)

unfoldable pub validate_hex_sha256 : String → Bytes → Result (Unit {0})
validate_hex_sha256 label value = reject (not (length value == 64) || not (all is_hex_byte value)) (
    preparation
      (text label ∷ text " must contain exactly 64 lowercase hexadecimal characters" ∷ []))

unfoldable pub validate_prefixed_sha256 : String → Bytes → Result (Unit {0})
validate_prefixed_sha256 label value = do
  digest ←
      ok_or (strip_prefix (codes "sha256:") value)
        (preparation (text label ∷ text " must start with sha256:" ∷ []))
  validate_hex_sha256 label digest

abbrev pub is_text_byte : ℕ → Bool
is_text_byte b = is_ascii b && not (is_ascii_control b)

unfoldable pub validate_text : String → Bytes → Result (Unit {0})
validate_text label value =
    reject (length value == 0 || ltb max_token_bytes (length value) || not (all is_text_byte value))
      (preparation (text label ∷ text " must be 1 to 256 printable ASCII bytes" ∷ []))

abbrev pub is_name_byte : ℕ → Bool
is_name_byte b =
    is_ascii_alphanumeric b || b == b'.' || b == b'_' || b == b'-' || b == b'+' || b == b':'

unfoldable pub validate_token : String → Bytes → Result (Unit {0})
validate_token label value =
    reject (length value == 0 || ltb max_token_bytes (length value) || not (all is_name_byte value))
      (preparation (text label ∷ text " must be a bounded portable ASCII token" ∷ []))

-- `a < b` on strings, which is the order of their bytes.
unfoldable pub lex_lt : Bytes → Bytes → Bool
lex_lt xs [] = false
lex_lt [] (y ∷ ys) = true
lex_lt (x ∷ xs) (y ∷ ys) = ltb x y || (x == y && lex_lt xs ys)

-- `values.windows(2).any(|pair| pair[0] >= pair[1])`
unfoldable pub has_unordered : List Bytes → Bool
has_unordered [] = false
has_unordered (a ∷ []) = false
has_unordered (a ∷ (b ∷ values)) = not (lex_lt a b) || has_unordered (b ∷ values)

-- The loop that validates every entry.
unfoldable pub validate_each : (Bytes → Result (Unit {0})) → List Bytes → Result (Unit {0})
validate_each test [] = ok tt
validate_each test (value ∷ values) = test value >> validate_each test values

unfoldable pub validate_sorted_tokens : String → List Bytes → Result (Unit {0})
validate_sorted_tokens label values = do
  reject (ltb max_list_entries (length values))
      (preparation (text label ∷ text " exceeds 256 entries" ∷ []))
  validate_each (validate_token label) values
  reject (has_unordered values)
      (preparation (text label ∷ text " must be lexically sorted and unique" ∷ []))

-- `binary_search(value).is_ok()` on a sorted list, which finds what is there.
unfoldable pub contains : Bytes → List Bytes → Bool
contains value [] = false
contains value (v ∷ values) = equal value v || contains value values

abbrev pub ends_with_slash : Bytes → Bool
ends_with_slash [] = false
ends_with_slash (b ∷ []) = b == b'/'
ends_with_slash (b ∷ (c ∷ bs)) = ends_with_slash (c ∷ bs)

abbrev pub has_double_slash : Bytes → Bool
has_double_slash [] = false
has_double_slash (b ∷ []) = false
has_double_slash (b ∷ (c ∷ bs)) = (b == b'/' && c == b'/') || has_double_slash (c ∷ bs)

abbrev push : ℕ → List Bytes → List Bytes
push b [] = (b ∷ []) ∷ []
push b (s ∷ ss) = (b ∷ s) ∷ ss

-- `value.split('/')`
abbrev pub split_slash : Bytes → List Bytes
split_slash [] = [] ∷ []
split_slash (b ∷ bs) = let rest = split_slash bs in if b == b'/' then [] ∷ rest else push b rest

abbrev pub is_segment_byte : ℕ → Bool
is_segment_byte b = is_ascii_alphanumeric b || b == b'.' || b == b'_' || b == b'-' || b == b'+'

abbrev pub is_bad_segment : Bytes → Bool
is_bad_segment segment =
    length segment == 0
    || equal segment (codes ".")
    || equal segment (codes "..")
    || not (all is_segment_byte segment)

unfoldable pub validate_guest_path : String → Bytes → Result (Unit {0})
validate_guest_path label value =
    reject
      (ltb (length value) 2
        || ltb max_token_bytes (length value)
        || not (starts_with (codes "/") value)
        || ends_with_slash value
        || has_double_slash value
        || any (λ b. b == b'\\') value
        || any is_bad_segment (drop 1 (split_slash value)))
      (preparation (text label ∷ text " contains a non-canonical absolute POSIX path" ∷ []))

-- Whether the candidate is the ancestor, a slash and more.
unfoldable pub is_below : Bytes → Bytes → Bool
is_below ancestor candidate = elim (strip_prefix ancestor candidate) [
  | none ↦ false
  | some suffix ↦ starts_with (codes "/") suffix
]

-- Whether some entry is an ancestor of a later one.
unfoldable pub has_overlap : List Bytes → Bool
has_overlap [] = false
has_overlap (ancestor ∷ values) = any (is_below ancestor) values || has_overlap values

unfoldable pub validate_sorted_guest_paths : String → List Bytes → Result (Unit {0})
validate_sorted_guest_paths label values = do
  reject (ltb max_list_entries (length values))
      (preparation (text label ∷ text " exceeds 256 entries" ∷ []))
  validate_each (validate_guest_path label) values
  reject (has_unordered values)
      (preparation (text label ∷ text " must be lexically sorted and unique" ∷ []))
  reject (has_overlap values)
      (preparation (text label ∷ text " must not contain overlapping ancestor paths" ∷ []))

-- `==` of lists of strings.
unfoldable pub equal_lists : List Bytes → List Bytes → Bool
equal_lists [] [] = true
equal_lists [] (w ∷ ws) = false
equal_lists (v ∷ vs) [] = false
equal_lists (v ∷ vs) (w ∷ ws) = equal v w && equal_lists vs ws
