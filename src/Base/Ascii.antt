-- ===== src/Base/Ascii.antt =====
-- Rust's tests on ASCII bytes, and the prefix operations on texts.
use Prim.Native.Nat.{ℕ}
use mathlib.Core.Path.{◌≡◌, refl}
use mathlib.Core.Bool.{Bool, true, false, ◌&&◌, ◌||◌}
use mathlib.Core.Option.{Option, none, some}
use mathlib.Core.List.{[], ◌∷◌, ◌++◌}
use native.Mathlib.Omega.{arith}
use wasm_runtime.Base.Booleans.{leb, ◌==◌, if◌then◌else◌, ==_refl}
use wasm_runtime.Base.Lists.{Bytes}

abbrev pub is_ascii_digit : ℕ → Bool
is_ascii_digit b = leb b'0' b && leb b b'9'

abbrev pub is_ascii_lowercase : ℕ → Bool
is_ascii_lowercase b = leb b'a' b && leb b b'z'

abbrev pub is_ascii_uppercase : ℕ → Bool
is_ascii_uppercase b = leb b'A' b && leb b b'Z'

abbrev pub is_ascii_alphanumeric : ℕ → Bool
is_ascii_alphanumeric b = is_ascii_digit b || is_ascii_lowercase b || is_ascii_uppercase b

abbrev pub is_ascii_hexdigit : ℕ → Bool
is_ascii_hexdigit b = is_ascii_digit b || (leb b'a' b && leb b b'f') || (leb b'A' b && leb b b'F')

abbrev pub is_ascii_graphic : ℕ → Bool
is_ascii_graphic b = leb b'!' b && leb b b'~'

abbrev pub is_ascii : ℕ → Bool
is_ascii b = leb b 127

abbrev pub is_ascii_control : ℕ → Bool
is_ascii_control b = leb b 31 || b == 127

-- `value.strip_prefix(prefix)`, the prefix first.
unfoldable pub strip_prefix : Bytes → Bytes → Option Bytes
strip_prefix [] value = some value
strip_prefix (p ∷ ps) [] = none
strip_prefix (p ∷ ps) (v ∷ vs) = if p == v then strip_prefix ps vs else none

-- `value.starts_with(prefix)`, the prefix first.
unfoldable pub starts_with : Bytes → Bytes → Bool
starts_with [] value = true
starts_with (p ∷ ps) [] = false
starts_with (p ∷ ps) (v ∷ vs) = p == v && starts_with ps vs

pub strip_prefix-eq-some : (ps vs rest : Bytes) → strip_prefix ps vs ≡ some rest → vs ≡ ps ++ rest
unfolding strip_prefix
strip_prefix-eq-some [] vs rest h = ground arith
strip_prefix-eq-some (p ∷ ps) [] rest h = cc
strip_prefix-eq-some (p ∷ ps) (v ∷ vs) rest h = ground (arith, strip_prefix-eq-some ps vs rest)

pub strip_prefix-append : (ps rest : Bytes) → strip_prefix ps (ps ++ rest) ≡ some rest
unfolding strip_prefix
strip_prefix-append [] rest = refl
strip_prefix-append (p ∷ ps) rest = rw (==_refl p) (strip_prefix-append ps rest)
