-- ===== src/Http/Addresses.antt =====
-- src/http.rs: the addresses that a guest may be connected to.
pub mod Blocks
use wasm_runtime.Base.{◌/◌, ℕ, ◌+◌, ◌*◌, ◌<◌, Bool, true, false, not, ◌&&◌, ◌||◌, ◌==◌, leb}

-- `std::net::IpAddr`, by its octets and segments.
pub data IpAddr : Type 0 where
  v4 : (a b c d : ℕ) → IpAddr
  v6 : (s0 s1 s2 s3 s4 s5 s6 s7 : ℕ) → IpAddr

-- The tests of `std::net::Ipv4Addr`.
abbrev is_private : ℕ → ℕ → Bool
is_private a b = (a == 10) || (a == 172 && leb 16 b && leb b 31) || (a == 192 && b == 168)

abbrev is_documentation : ℕ → ℕ → ℕ → Bool
is_documentation a b c =
    (a == 192 && b == 0 && c == 2)
    || (a == 198 && b == 51 && c == 100)
    || (a == 203 && b == 0 && c == 113)

abbrev is_broadcast : ℕ → ℕ → ℕ → ℕ → Bool
is_broadcast a b c d = a == 255 && b == 255 && c == 255 && d == 255

unfoldable pub is_public_v4 : ℕ → ℕ → ℕ → ℕ → Bool
is_public_v4 a b c d = not (
    a == 0
    || is_private a b
    || a == 127
    || (a == 169 && b == 254)
    || is_broadcast a b c d
    || is_documentation a b c
    || (a == 0 && b == 0 && c == 0 && d == 0)
    || (leb 224 a && leb a 239)
    || (a == 100 && (leb 64 b && leb b 127))
    || (a == 192 && b == 0 && c == 0)
    || (a == 192 && b == 88 && c == 99)
    || (a == 198 && (b == 18 || b == 19))
    || leb 240 a)

-- `segments[0] & 0xe000 == 0x2000` says that the three top bits are 001.
unfoldable pub is_public_v6 : ℕ → ℕ → Bool
is_public_v6 first second = first / 8192 == 1 && not (first == 8193 && second == 3512)

unfoldable pub is_public_ip : IpAddr → Bool
is_public_ip (v4 a b c d) = is_public_v4 a b c d
is_public_ip (v6 first second s2 s3 s4 s5 s6 s7) = is_public_v6 first second
