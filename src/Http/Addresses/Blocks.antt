-- ===== src/Http/Addresses/Blocks.antt =====
-- src/http.rs: the public IPv4 addresses as numbers of 32 bits.
use wasm_runtime.Base.{
  ltb, ℕ, ◌+◌, ◌*◌, ◌^◌, ◌≤◌, ◌<◌, true, false, ◌&&◌, ◌==◌, leb, ◌≡◌, ◌⊎◌, ◌↔◌, List, [], ◌∷◌, All,
  arith,
}
use wasm_runtime.Http.Addresses.{is_public_v4}

unfoldable pub address : ℕ → ℕ → ℕ → ℕ → ℕ
address a b c d = a * 2 ^ 24 + b * 2 ^ 16 + c * 2 ^ 8 + d

-- A block by its first address and its size.
abbrev pub Outside : ℕ → ℕ × ℕ → Type 0
Outside n (first, size) = (n < first) ⊎ (first + size ≤ n)

-- The blocks that the registries keep for special purposes, as far as the code knows them.
abbrev pub special_blocks : List (ℕ × ℕ)
special_blocks =
    (address 0 0 0 0, 2 ^ 24)
    ∷ ((address 10 0 0 0, 2 ^ 24)
        ∷ ((address 100 64 0 0, 2 ^ 22)
            ∷ ((address 127 0 0 0, 2 ^ 24)
                ∷ ((address 169 254 0 0, 2 ^ 16)
                    ∷ ((address 172 16 0 0, 2 ^ 20)
                        ∷ ((address 192 0 0 0, 2 ^ 8)
                            ∷ ((address 192 0 2 0, 2 ^ 8)
                                ∷ ((address 192 88 99 0, 2 ^ 8)
                                    ∷ ((address 192 168 0 0, 2 ^ 16)
                                        ∷ ((address 198 18 0 0, 2 ^ 17)
                                            ∷ ((address 198 51 100 0, 2 ^ 8)
                                                ∷ ((address 203 0 113 0, 2 ^ 8)
                                                    ∷ ((address 224 0 0 0, 2 ^ 29) ∷ [])))))))))))))

module _ (a b c d : ℕ) (b_octet : b < 256) (c_octet : c < 256) (d_octet : d < 256) where
  octet_block : (x : ℕ) → Outside (address a b c d) (address x 0 0 0, 2 ^ 24) ↔ ((a == x) ≡ false)
  unfolding address
  octet_block x = (λ o. ground arith, λ h. ground arith)

  range_block :
      (x low count : ℕ)
      → low + count ≤ 256
      → Outside (address a b c d) (address x low 0 0, count * 2 ^ 16)
        ↔ ((a == x && (leb low b && ltb b (low + count))) ≡ false)
  unfolding address
  range_block x low count le = (λ o. ground arith, λ h. ground arith)

  triple_block :
      (x y z : ℕ)
      → y < 256
      → z < 256
      → Outside (address a b c d) (address x y z 0, 2 ^ 8)
        ↔ ((a == x && (b == y && c == z)) ≡ false)
  unfolding address
  triple_block x y z lt lt' = (λ o. ground arith, λ h. ground arith)

  high_block : a < 256 → Outside (address a b c d) (address 224 0 0 0, 2 ^ 29) ↔ (leb 224 a ≡ false)
  unfolding address
  high_block lt = (λ o. ground arith, λ h. ground arith)

is_public_v4-flags :
    (a b c d : ℕ)
    → (is_public_v4 a b c d ≡ true) ↔ (
        ((a == 0) ≡ false)
        × ((a == 10) ≡ false)
        × ((a == 100 && (leb 64 b && ltb b 128)) ≡ false)
        × ((a == 127) ≡ false)
        × ((a == 169 && (leb 254 b && ltb b 255)) ≡ false)
        × ((a == 172 && (leb 16 b && ltb b 32)) ≡ false)
        × ((a == 192 && (b == 0 && c == 0)) ≡ false)
        × ((a == 192 && (b == 0 && c == 2)) ≡ false)
        × ((a == 192 && (b == 88 && c == 99)) ≡ false)
        × ((a == 192 && (leb 168 b && ltb b 169)) ≡ false)
        × ((a == 198 && (leb 18 b && ltb b 20)) ≡ false)
        × ((a == 198 && (b == 51 && c == 100)) ≡ false)
        × ((a == 203 && (b == 0 && c == 113)) ≡ false)
        × (leb 224 a ≡ false))
unfolding is_public_v4
is_public_v4-flags a b c d = (
  λ h. (
    ground arith,
    ground arith,
    ground arith,
    ground arith,
    ground arith,
    ground arith,
    ground arith,
    ground arith,
    ground arith,
    ground arith,
    ground arith,
    ground arith,
    ground arith,
    ground arith,
  ),
  λ h. ground (arith, h),
)

-- An IPv4 address is public for the code exactly if its 32-bit number lies outside each of the
-- blocks for special purposes: this network, private use, shared, loopback, link-local, protocol
-- assignments, documentation, relays, benchmarks, multicast, reserved and broadcast.
pub is_public_v4-special_blocks :
    (a b c d : ℕ)
    → a < 256
    → b < 256
    → c < 256
    → d < 256
    → (is_public_v4 a b c d ≡ true) ↔ All (Outside (address a b c d)) special_blocks
is_public_v4-special_blocks a b c d al bl cl dl =
    let flags = is_public_v4-flags a b c d in
    let k0 = octet_block a b c d bl cl dl 0 in
    let k1 = octet_block a b c d bl cl dl 10 in
    let k2 = range_block a b c d bl cl dl 100 64 64 (omega arith) in
    let k3 = octet_block a b c d bl cl dl 127 in
    let k4 = range_block a b c d bl cl dl 169 254 1 (omega arith) in
    let k5 = range_block a b c d bl cl dl 172 16 16 (omega arith) in
    let k6 = triple_block a b c d bl cl dl 192 0 0 (omega arith) (omega arith) in
    let k7 = triple_block a b c d bl cl dl 192 0 2 (omega arith) (omega arith) in
    let k8 = triple_block a b c d bl cl dl 192 88 99 (omega arith) (omega arith) in
    let k9 = range_block a b c d bl cl dl 192 168 1 (omega arith) in
    let k10 = range_block a b c d bl cl dl 198 18 2 (omega arith) in
    let k11 = triple_block a b c d bl cl dl 198 51 100 (omega arith) (omega arith) in
    let k12 = triple_block a b c d bl cl dl 203 0 113 (omega arith) (omega arith) in
    let k13 = high_block a b c d bl cl dl al in
    (
      λ h.
          (let (h0, h1, h2, h3, h4, h5, h6, h7, h8, h9, h10, h11, h12, h13) = flags.0 h in
            (
              k0.1 h0,
              (
                k1.1 h1,
                (
                  k2.1 h2,
                  (
                    k3.1 h3,
                    (
                      k4.1 h4,
                      (
                        k5.1 h5,
                        (
                          k6.1 h6,
                          (
                            k7.1 h7,
                            (
                              k8.1 h8,
                              (k9.1 h9, (k10.1 h10, (k11.1 h11, (k12.1 h12, (k13.1 h13, tt))))),
                            ),
                          ),
                        ),
                      ),
                    ),
                  ),
                ),
              ),
            )),
      λ (o0, (o1, (o2, (o3, (o4, (o5, (o6, (o7, (o8, (o9, (o10, (o11, (o12, (o13, u)))))))))))))).
          flags.1 (
            k0.0 o0,
            k1.0 o1,
            k2.0 o2,
            k3.0 o3,
            k4.0 o4,
            k5.0 o5,
            k6.0 o6,
            k7.0 o7,
            k8.0 o8,
            k9.0 o9,
            k10.0 o10,
            k11.0 o11,
            k12.0 o12,
            k13.0 o13,
          ),
    )
