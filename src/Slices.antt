-- ===== src/Slices.antt =====
-- Slices of byte buffers, which panic out of range, and the checked numeric conversions.
use wasm_runtime.Base.{
  ℕ, ◌+◌, ◌-◌, ◌≤◌, ◌≡◌, [], append-nil, sym, ap, ◌∙◌, take-append-drop, drop-drop, Option, none,
  some, ◌&&◌, ◌++◌, arith, Bytes, length, length-append, take, drop, take-append_at, drop-append_at,
  ltb, leb, if◌then◌else◌,
}
use wasm_runtime.Failure.{Result, ok, panic, usize_end}

-- `buffer[from..to]`
unfoldable pub slice : Bytes → ℕ → ℕ → Result Bytes
slice buffer from to =
    if leb from to && leb to (length buffer)
    then ok (take (to - from) (drop from buffer))
    else panic

-- `usize::try_from(u64)`
unfoldable pub usize_try_from : ℕ → Option ℕ
usize_try_from value = if ltb value usize_end then some value else none

pub slice-eq-ok :
    (buffer : Bytes) (from to : ℕ)
    → from ≤ to
    → to ≤ length buffer
    → slice buffer from to ≡ ok (take (to - from) (drop from buffer))
unfolding slice
slice-eq-ok buffer from to h k = ground arith

-- The middle part of a concatenation.
pub slice-append :
    (xs ys zs : Bytes) (from to : ℕ)
    → from ≡ length xs
    → to ≡ length xs + length ys
    → slice (xs ++ (ys ++ zs)) from to ≡ ok ys
slice-append xs ys zs from to hf ht =
    let e : slice (xs ++ (ys ++ zs)) from to
        ≡ ok (take (to - from) (drop from (xs ++ (ys ++ zs)))) =
      slice-eq-ok (xs ++ (ys ++ zs)) from to (omega arith)
        (omega (arith, length-append xs (ys ++ zs), length-append ys zs)) in
    e
    ∙ rw (drop-append_at from xs (ys ++ zs) hf)
        (ap ok (take-append_at (to - from) ys zs (omega arith)))

pub slice-inversion :
    (buffer : Bytes) (from to : ℕ) {part : Bytes}
    → slice buffer from to ≡ ok part
    → (from ≤ to) × (to ≤ length buffer) × (part ≡ take (to - from) (drop from buffer))
unfolding slice
slice-inversion buffer from to e = ground arith

-- A buffer is its first `i` bytes, the next `m`, the next `n` and the rest.
pub cut_in_four :
    (i m n : ℕ) (xs : Bytes)
    → xs ≡ take i xs ++ (take m (drop i xs) ++ (take n (drop (i + m) xs) ++ drop (i + m + n) xs))
cut_in_four i m n xs =
    sym (take-append-drop i xs)
    ∙ ap (λ t. take i xs ++ t)
        (sym (take-append-drop m (drop i xs))
          ∙ ap (λ t. take m (drop i xs) ++ t)
              (drop-drop i m xs
                ∙ sym (take-append-drop n (drop (i + m) xs))
                ∙ ap (λ t. take n (drop (i + m) xs) ++ t) (drop-drop (i + m) n xs)))

-- The last part of a concatenation.
pub slice-append_last :
    (xs ys : Bytes) (from to : ℕ)
    → from ≡ length xs
    → to ≡ length xs + length ys
    → slice (xs ++ ys) from to ≡ ok ys
slice-append_last xs ys from to hf ht = rw append-nil at (slice-append xs ys [] from to hf ht)
