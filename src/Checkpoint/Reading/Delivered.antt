-- ===== src/Checkpoint/Reading/Delivered.antt =====
-- src/checkpoint.rs: the reads of `open_reader`, and the bytes that a reader delivers.
use wasm_runtime.Base.{
  ℕ, suc, zero, ◌-◌, ◌≤◌, ◌<◌, ◌≡◌, refl, sym, ap, ◌∙◌, inl, inr, Bool-cases, true, false, String,
  List, [], ◌∷◌, ◌++◌, arith, Bytes, length, length-append, take, drop, leb,
}
use wasm_runtime.Failure.{ok}
use wasm_runtime.Checkpoint.Reading.{
  ReadEvent, bytes_ready, interrupted, failed, put_back, read_checkpoint_exact,
  read_checkpoint_trailing_byte,
}

-- A reader without errors and without an early end of file.
abbrev pub IsClean : List ReadEvent → Type 0
IsClean [] = Unit {0}
IsClean (bytes_ready [] ∷ events) = ⊥
IsClean (bytes_ready (b ∷ bs) ∷ events) = IsClean events
IsClean (interrupted ∷ events) = IsClean events
IsClean (failed e m ∷ events) = ⊥

abbrev pub delivered : List ReadEvent → Bytes
delivered [] = []
delivered (bytes_ready bs ∷ events) = bs ++ delivered events
delivered (interrupted ∷ events) = delivered events
delivered (failed e m ∷ events) = []

minus_zero : (n : ℕ) → n ≡ n - 0
minus_zero n = omega arith

minus_suc : (n k : ℕ) → n - k ≡ suc n - suc k
minus_suc n k = omega arith

take-append_long :
    (n : ℕ) (xs ys : Bytes) → length xs ≤ n → take n (xs ++ ys) ≡ xs ++ take (n - length xs) ys
take-append_long n [] ys h = ap (λ k. take k ys) (minus_zero n)
take-append_long zero (x ∷ xs) ys h = absurd (omega arith)
take-append_long (suc n) (x ∷ xs) ys h =
    ap (λ t. x ∷ t)
      (take-append_long n xs ys (omega arith) ∙ ap (λ k. xs ++ take k ys) (minus_suc n (length xs)))

drop-append_long :
    (n : ℕ) (xs ys : Bytes) → length xs ≤ n → drop n (xs ++ ys) ≡ drop (n - length xs) ys
drop-append_long n [] ys h = ap (λ k. drop k ys) (minus_zero n)
drop-append_long zero (x ∷ xs) ys h = absurd (omega arith)
drop-append_long (suc n) (x ∷ xs) ys h =
    drop-append_long n xs ys (omega arith) ∙ ap (λ k. drop k ys) (minus_suc n (length xs))

take-append_short : (n : ℕ) (xs ys : Bytes) → n ≤ length xs → take n (xs ++ ys) ≡ take n xs
take-append_short zero xs ys h = refl
take-append_short (suc n) [] ys h = absurd (omega arith)
take-append_short (suc n) (x ∷ xs) ys h = ap (λ t. x ∷ t) (take-append_short n xs ys (omega arith))

drop-append_short : (n : ℕ) (xs ys : Bytes) → n ≤ length xs → drop n (xs ++ ys) ≡ drop n xs ++ ys
drop-append_short zero xs ys h = refl
drop-append_short (suc n) [] ys h = absurd (omega arith)
drop-append_short (suc n) (x ∷ xs) ys h = drop-append_short n xs ys (omega arith)

put_back-IsClean :
    (bs : Bytes) (events : List ReadEvent)
    → IsClean events
    → IsClean (put_back bs events) × (delivered (put_back bs events) ≡ bs ++ delivered events)
put_back-IsClean [] events c = (c, refl)
put_back-IsClean (b ∷ bs) events c = (c, refl)

-- The outcome of an exact read: the first `n` bytes, and a reader of the others.
pub record ReadExactly (phase : String) (n : ℕ) (events : List ReadEvent) : Type 0 where
  pub rest : List ReadEvent
  pub got : read_checkpoint_exact phase n events ≡ ok (take n (delivered events), rest)
  pub clean : IsClean rest
  pub left : delivered rest ≡ drop n (delivered events)

read_short :
    (phase : String) (n b : ℕ) (bs : Bytes) (events : List ReadEvent)
    → IsClean events
    → n ≤ length bs
    → ReadExactly phase (suc n) (bytes_ready (b ∷ bs) ∷ events)
unfolding read_checkpoint_exact
read_short phase n b bs events c h =
    let (clean, left) = put_back-IsClean (drop n bs) events c in
    let fits : leb n (length bs) ≡ true = ground arith in
    record {
      rest = put_back (drop n bs) events;
      got = rw fits (
          ap (λ t. ok (b ∷ t, put_back (drop n bs) events))
            (sym (take-append_short n bs (delivered events) h)));
      clean = clean;
      left = left ∙ sym (drop-append_short n bs (delivered events) h);
    }

read_long :
    (phase : String) (n b : ℕ) (bs : Bytes) (events : List ReadEvent)
    → length bs < n
    → ReadExactly phase (n - length bs) events
    → ReadExactly phase (suc n) (bytes_ready (b ∷ bs) ∷ events)
unfolding read_checkpoint_exact
read_long phase n b bs events h r =
    let short : leb n (length bs) ≡ false = ground arith in
    record {
      rest = r.rest;
      got =
          rw (short, r.got)
            (ap (λ t. ok (b ∷ t, r.rest))
              (sym (take-append_long n bs (delivered events) (omega arith))));
      clean = r.clean;
      left = r.left ∙ sym (drop-append_long n bs (delivered events) (omega arith));
    }

pub read_checkpoint_exact-delivered :
    (phase : String) (n : ℕ) (events : List ReadEvent)
    → IsClean events
    → n ≤ length (delivered events)
    → ReadExactly phase n events
unfolding read_checkpoint_exact
read_checkpoint_exact-delivered phase zero events c h = record {
  rest = events;
  got = refl;
  clean = c;
  left = refl;
}
read_checkpoint_exact-delivered phase (suc n) [] c h = absurd (omega arith)
read_checkpoint_exact-delivered phase (suc n) (interrupted ∷ events) c h =
    let r = read_checkpoint_exact-delivered phase (suc n) events c h in
    record { rest = r.rest; got = r.got; clean = r.clean; left = r.left }
read_checkpoint_exact-delivered phase (suc n) (failed e m ∷ events) c h = absurd c
read_checkpoint_exact-delivered phase (suc n) (bytes_ready [] ∷ events) c h = absurd c
read_checkpoint_exact-delivered phase (suc n) (bytes_ready (b ∷ bs) ∷ events) c h =
    let long = length-append bs (delivered events) in
    elim (Bool-cases (leb n (length bs))) [
      | inl short ↦ read_short phase n b bs events c (ground arith)
      | inr over ↦
          let more : length bs < n = ground arith in
          read_long phase n b bs events more
            (read_checkpoint_exact-delivered phase (n - length bs) events c (omega arith))
    ]

-- A reader that has delivered everything answers the last read with the end of file.
pub read_checkpoint_trailing_byte-clean :
    (events : List ReadEvent)
    → IsClean events
    → delivered events ≡ []
    → read_checkpoint_trailing_byte events ≡ ok 0
unfolding read_checkpoint_trailing_byte
read_checkpoint_trailing_byte-clean [] c e = refl
read_checkpoint_trailing_byte-clean (interrupted ∷ events) c e =
    read_checkpoint_trailing_byte-clean events c e
read_checkpoint_trailing_byte-clean (failed u m ∷ events) c e = absurd c
read_checkpoint_trailing_byte-clean (bytes_ready [] ∷ events) c e = absurd c
read_checkpoint_trailing_byte-clean (bytes_ready (b ∷ bs) ∷ events) c e = cc
