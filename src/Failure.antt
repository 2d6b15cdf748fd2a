-- ===== src/Failure.antt =====
-- src/error.rs: the error type, and the results of functions that fail or panic.
-- A formatted message is kept as the list of its pieces, so that no value in it is lost.
pub mod Phases
pub mod Stateful
use wasm_runtime.Base.{
  ℕ, String, Bool, true, false, Option, none, some, List, [], ◌∷◌, ◌≡◌, ◌≢◌, refl, arith, Bytes,
  ◌<◌, ltb, ◌+◌, ◌^◌, if◌then◌else◌, ◌⊎◌, inl, inr,
}
use wasm_runtime.Failure.Phases.{WasixCheckpointRestoreFailure, WasixCheckpointCaptureFailure}

-- An argument of `format!`.
pub data Piece : Type 0 where
  text : String → Piece
  bytes : Bytes → Piece
  quoted : Bytes → Piece
  number : ℕ → Piece

abbrev pub Message : Type 0
Message = List Piece

pub data Error : Type 0 where
  configuration : Message → Error
  io : Message → Error
  preparation : Message → Error
  unsupported_component : Message → Error
  execution : Message → Error
  limit : String → Error
  cancelled : Error
  idle_evicted : Error
  invalid_state : String → Error
  timeout : Error
  cache : Message → Error
  checkpoint : Message → Error
  checkpoint_restore : WasixCheckpointRestoreFailure → Error
  checkpoint_capture : WasixCheckpointCaptureFailure → Error

-- `panic` is an out-of-range slice or a failed arithmetic check; `stuck` is no Rust outcome: the
-- fuel of a loop ran out.
pub data Result {ℓ} (Value : Type ℓ) : Type ℓ where
  panic stuck : Result Value
  err : (failure : Error) → Result Value
  ok : (value : Value) → Result Value

-- The `?` operator.
infixl 5 ◌>>=◌ ◌>>◌
abbrev pub ◌>>=◌ {ℓ κ} :
    {Value : Type ℓ} {Next : Type κ} → Result Value → (Value → Result Next) → Result Next
panic >>= next = panic
stuck >>= next = stuck
err failure >>= next = err failure
ok value >>= next = next value

abbrev pub ◌>>◌ {κ} : {Next : Type κ} → Result (Unit {0}) → Result Next → Result Next
checked >> next = checked >>= λ passed. next

-- `if bad { return Err(e) }`
abbrev pub reject : Bool → Error → Result (Unit {0})
reject true e = err e
reject false e = ok tt

-- `option.ok_or(e)?`
abbrev pub ok_or {ℓ} : {A : Type ℓ} → Option A → Error → Result A
ok_or none e = err e
ok_or (some a) e = ok a

-- `Result<_, Error>` outcomes: neither a panic nor a loop without end.
abbrev pub Returns {ℓ} : {A : Type ℓ} → Result A → Type 0
Returns (ok a) = Unit {0}
Returns (err e) = Unit {0}
Returns panic = ⊥
Returns stuck = ⊥

module _ {ℓ κ} {Value : Type ℓ} {Next : Type κ} where
  pub >>=-eq-ok :
      (first : Result Value) (next : Value → Result Next) {last : Next}
      → (first >>= next) ≡ ok last
      → (value : Value) × (first ≡ ok value) × (next value ≡ ok last)
  >>=-eq-ok panic next e = cc
  >>=-eq-ok stuck next e = cc
  >>=-eq-ok (err failure) next e = cc
  >>=-eq-ok (ok value) next e = (value, refl, e)

  pub Returns-bind :
      (first : Result Value) (next : Value → Result Next)
      → Returns first
      → ((value : Value) → first ≡ ok value → Returns (next value))
      → Returns (first >>= next)
  Returns-bind panic next r k = r
  Returns-bind stuck next r k = r
  Returns-bind (err failure) next r k = tt
  Returns-bind (ok value) next r k = k value refl

module _ {κ} {Next : Type κ} where
  pub >>-eq-ok :
      (checked : Result (Unit {0})) (next : Result Next) {last : Next}
      → (checked >> next) ≡ ok last
      → (checked ≡ ok tt) × (next ≡ ok last)
  >>-eq-ok panic next e = cc
  >>-eq-ok stuck next e = cc
  >>-eq-ok (err failure) next e = cc
  >>-eq-ok (ok tt) next e = (refl, e)

  pub reject-eq-ok :
      (bad : Bool) (failure : Error) (next : Result Next) {last : Next}
      → (reject bad failure >> next) ≡ ok last
      → (bad ≡ false) × (next ≡ ok last)
  reject-eq-ok false failure next e = (refl, e)
  reject-eq-ok true failure next e = cc

  pub ok_or-eq-ok :
      (o : Option Next) (failure : Error) {last : Next} → ok_or o failure ≡ ok last → o ≡ some last
  ok_or-eq-ok (some value) failure e = cc
  ok_or-eq-ok none failure e = cc

  pub Returns-reject :
      (bad : Bool) (failure : Error) (next : Result Next)
      → (bad ≡ false → Returns next)
      → Returns (reject bad failure >> next)
  Returns-reject false failure next k = k refl
  Returns-reject true failure next k = tt

pub reject-Returns : (bad : Bool) (failure : Error) → Returns (reject bad failure)
reject-Returns false failure = tt
reject-Returns true failure = tt

-- `usize` on the supported 64-bit targets.
abbrev pub usize_end : ℕ
usize_end = 2 ^ 64

-- `usize::checked_add`
unfoldable pub checked_add : ℕ → ℕ → Option ℕ
checked_add a b = if ltb (a + b) usize_end then some (a + b) else none

-- A pure step between two binds.
pub bind_chain {ℓ κ μ} :
    {A : Type ℓ} {B : Type κ} {C : Type μ} (m : Result A) (h : A → B) (k : B → Result C)
    (l : A → Result C)
    → ((a : A) → k (h a) ≡ l a)
    → ((m >>= λ a. ok (h a)) >>= k) ≡ (m >>= l)
bind_chain (ok a) h k l e = e a
bind_chain (err x) h k l e = refl
bind_chain panic h k l e = refl
bind_chain stuck h k l e = refl

pub ok-injective {ℓ} : {A : Type ℓ} {a b : A} → ok a ≡ ok b → a ≡ b
ok-injective e = cc

-- A result with its equation.
pub Result-cases {ℓ} :
    {A : Type ℓ} (r : Result A)
    → ((a : A) × (r ≡ ok a)) ⊎ (((e : Error) × (r ≡ err e)) ⊎ ((r ≡ panic) ⊎ (r ≡ stuck)))
Result-cases (ok a) = inl (a, refl)
Result-cases (err e) = inr (inl (e, refl))
Result-cases panic = inr (inr (inl refl))
Result-cases stuck = inr (inr (inr refl))
