-- ===== src/Failure/Stateful.antt =====
-- Rust methods that change a state and return `Result`: the state is passed on explicitly, and what
-- was done before a failure stays done.
use wasm_runtime.Base.{none, some, Option, true, false, Bool, ◌≡◌, refl, ap, ◌∙◌}
use wasm_runtime.Failure.{reject, Error, Returns, Result, ok, err, panic, stuck}

abbrev pub Stateful : Type 0 → Type 0 → Type 0
Stateful S A = S → Result A × S

module _ {S : Type 0} where
  abbrev pub continue : {A B : Type 0} → Result A × S → (A → Stateful S B) → Result B × S
  continue (ok a, s) next = next a s
  continue (err e, s) next = (err e, s)
  continue (panic, s) next = (panic, s)
  continue (stuck, s) next = (stuck, s)

  infixl 5 ◌>>=◌ ◌>>◌
  abbrev pub ◌>>=◌ : {A B : Type 0} → Stateful S A → (A → Stateful S B) → Stateful S B
  ◌>>=◌ first next s = continue (first s) next

  abbrev pub ◌>>◌ : {B : Type 0} → Stateful S (Unit {0}) → Stateful S B → Stateful S B
  ◌>>◌ first next s = continue (first s) (λ passed. next)

  abbrev pub lift : {A : Type 0} → Result A → Stateful S A
  lift r s = (r, s)

  pub continue-eq-ok :
      {A B : Type 0} (first : Result A × S) (next : A → Stateful S B) {last : B}
      → (continue first next).0 ≡ ok last
      → (a : A) × (first.0 ≡ ok a) × ((next a first.1).0 ≡ ok last)
  continue-eq-ok (ok a, s) next h = (a, refl, h)
  continue-eq-ok (err e, s) next h = absurd (cc)
  continue-eq-ok (panic, s) next h = absurd (cc)
  continue-eq-ok (stuck, s) next h = absurd (cc)

-- Two runs give the same value if their parts do.
pub continue-value :
    {S A B : Type 0} (first other : Result A × S) (next after : A → Stateful S B)
    → first.0 ≡ other.0
    → ((a : A) → (next a first.1).0 ≡ (after a other.1).0)
    → (continue first next).0 ≡ (continue other after).0
continue-value (ok a, s) (r, t) next after e k = k a ∙ ap (λ x. (continue (x, t) after).0) e
continue-value (err f, s) (r, t) next after e k = ap (λ x. (continue (x, t) after).0) e
continue-value (panic, s) (r, t) next after e k = ap (λ x. (continue (x, t) after).0) e
continue-value (stuck, s) (r, t) next after e k = ap (λ x. (continue (x, t) after).0) e

-- What holds behind a run that returns, by its outcome; it neither panics nor runs on forever.
abbrev pub Post : {S A : Type 0} → (A → S → Type 0) → (S → Type 0) → Result A × S → Type 0
Post Q E (ok a, s) = Q a s
Post Q E (err e, s) = E s
Post Q E (panic, s) = ⊥
Post Q E (stuck, s) = ⊥

pub Post-continue :
    {S A B : Type 0} (Q : A → S → Type 0) (Q' : B → S → Type 0) (E : S → Type 0)
    (first : Result A × S) (next : A → Stateful S B)
    → Post Q E first
    → ((a : A) (s : S) → Q a s → Post Q' E (next a s))
    → Post Q' E (continue first next)
Post-continue Q Q' E (ok a, s) next h k = k a s h
Post-continue Q Q' E (err e, s) next h k = h
Post-continue Q Q' E (panic, s) next h k = absurd h
Post-continue Q Q' E (stuck, s) next h k = absurd h

pub Post-reject :
    {S B : Type 0} (Q : B → S → Type 0) (E : S → Type 0) (bad : Bool) (failure : Error) (s : S)
    (next : Stateful S B)
    → E s
    → (bad ≡ false → Post Q E (next s))
    → Post Q E (continue (reject bad failure, s) (λ passed. next))
Post-reject Q E true failure s next e h = e
Post-reject Q E false failure s next e h = h refl

pub Post-lift :
    {S A B : Type 0} (Q : B → S → Type 0) (E : S → Type 0) (r : Result A) (s : S)
    (next : A → Stateful S B)
    → Returns r
    → E s
    → ((a : A) → r ≡ ok a → Post Q E (next a s))
    → Post Q E (continue (r, s) next)
Post-lift Q E (ok a) s next returns e h = h a refl
Post-lift Q E (err f) s next returns e h = e
Post-lift Q E panic s next returns e h = absurd returns
Post-lift Q E stuck s next returns e h = absurd returns

-- `if let Some(a) = o { found(a) } else { absent }`
abbrev pub if_some : {S A B : Type 0} → Option A → (A → Stateful S B) → Stateful S B → Stateful S B
if_some none found absent = absent
if_some (some a) found absent = found a

pub Post-if_some :
    {S A B : Type 0} (Q : B → S → Type 0) (E : S → Type 0) (o : Option A) (found : A → Stateful S B)
    (absent : Stateful S B) (s : S)
    → ((a : A) → o ≡ some a → Post Q E (found a s))
    → (o ≡ none → Post Q E (absent s))
    → Post Q E (if_some o found absent s)
Post-if_some Q E none found absent s f n = n refl
Post-if_some Q E (some a) found absent s f n = f a refl
