-- ===== src/Runtime/Detect/Exports.antt =====
-- src/runtime.rs: which exports decide the profile of a component.
use mathlib.Core.Path.{subst}
use wasm_runtime.Base.{
  ◌≡◌, ◌↔◌, ◌≢◌, ◌⊎◌, refl, ap, sym, true, none, some, List, [], ◌∷◌, Bytes, All, arith, Bool-cases,
  Option-cases, inl, inr,
}
use wasm_runtime.Environment.Fields.{lex_lt}
use wasm_runtime.Failure.{ok}
use wasm_runtime.Profiles.{WasiProfile, cli0_3, cli0_2, http0_3, http0_2, cache_id, profile_eq}
use wasm_runtime.Runtime.Detect.{
  Engine, profile_of, profiles_of, sort_insert, sort_by_key, dedup_from, dedup, only_profile,
  detect_profile,
}

profile_eq_iff : (p q : WasiProfile) → (profile_eq p q ≡ true) ↔ (p ≡ q)
unfolding profile_eq
profile_eq_iff cli0_3 q = (λ h. ground arith, λ h. ground arith)
profile_eq_iff cli0_2 q = (λ h. ground arith, λ h. ground arith)
profile_eq_iff http0_3 q = (λ h. ground arith, λ h. ground arith)
profile_eq_iff http0_2 q = (λ h. ground arith, λ h. ground arith)

-- Some export stands for the profile.
abbrev pub SomeNames : WasiProfile → List Bytes → Type 0
SomeNames p [] = ⊥
SomeNames p (name ∷ names) = (profile_of name ≡ some p) ⊎ SomeNames p names

-- An export stands for no profile, or for this one.
abbrev pub Agrees : WasiProfile → Bytes → Type 0
Agrees p name = (profile_of name ≡ none) ⊎ (profile_of name ≡ some p)

abbrev AllSame : WasiProfile → List WasiProfile → Type 0
AllSame p = All (λ q. q ≡ p)

sort_insert-AllSame :
    (p q : WasiProfile) (l : List WasiProfile)
    → AllSame p (sort_insert q l) ↔ ((q ≡ p) × AllSame p l)
unfolding sort_insert
sort_insert-AllSame p q [] = (λ h. (h.0, tt), λ h. (h.0, tt))
sort_insert-AllSame p q (r ∷ l) = elim (Bool-cases (lex_lt (cache_id r) (cache_id q))) [
  | inl smaller ↦
      let ih = sort_insert-AllSame p q l in
      rw smaller (λ h. ((ih.0 h.1).0, (h.0, (ih.0 h.1).1)), λ h. (h.1.0, ih.1 (h.0, h.1.1)))
  | inr first ↦ rw first (λ h. (h.0, h.1), λ h. (h.0, h.1))
]

sort_by_key-AllSame :
    (p : WasiProfile) (l : List WasiProfile) → AllSame p (sort_by_key l) ↔ AllSame p l
unfolding sort_by_key
sort_by_key-AllSame p [] = (λ h. h, λ h. h)
sort_by_key-AllSame p (q ∷ l) =
    let step = sort_insert-AllSame p q (sort_by_key l) in
    let ih = sort_by_key-AllSame p l in
    (λ h. ((step.0 h).0, ih.0 (step.0 h).1), λ h. step.1 (h.0, ih.1 h.1))

sort_insert-ne-nil : (q : WasiProfile) (l : List WasiProfile) → sort_insert q l ≢ []
unfolding sort_insert
sort_insert-ne-nil q [] = λ h. cc
sort_insert-ne-nil q (r ∷ l) = λ h. ground arith

sort_by_key-ne-nil : (l : List WasiProfile) → (sort_by_key l ≢ []) ↔ (l ≢ [])
unfolding sort_by_key
sort_by_key-ne-nil [] = (λ h. h, λ h. h)
sort_by_key-ne-nil (q ∷ l) = (λ h e. cc, λ h. sort_insert-ne-nil q (sort_by_key l))

dedup_from-eq-nil_iff :
    (p : WasiProfile) (l : List WasiProfile) → (dedup_from p l ≡ []) ↔ AllSame p l
unfolding dedup_from
dedup_from-eq-nil_iff p [] = (λ h. tt, λ h. refl)
dedup_from-eq-nil_iff p (q ∷ l) = elim (Bool-cases (profile_eq q p)) [
  | inl same ↦
      let ih = dedup_from-eq-nil_iff p l in
      rw same (λ h. ((profile_eq_iff q p).0 same, ih.0 h), λ h. ih.1 h.1)
  | inr other ↦ rw other (λ h. absurd (cc), λ h. absurd (ground (arith, profile_eq_iff q p)))
]

only_profile-cons_iff :
    (p q : WasiProfile) (l : List WasiProfile)
    → (only_profile (q ∷ l) ≡ ok p) ↔ ((q ≡ p) × (l ≡ []))
unfolding only_profile
only_profile-cons_iff p q [] = (λ h. (cc, refl), λ h. ground arith)
only_profile-cons_iff p q (r ∷ l) = (λ h. absurd (cc), λ h. absurd (ground arith))

only_profile-dedup_iff :
    (p : WasiProfile) (l : List WasiProfile)
    → (only_profile (dedup l) ≡ ok p) ↔ ((l ≢ []) × AllSame p l)
unfolding only_profile dedup
only_profile-dedup_iff p [] = (λ h. absurd (cc), λ h. absurd (h.0 refl))
only_profile-dedup_iff p (q ∷ l) =
    let one = only_profile-cons_iff p q (dedup_from q l) in
    let empty = dedup_from-eq-nil_iff q l in
    (
      λ h. (λ e. cc, ((one.0 h).0, subst (λ r. AllSame r l) (one.0 h).0 (empty.0 (one.0 h).1))),
      λ h. one.1 (h.1.0, empty.1 (subst (λ r. AllSame r l) (sym h.1.0) h.1.1)),
    )

profiles_of-AllSame :
    (p : WasiProfile) (names : List Bytes) → AllSame p (profiles_of names) ↔ All (Agrees p) names
unfolding profiles_of
profiles_of-AllSame p [] = (λ h. tt, λ h. tt)
profiles_of-AllSame p (name ∷ names) =
    let ih = profiles_of-AllSame p names in
    elim (Option-cases (profile_of name)) [
      | inl no_profile ↦ rw no_profile (λ h. (inl refl, ih.0 h), λ h. ih.1 h.1)
      | inr (q, found) ↦
          rw found (λ h. (inr (ap some h.0), ih.0 h.1), λ h. (some_eq q p h.0, ih.1 h.1))
    ]
  where
    some_eq : (q r : WasiProfile) → (some q ≡ none) ⊎ (some q ≡ some r) → q ≡ r
    some_eq q r (inl e) = absurd (cc)
    some_eq q r (inr e) = cc

profiles_of-ne-nil :
    (p : WasiProfile) (names : List Bytes)
    → All (Agrees p) names
    → (profiles_of names ≢ []) ↔ SomeNames p names
unfolding profiles_of
profiles_of-ne-nil p [] h = (λ n. n refl, λ s. absurd s)
profiles_of-ne-nil p (name ∷ names) h = elim h.0 [
  | inl no_profile ↦
      let ih = profiles_of-ne-nil p names h.1 in
      rw no_profile (λ n. inr (ih.0 n), λ s. elim s [ inl e ↦ absurd (cc) | inr s' ↦ ih.1 s' ])
  | inr found ↦ rw found (λ n. inl refl, λ s e. cc)
]

-- The profile of a component is decided by its exports: `detect_profile` gives a profile exactly if
-- some export stands for it and no export stands for another one, in whatever order and however
-- often they come.
pub detect_profile_iff :
    {Component : Type 0} (engine : Engine Component) (component : Component) (p : WasiProfile)
    → (detect_profile engine component ≡ ok p)
      ↔ (SomeNames p (engine.exports component) × All (Agrees p) (engine.exports component))
unfolding detect_profile
detect_profile_iff engine component p =
    let names = engine.exports component in
    let one = only_profile-dedup_iff p (sort_by_key (profiles_of names)) in
    let sorted = sort_by_key-AllSame p (profiles_of names) in
    let same = profiles_of-AllSame p names in
    let nonempty = sort_by_key-ne-nil (profiles_of names) in
    (
      λ h.
          (let agree = same.0 (sorted.0 (one.0 h).1) in
            ((profiles_of-ne-nil p names agree).0 (nonempty.0 (one.0 h).0), agree)),
      λ h. one.1 (nonempty.1 ((profiles_of-ne-nil p names h.1).1 h.0), sorted.1 (same.1 h.1)),
    )
