-- ===== src/Http/Granting.antt =====
-- src/http.rs: the requests that leave.
use wasm_runtime.Base.{
  Option-cases, ℕ, ◌≤◌, true, false, Option, some, List, [], ◌∷◌, ◌++◌, Bytes, ◌≡◌, ◌↔◌, ◌⊎◌, inl,
  inr, refl, sym, ap, ◌∙◌, any, equal, equal→eq, equal_refl, All, arith, Bool-cases,
}
use wasm_runtime.Http.{
  OutboundHttpGrant, Authority, Request, Network, to_ascii_lowercase, eq_ignore_ascii_case,
  declared_length, content_length_at_most, allows, find,
}

-- Equal up to the case of ASCII letters.
abbrev pub SameText : Bytes → Bytes → Type 0
SameText a b = to_ascii_lowercase a ≡ to_ascii_lowercase b

abbrev pub SomeMethod : Bytes → List Bytes → Type 0
SomeMethod method [] = ⊥
SomeMethod method (m ∷ ms) = SameText m method ⊎ SomeMethod method ms

eq_ignore_ascii_case_iff : (a b : Bytes) → (eq_ignore_ascii_case a b ≡ true) ↔ SameText a b
eq_ignore_ascii_case_iff a b = (
  equal→eq _ _,
  λ e. ap (equal (to_ascii_lowercase a)) (sym e) ∙ equal_refl (to_ascii_lowercase a),
)

any-SomeMethod :
    (method : Bytes) (methods : List Bytes)
    → (any (λ m. eq_ignore_ascii_case m method) methods ≡ true) ↔ SomeMethod method methods
any-SomeMethod method [] = (λ h. cc, λ h. absurd h)
any-SomeMethod method (m ∷ ms) =
    let same = eq_ignore_ascii_case_iff m method in
    let ih = any-SomeMethod method ms in
    (
      λ h. elim (Bool-cases (eq_ignore_ascii_case m method)) [
        | inl equal_texts ↦ inl (same.0 equal_texts)
        | inr other ↦ inr (ih.0 (ground arith))
      ],
      λ s. elim s [ inl e ↦ ground (arith, same.1 e) | inr s' ↦ ground (arith, ih.1 s') ],
    )

module _ (network : Network) where
  pub record Permits (scheme : Bytes) (authority : Authority) (request : Request)
      (grant : OutboundHttpGrant) : Type 0 where
    pub same_scheme : SameText grant.scheme scheme
    pub same_authority : SameText grant.authority authority.text
    pub some_method : SomeMethod request.method grant.methods
    pub short :
        (n : ℕ) × (declared_length network request.content_length ≡ some n)
        × (n ≤ grant.max_request_bytes)

  short_iff :
      (header : Option Bytes) (limit : ℕ)
      → (content_length_at_most network header limit ≡ true)
        ↔ ((n : ℕ) × (declared_length network header ≡ some n) × (n ≤ limit))
  unfolding content_length_at_most
  short_iff header limit = (
    λ h. elim (Option-cases (declared_length network header)) [
      | inr (n, e) ↦ (n, e, ground arith)
      | inl e ↦ ground arith
    ],
    λ (n, e, le). ground arith,
  )

  allows_iff :
      (scheme : Bytes) (authority : Authority) (request : Request) (grant : OutboundHttpGrant)
      → (allows network scheme authority request grant ≡ true)
        ↔ Permits scheme authority request grant
  unfolding allows
  allows_iff scheme authority request grant =
      let s = eq_ignore_ascii_case_iff grant.scheme scheme in
      let a = eq_ignore_ascii_case_iff grant.authority authority.text in
      let m = any-SomeMethod request.method grant.methods in
      let l = short_iff request.content_length grant.max_request_bytes in
      (
        λ h. record {
          same_scheme = s.0 (ground arith);
          same_authority = a.0 (ground arith);
          some_method = m.0 (ground arith);
          short = l.0 (ground arith);
        },
        λ p.
            ground (arith, s.1 p.same_scheme, a.1 p.same_authority, m.1 p.some_method, l.1 p.short),
      )

  refused_iff :
      (scheme : Bytes) (authority : Authority) (request : Request) (grant : OutboundHttpGrant)
      → (allows network scheme authority request grant ≡ false)
        ↔ (Permits scheme authority request grant → ⊥)
  refused_iff scheme authority request grant =
      let same = allows_iff scheme authority request grant in
      (
        λ h p. (let yea = same.1 p in cc),
        λ h. elim (Bool-cases (allows network scheme authority request grant)) [
          | inl yea ↦ absurd (h (same.0 yea))
          | inr nay ↦ nay
        ],
      )

  -- The first grant that permits a request.
  pub record Grants (grants : List OutboundHttpGrant) (request : Request)
      (grant : OutboundHttpGrant) : Type 0 where
    pub scheme : Bytes
    pub scheme_there : request.scheme ≡ some scheme
    pub authority : Authority
    pub authority_there : request.authority ≡ some authority
    pub before : List OutboundHttpGrant
    pub after : List OutboundHttpGrant
    pub split : grants ≡ before ++ (grant ∷ after)
    pub earlier : All (λ g. Permits scheme authority request g → ⊥) before
    pub permits : Permits scheme authority request grant

  module _ (scheme : Bytes) (authority : Authority) (request : Request) where
    abbrev pub First : List OutboundHttpGrant → OutboundHttpGrant → Type 0
    First grants grant =
        (before : List OutboundHttpGrant) × (after : List OutboundHttpGrant) × (grants
          ≡ before ++ (grant ∷ after))
        × All (λ g. Permits scheme authority request g → ⊥) before
        × Permits scheme authority request grant

    pub find-First :
        (grants : List OutboundHttpGrant) (grant : OutboundHttpGrant)
        → find network (allows network scheme authority request) grants ≡ some grant
        → First grants grant
    find-First [] grant h = cc
    find-First (g ∷ grants) grant h =
        elim (Bool-cases (allows network scheme authority request g)) [
          | inl yea ↦
              (let same : g ≡ grant = ground arith in
                (
                  [],
                  grants,
                  ap (λ x. x ∷ grants) same,
                  tt,
                  (allows_iff scheme authority request grant).0
                      (ap (allows network scheme authority request) (sym same) ∙ yea),
                ))
          | inr nay ↦
              (let (before, after, split, earlier, permits) =
                  find-First grants grant (ground (arith, nay)) in
                (
                  g ∷ before,
                  after,
                  ap (λ x. g ∷ x) split,
                  ((refused_iff scheme authority request g).0 nay, earlier),
                  permits,
                ))
        ]

    pub First-find :
        (before after : List OutboundHttpGrant) (grant : OutboundHttpGrant)
        → All (λ g. Permits scheme authority request g → ⊥) before
        → Permits scheme authority request grant
        → find network (allows network scheme authority request) (before ++ (grant ∷ after))
          ≡ some grant
    First-find [] after grant earlier permits =
        rw ((allows_iff scheme authority request grant).1 permits) refl
    First-find (g ∷ before) after grant (no_permit, earlier) permits =
        rw ((refused_iff scheme authority request g).1 no_permit)
          (First-find before after grant earlier permits)
